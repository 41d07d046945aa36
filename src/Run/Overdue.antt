-- ===== src/Run/Overdue.antt =====
-- The connections that kcpmux_conn_update in src/kcpmux_conn.c gives up.
use kcp_mux.Base.{
  ◌+◌, ◌⊎◌, u32, ◌^◌, ℕ, suc, ◌≤◌, ◌<◌, ◌≡◌, inl, refl, ◌∙◌, sym, ap, subst, arith, true, false,
  not, ltb, leb, ◌==◌, ◌||◌, if◌then◌else◌, Bool, Bool-cases, inr,
}
use kcp_mux.Types.{ConnState, conn_is, reason_timeout, int64_max}
use kcp_mux.Timer.{deadline_after}
use kcp_mux.World.{World, Conn, M, when, ◌>>=◌, ◌>>◌, mod_engine, mod_conn}
use kcp_mux.World.Stats.{plus}
use kcp_mux.Htb.{all_nodes}
use kcp_mux.Engine.{unregister_timer_node}
use kcp_mux.Route.{remove_conn}
use kcp_mux.Conn.{
  conn_refresh_timer, calculate_deadline, conn_set_state, enter_state, conn_send_connect,
  conn_send_close,
}
use kcp_mux.Conn.Deadlines.{Elapsed, HasWork, calculate_deadline_iff}
use kcp_mux.ConnLife.{conn_close_internal, close_streams, end_conn}
use kcp_mux.ConnUpdate.{
  conn_update, conn_update_state, update_connecting, update_connected, update_conn_closing, is_due,
}
use kcp_mux.Life.Relation.{Follows, IsQuietConn}
use kcp_mux.Life.Changes.{rules}
use kcp_mux.Life.Timing.{unregister_timer_node-Follows}
use kcp_mux.Life.Maps.{remove_conn-Follows}
use kcp_mux.Life.Quiet.{
  conn_send_connect-Follows, conn_send_close-Follows, conn_refresh_timer-Follows,
}
use kcp_mux.Life.Ends.{close_streams-Follows, end_conn-Follows}
use kcp_mux.Life.Moves.{enter_state-Follows}
use kcp_mux.Life.Forward.{forward, quiet, conn_stage}

-- What kcpmux_conn_close_internal does once the connection is marked.
abbrev ending : ℕ → ℕ → Conn → M (Unit {0})
ending c reason conn = do
  unregister_timer_node c
  remove_conn c
  mod_engine (λ e. record e {
    stats = record (e.stats) { conn_closed_total = plus e.stats.conn_closed_total 1 };
  })
  close_streams (all_nodes conn.stream_map.hashtable) reason
  end_conn c reason conn

ending-Follows : {k : ℕ} (c reason : ℕ) (conn : Conn) → Follows forward k (ending c reason conn)
ending-Follows c reason conn =
    search
      (
        rules, unregister_timer_node-Follows, remove_conn-Follows, close_streams-Follows,
        end_conn-Follows,
      )
      depth 20

abbrev mark : ℕ → World → World
mark c w = (mod_conn c (λ x. record x { internal_closed = true }) w).1

marked_lem :
    (c : ℕ) (w : World)
    → (((mark c w).conns c).internal_closed ≡ true)
      × (((mark c w).conns c).state ≡ (w.conns c).state)
marked_lem c w = let here : (c == c) ≡ true = ground arith in (rw here refl, rw here refl)

close_open :
    (c reason : ℕ) (w : World)
    → (w.conns c).internal_closed ≡ false
    → (conn_close_internal c reason w).1 ≡ (ending c reason (w.conns c) (mark c w)).1
unfolding conn_close_internal
close_open c reason w e = rw e refl

-- A connection that was open is closed, and if it was in ERROR it still is.
record IsGone (c : ℕ) (w w' : World) : Type 0 where
  pub closed : (w'.conns c).internal_closed ≡ true
  pub failed : (w.conns c).state ≡ ConnState.error → (w'.conns c).state ≡ ConnState.error

close-IsGone :
    (c reason : ℕ) (w : World)
    → c < w.next_address
    → (w.conns c).internal_closed ≡ false
    → IsGone c w (conn_close_internal c reason w).1
close-IsGone c reason w below e =
    let ran = (ending-Follows {k = suc c} c reason (w.conns c)).run (mark c w) (omega arith) in
    let f = ran.conns c (omega arith) in
    let m = marked_lem c w in
    subst (IsGone c w) (sym (close_open c reason w e))
      (record { closed = f.closed m.0; failed = λ h. f.final (ap conn_stage (m.1 ∙ h)) ∙ m.1 ∙ h })

-- A connection on its way from an error to its end.
record IsFailing (c : ℕ) (w v : World) : Type 0 where
  pub addresses : w.next_address ≤ v.next_address
  pub state : (v.conns c).state ≡ ConnState.error
  pub still : (v.conns c).internal_closed ≡ false

abbrev failing : ℕ → World → World
failing c w = (mod_conn c (λ x. record x { state = ConnState.error }) w).1

failing_lem :
    (c : ℕ) (w : World)
    → (w.conns c).internal_closed ≡ false
    → (((failing c w).conns c).internal_closed ≡ false)
      × (((failing c w).conns c).state ≡ ConnState.error)
failing_lem c w e = let here : (c == c) ≡ true = ground arith in (rw here e, rw here refl)

set_error_steps :
    (c : ℕ) (w : World)
    → (w.conns c).internal_closed ≡ false
    → conn_is (w.conns c).state ConnState.error ≡ false
    → (conn_set_state c ConnState.error w).1
      ≡ (enter_state c
          (w.conns c).state
          ConnState.error
          (w.conns c).callbacks.conn_state_changed
          (failing c w)).1
unfolding conn_set_state
set_error_steps c w e f =
    let x = w.conns c in
    let open_still : (x.internal_closed || conn_is x.state ConnState.error) ≡ false =
      ground arith in
    ap
      (λ b.
        (when (not b)
          (mod_conn c (λ x. record x { state = ConnState.error })
            >> enter_state c x.state ConnState.error x.callbacks.conn_state_changed)
          w).1)
      open_still

set_error-IsFailing :
    (c : ℕ) (w : World)
    → c < w.next_address
    → (w.conns c).internal_closed ≡ false
    → conn_is (w.conns c).state ConnState.error ≡ false
    → IsFailing c w (conn_set_state c ConnState.error w).1
set_error-IsFailing c w below e f =
    let x = w.conns c in
    let ran =
      (enter_state-Follows {r = quiet} {k = suc c} c x.state ConnState.error
          x.callbacks.conn_state_changed).run
        (failing c w) (omega arith) in
    let q = ran.conns c (omega arith) in
    let m = failing_lem c w e in
    subst (IsFailing c w) (sym (set_error_steps c w e f))
      (record { addresses = ran.addresses; state = q.state ∙ m.1; still = q.closed ∙ m.0 })

-- The timeout of a state has passed: the control timeout, or in CONNECTED the keepalive timeout.
abbrev pub IsOverdue : ConnState → Conn → ℕ → Type 0
IsOverdue ConnState.connecting x t = Elapsed x.last_ctrl_ts x.config.ctrl_timeout_ms t
IsOverdue ConnState.connected x t = Elapsed x.last_recv_ts x.config.keepalive_timeout_ms t
IsOverdue ConnState.closing x t = Elapsed x.last_ctrl_ts x.config.ctrl_timeout_ms t
IsOverdue _ x t = ⊥

-- One more retry is counted, and the connection goes on waiting.
pub record IsRetried (x y : Conn) : Type 0 where
  pub counted : y.retry_count ≡ x.retry_count + 1
  pub state : y.state ≡ x.state
  pub still : y.internal_closed ≡ false

abbrev pub IsFailed : Conn → Type 0
IsFailed y = (y.internal_closed ≡ true) × (y.state ≡ ConnState.error)

-- What becomes of an overdue connection `x`. A connection that closes ends with its last retry.
abbrev pub Outcome : ConnState → Conn → Conn → Type 0
Outcome ConnState.connecting x y =
    ((x.retry_count < x.config.connect_retries) × IsRetried x y)
    ⊎ ((x.config.connect_retries ≤ x.retry_count) × IsFailed y)
Outcome ConnState.connected x y = IsFailed y
Outcome ConnState.closing x y =
    ((x.retry_count + 1 < x.config.close_retries) × IsRetried x y)
    ⊎ ((x.config.close_retries ≤ x.retry_count + 1) × (y.internal_closed ≡ true))
Outcome _ x y = ⊥

-- The numbers of retries are 32-bit integers.
pub record AreWords (x : Conn) : Type 0 where
  pub connects : x.config.connect_retries < 2 ^ 32
  pub closes : x.config.close_retries < 2 ^ 32

-- Failing and then closing, with a change of the statistics between.
given_up :
    (c reason : ℕ) (w v : World)
    → c < w.next_address
    → IsFailing c w v
    → let y = (conn_close_internal c reason v).1.conns c in
      (y.internal_closed ≡ true) × (y.state ≡ ConnState.error)
given_up c reason w v below p =
    let g = close-IsGone c reason v (omega (arith, p.addresses)) p.still in
    (g.closed, g.failed p.state)

counted-IsFailing :
    (c : ℕ) (w v : World)
    → IsFailing c w v
    → IsFailing c w
        (mod_engine
          (λ e. record e {
            stats = record (e.stats) {
              conn_keepalive_timeout_total = plus e.stats.conn_keepalive_timeout_total 1;
            };
          })
          v).1
counted-IsFailing c w v p = record { addresses = p.addresses; state = p.state; still = p.still }

-- A step of kcpmux_conn_update by the state: through `return`, or to the refresh of the timer.
abbrev Ended : ConnState → ℕ → World → Bool × World → Type 0
Ended s c w ran =
    ((ran.0 ≡ true) × Outcome s (w.conns c) (ran.1.conns c))
    ⊎ ((ran.0 ≡ false)
        × (w.next_address ≤ ran.1.next_address)
        × ((y : Conn) → IsQuietConn (ran.1.conns c) y → Outcome s (w.conns c) y))

abbrev counted_retry : ℕ → World → World
counted_retry c w = (mod_conn c (λ x. record x { retry_count = u32 (x.retry_count + 1) }) w).1

counted_lem :
    (c : ℕ) (w : World)
    → (w.conns c).retry_count + 1 < 2 ^ 32
    → (w.conns c).internal_closed ≡ false
    → IsRetried (w.conns c) ((counted_retry c w).conns c)
counted_lem c w h e =
    let here : (c == c) ≡ true = ground arith in
    let fits : u32 ((w.conns c).retry_count + 1) ≡ (w.conns c).retry_count + 1 = omega arith in
    rw here (record { counted = fits; state = refl; still = e })

quiet-IsRetried : (x y z : Conn) → IsRetried x y → IsQuietConn y z → IsRetried x z
quiet-IsRetried x y z p q = record {
  counted = q.retries ∙ p.counted;
  state = q.state ∙ p.state;
  still = q.closed ∙ p.still;
}

-- What is sent after a retry is counted changes nothing of it.
sent-IsRetried :
    {A : Type 0} (m : M A) (c : ℕ) (w : World)
    → Follows quiet (suc c) m
    → c < w.next_address
    → IsRetried (w.conns c) ((counted_retry c w).conns c)
    → IsRetried (w.conns c) ((m (counted_retry c w)).1.conns c)
sent-IsRetried m c w p below r =
    quiet-IsRetried (w.conns c) ((counted_retry c w).conns c) ((m (counted_retry c w)).1.conns c) r
      ((p.run (counted_retry c w) (omega arith)).conns c (omega arith))

module _ (c t : ℕ) (w : World) (below : c < w.next_address)
    (e : (w.conns c).internal_closed ≡ false) (words : AreWords (w.conns c)) where
  connecting_lem :
      (w.conns c).state ≡ ConnState.connecting
      → IsOverdue ConnState.connecting (w.conns c) t
      → Ended ConnState.connecting c w (update_connecting c t w)
  unfolding update_connecting
  connecting_lem s x =
      let conn = w.conns c in
      let passed : leb (deadline_after conn.last_ctrl_ts conn.config.ctrl_timeout_ms) t ≡ true =
        ground arith in
      elim (Bool-cases (ltb conn.retry_count conn.config.connect_retries)) [
        | inl left ↦
            let sends = conn_send_connect-Follows {r = quiet} {k = suc c} c in
            let r =
              sent-IsRetried (conn_send_connect c) c w sends below
                (counted_lem c w (ground (arith, words.connects)) e) in
            rw (passed, left)
              (inr (
                refl,
                (sends.run (counted_retry c w) (omega arith)).addresses,
                λ y q. inl (ground arith, quiet-IsRetried _ _ y r q),
              ))
        | inr used ↦
            let failed = set_error-IsFailing c w below e (rw s refl) in
            let v = (conn_set_state c ConnState.error w).1 in
            rw (passed, used)
              (inl (refl, inr (ground arith, given_up c reason_timeout w v below failed)))
      ]

  connected_lem :
      (w.conns c).state ≡ ConnState.connected
      → IsOverdue ConnState.connected (w.conns c) t
      → Ended ConnState.connected c w (update_connected c t w)
  unfolding update_connected
  connected_lem s x =
      let conn = w.conns c in
      let passed : leb (deadline_after conn.last_recv_ts conn.config.keepalive_timeout_ms) t
          ≡ true =
        ground arith in
      let failed =
        counted-IsFailing c w (conn_set_state c ConnState.error w).1
          (set_error-IsFailing c w below e (rw s refl)) in
      rw passed (inl (refl, given_up c reason_timeout w _ below failed))

  closing_lem :
      (w.conns c).state ≡ ConnState.closing
      → IsOverdue ConnState.closing (w.conns c) t
      → Ended ConnState.closing c w (update_conn_closing c t w)
  unfolding update_conn_closing
  closing_lem s x =
      let conn = w.conns c in
      let passed : leb (deadline_after conn.last_ctrl_ts conn.config.ctrl_timeout_ms) t ≡ true =
        ground arith in
      elim (Bool-cases (ltb conn.retry_count conn.config.close_retries)) [
        | inr used ↦
            rw (passed, used)
              (inl (refl, inr (ground arith, (close-IsGone c conn.close_reason w below e).closed)))
        | inl left ↦
            let sends = conn_send_close-Follows {r = quiet} {k = suc c} c conn.close_reason in
            let counted = counted_lem c w (ground (arith, words.closes)) e in
            let r = sent-IsRetried (conn_send_close c conn.close_reason) c w sends below counted in
            let addresses = (sends.run (counted_retry c w) (omega arith)).addresses in
            let sent = (conn_send_close c conn.close_reason (counted_retry c w)).1 in
            let fits : u32 (conn.retry_count + 1) ≡ conn.retry_count + 1 =
              ground (arith, words.closes) in
            elim (Bool-cases (u32 (conn.retry_count + 1) == conn.config.close_retries)) [
              | inl last ↦
                  rw (passed, left, last)
                    (inl (
                      refl,
                      inr (
                        ground arith,
                        (close-IsGone c conn.close_reason sent (omega (arith, addresses))
                            r.still).closed,
                      ),
                    ))
              | inr more ↦
                  rw (passed, left, more)
                    (inr (refl, addresses, λ y q. inl (ground arith, quiet-IsRetried _ _ y r q)))
            ]
      ]

  state_lem :
      (s : ConnState)
      → (w.conns c).state ≡ s
      → IsOverdue s (w.conns c) t
      → Ended s c w (conn_update_state s c t w)
  unfolding conn_update_state
  state_lem ConnState.connecting s x = connecting_lem s x
  state_lem ConnState.connected s x = connected_lem s x
  state_lem ConnState.closing s x = closing_lem s x
  state_lem ConnState.init s x = absurd x
  state_lem ConnState.closed s x = absurd x
  state_lem ConnState.error s x = absurd x

overdue-HasWork : (s : ConnState) (x : Conn) (t : ℕ) → IsOverdue s x t → HasWork s x t
overdue-HasWork ConnState.connecting x t h = h
overdue-HasWork ConnState.connected x t h = inl h
overdue-HasWork ConnState.closing x t h = h
overdue-HasWork ConnState.init x t h = h
overdue-HasWork ConnState.closed x t h = h
overdue-HasWork ConnState.error x t h = h

conn_update_steps :
    (c t : ℕ) (w : World)
    → (w.conns c).internal_closed ≡ false
    → is_due (calculate_deadline (w.conns c)) t ≡ true
    → (b : Bool) → (conn_update_state (w.conns c).state c t w).0 ≡ b
    → (conn_update c t w).1
      ≡ (when (not b) (conn_refresh_timer c t) (conn_update_state (w.conns c).state c t w).1).1
unfolding conn_update
conn_update_steps c t w e due b returned =
    let x = w.conns c in
    let update =
      conn_update_state x.state c t
      >>= (λ returned. when (not returned) (conn_refresh_timer c t)) in
    let ran = conn_update_state x.state c t w in
    ap
      (λ b.
        (when (not b)
          (if not (is_due (calculate_deadline x) t) then conn_refresh_timer c t else update) w).1)
      e
    ∙ ap (λ b. ((if not b then conn_refresh_timer c t else update) w).1) due
    ∙ ap (λ b. (when (not b) (conn_refresh_timer c t) ran.1).1) returned

-- What kcpmux_conn_update, before INT64_MAX, does with a connection that is not closed, whose limits
-- of retries are 32-bit numbers, and whose timeout has passed: one that is CONNECTED and heard
-- nothing from its peer for the keepalive timeout is closed, in ERROR; one that is CONNECTING counts
-- one more retry and waits on if it has a retry left, and is otherwise closed, in ERROR; one that is
-- CLOSING counts one more retry and waits on if that is not its last, and is otherwise closed.
pub conn_update_decides :
    (c t : ℕ) (w : World)
    → c < w.next_address
    → (w.conns c).internal_closed ≡ false
    → AreWords (w.conns c)
    → t < int64_max
    → IsOverdue (w.conns c).state (w.conns c) t
    → Outcome (w.conns c).state (w.conns c) ((conn_update c t w).1.conns c)
conn_update_decides c t w below e words h x =
    let s = (w.conns c).state in
    let due = (calculate_deadline_iff (w.conns c) t e h).1 (overdue-HasWork s (w.conns c) t x) in
    let ran = conn_update_state s c t w in
    elim (state_lem c t w below e words s refl x) [
      | inl (returned, outcome) ↦
          subst (λ v. Outcome s (w.conns c) (v.conns c))
            (sym (conn_update_steps c t w e due true returned)) outcome
      | inr (waits, addresses, outcome) ↦
          let refreshed =
            (conn_refresh_timer-Follows {r = quiet} {k = suc c} c t).run ran.1 (omega arith) in
          subst (λ v. Outcome s (w.conns c) (v.conns c))
            (sym (conn_update_steps c t w e due false waits))
            (outcome ((conn_refresh_timer c t ran.1).1.conns c) (refreshed.conns c (omega arith)))
    ]
