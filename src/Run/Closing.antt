-- ===== src/Run/Closing.antt =====
-- The closing streams that kcpmux_stream_update in src/kcpmux_stream.c ends.
use kcp_mux.Base.{
  ◌+◌, ◌⊎◌, u32, ◌^◌, ℕ, suc, ◌≤◌, ◌<◌, ◌≡◌, ◌≢◌, inl, inr, refl, ◌∙◌, sym, ap, subst, arith,
  Bool-cases, true, false, not, ltb, leb, ◌==◌, ◌||◌,
}
use kcp_mux.Types.{StreamState, ClosePhase, ConnState, conn_is, reason_timeout}
use kcp_mux.Timer.{deadline_after}
use kcp_mux.World.{World, Stream, mod_stream, when}
use kcp_mux.Stream.{stream_close_internal, stream_send_close}
use kcp_mux.Stream.Closing.{stream_close_internal_correct}
use kcp_mux.StreamUpdate.{stream_update, update_by_state, update_closing}
use kcp_mux.Life.Quiet.{stream_send_close-Follows}
use kcp_mux.Life.Forward.{quiet}

-- A closing stream has waited long enough: for the acknowledgement of its close until the control
-- timeout, for the application to read until the drain timeout, or for nothing but its end.
pub data IsWaitedOut (x : Stream) (t : ℕ) : Type 0 where
  for_ack :
      x.close_phase ≡ ClosePhase.wait_ack
      → deadline_after x.last_ctrl_ts x.config.ctrl_timeout_ms ≤ t
      → IsWaitedOut x t
  for_reads :
      x.close_phase ≡ ClosePhase.remote_drain
      → deadline_after x.drain_started_ts x.config.drain_timeout_ms ≤ t
      → IsWaitedOut x t
  for_end : x.close_phase ≡ ClosePhase.finalize → IsWaitedOut x t

-- One more retry is counted, and the stream goes on waiting.
pub record IsRetried (x y : Stream) : Type 0 where
  pub counted : y.retry_count ≡ x.retry_count + 1
  pub phase : y.close_phase ≡ x.close_phase
  pub state : y.state ≡ x.state
  pub still : y.internal_closed ≡ false

abbrev pub IsOver : Stream → Type 0
IsOver y = (y.internal_closed ≡ true) × (y.state ≡ StreamState.closed)

-- It does not wait for an acknowledgement, or the retry that is due is its last.
abbrev pub IsAtEnd : Stream → Type 0
IsAtEnd x = (x.close_phase ≢ ClosePhase.wait_ack) ⊎ (x.config.close_retries ≤ x.retry_count + 1)

-- A stream that is at its end is over, and one whose last retry is not yet due waits on.
abbrev pub Outcome : Stream → Stream → Type 0
Outcome x y =
    (IsAtEnd x × IsOver y)
    ⊎ ((x.close_phase ≡ ClosePhase.wait_ack)
        × (x.retry_count + 1 < x.config.close_retries)
        × IsRetried x y)

close-IsOver :
    (s reason : ℕ) (w : World)
    → (w.streams s).internal_closed ≡ false
    → (w.streams s).state ≡ StreamState.closing
    → IsOver ((stream_close_internal s reason w).1.streams s)
close-IsOver s reason w e closing =
    let r = (stream_close_internal_correct s reason w).0 e in (r.closed, r.state ∙ rw closing refl)

abbrev counted_retry : ℕ → World → World
counted_retry s w = (mod_stream s (λ x. record x { retry_count = u32 (x.retry_count + 1) }) w).1

counted_lem :
    (s : ℕ) (w : World)
    → (w.streams s).retry_count + 1 < 2 ^ 32
    → (w.streams s).internal_closed ≡ false
    → IsRetried (w.streams s) ((counted_retry s w).streams s)
counted_lem s w h e =
    let here : (s == s) ≡ true = ground arith in
    let fits : u32 ((w.streams s).retry_count + 1) ≡ (w.streams s).retry_count + 1 = omega arith in
    rw here (record { counted = fits; phase = refl; state = refl; still = e })

sent-IsRetried :
    (s reason : ℕ) (w : World)
    → s < w.next_address
    → IsRetried (w.streams s) ((counted_retry s w).streams s)
    → IsRetried (w.streams s) ((stream_send_close s reason (counted_retry s w)).1.streams s)
sent-IsRetried s reason w below r =
    let q =
      ((stream_send_close-Follows {r = quiet} {k = suc s} s reason).run (counted_retry s w)
          (omega arith)).streams
        s (omega arith) in
    record {
      counted = q.retries ∙ r.counted;
      phase = q.phase ∙ r.phase;
      state = q.state ∙ r.state;
      still = q.closed ∙ r.still;
    }

next_fits : (r n : ℕ) → ltb r n ≡ true → n < 2 ^ 32 → r + 1 < 2 ^ 32
next_fits r n h fits = ground arith

not_last : (r n : ℕ) → ltb r n ≡ true → n < 2 ^ 32 → (u32 (r + 1) == n) ≡ false → r + 1 < n
not_last r n h fits e = let same : u32 (r + 1) ≡ r + 1 = ground arith in ground arith

used_up : (r n : ℕ) → ltb r n ≡ false → n ≤ r + 1
used_up r n h = ground arith

is_last : (r n : ℕ) → ltb r n ≡ true → n < 2 ^ 32 → (u32 (r + 1) == n) ≡ true → n ≤ r + 1
is_last r n h fits e = let same : u32 (r + 1) ≡ r + 1 = ground arith in ground arith

drains_reads : ClosePhase.remote_drain ≢ ClosePhase.wait_ack
drains_reads e = ground arith

ends_now : ClosePhase.finalize ≢ ClosePhase.wait_ack
ends_now e = ground arith

module _ (s t : ℕ) (w : World) (below : s < w.next_address)
    (e : (w.streams s).internal_closed ≡ false)
    (closing : (w.streams s).state ≡ StreamState.closing)
    (words : (w.streams s).config.close_retries < 2 ^ 32) where
  wait_ack_lem :
      (w.streams s).close_phase ≡ ClosePhase.wait_ack
      → deadline_after (w.streams s).last_ctrl_ts (w.streams s).config.ctrl_timeout_ms ≤ t
      → Outcome (w.streams s) ((update_closing ClosePhase.wait_ack s t w).1.streams s)
  unfolding update_closing
  wait_ack_lem phase h =
      let x = w.streams s in
      let passed : leb (deadline_after x.last_ctrl_ts x.config.ctrl_timeout_ms) t ≡ true =
        ground arith in
      elim (Bool-cases (ltb x.retry_count x.config.close_retries)) [
        | inr used ↦
            rw (passed, used)
              (inl (
                inr (used_up x.retry_count x.config.close_retries used),
                close-IsOver s x.close_reason w e closing,
              ))
        | inl left ↦
            let r =
              sent-IsRetried s x.close_reason w below
                (counted_lem s w (next_fits x.retry_count x.config.close_retries left words) e) in
            let sent = (stream_send_close s x.close_reason (counted_retry s w)).1 in
            elim (Bool-cases (u32 (x.retry_count + 1) == x.config.close_retries)) [
              | inl last ↦
                  rw (passed, left, last)
                    (inl (
                      inr (is_last x.retry_count x.config.close_retries left words last),
                      close-IsOver s x.close_reason sent r.still (r.state ∙ closing),
                    ))
              | inr more ↦
                  rw (passed, left, more)
                    (inr (phase, not_last x.retry_count x.config.close_retries left words more, r))
            ]
      ]

  phase_lem :
      IsWaitedOut (w.streams s) t
      → Outcome (w.streams s) ((update_closing (w.streams s).close_phase s t w).1.streams s)
  unfolding update_closing
  phase_lem (for_ack phase h) =
      subst (λ p. Outcome (w.streams s) ((update_closing p s t w).1.streams s)) (sym phase)
        (wait_ack_lem phase h)
  phase_lem (for_reads phase h) =
      let x = w.streams s in
      let passed : leb (deadline_after x.drain_started_ts x.config.drain_timeout_ms) t ≡ true =
        ground arith in
      subst (λ p. Outcome (w.streams s) ((update_closing p s t w).1.streams s)) (sym phase)
        (rw passed (
          inl (inl (λ p. drains_reads (sym phase ∙ p)), close-IsOver s reason_timeout w e closing)))
  phase_lem (for_end phase) =
      subst (λ p. Outcome (w.streams s) ((update_closing p s t w).1.streams s)) (sym phase)
        (inl (
          inl (λ p. ends_now (sym phase ∙ p)),
          close-IsOver s (w.streams s).close_reason w e closing,
        ))

  -- What the update of a closing stream of an established connection comes to.
  stream_update_steps :
      (w.conns (w.streams s).conn).internal_closed ≡ false
      → (w.conns (w.streams s).conn).state ≡ ConnState.connected
      → (stream_update s t w).1 ≡ (update_closing (w.streams s).close_phase s t w).1
  unfolding stream_update update_by_state
  stream_update_steps up connected =
      let x = w.streams s in
      let conn = w.conns x.conn in
      let active : (x.internal_closed
            || (conn.internal_closed || not (conn_is conn.state ConnState.connected)))
          ≡ false =
        rw (e, up, connected) refl in
      ap (λ b. (when (not b) (update_by_state x.state s t) w).1) active
      ∙ ap (λ z. (update_by_state z s t w).1) closing

-- What kcpmux_stream_update does with a CLOSING stream that is not closed, on a CONNECTED connection
-- that is not closed, with a limit of retries of 32 bits: one in REMOTE_DRAIN whose drain timeout
-- has passed, and one in FINALIZE, are closed, in CLOSED; one in WAIT_ACK whose control timeout has
-- passed counts one more retry and waits on if that is not its last, and is otherwise closed, in
-- CLOSED.
pub stream_update_decides :
    (s t : ℕ) (w : World)
    → s < w.next_address
    → (w.streams s).internal_closed ≡ false
    → (w.streams s).state ≡ StreamState.closing
    → (w.streams s).config.close_retries < 2 ^ 32
    → (w.conns (w.streams s).conn).internal_closed ≡ false
    → (w.conns (w.streams s).conn).state ≡ ConnState.connected
    → IsWaitedOut (w.streams s) t
    → Outcome (w.streams s) ((stream_update s t w).1.streams s)
stream_update_decides s t w below e closing words up connected h =
    subst (λ v. Outcome (w.streams s) (v.streams s))
      (sym (stream_update_steps s t w below e closing words up connected))
      (phase_lem s t w below e closing words h)
