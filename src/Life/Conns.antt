-- ===== src/Life/Conns.antt =====
-- The operations of src/kcpmux_conn.c: connections only go forward, whatever happens to them.
use kcp_mux.Base.{
  ◌+◌, subst, ℕ, ◌≤◌, ◌<◌, ◌≡◌, refl, sym, ap, arith, true, false, not, ◌||◌, Bool, Option, List,
  inr, u32, ◌==◌,
}
use kcp_mux.Types.{ConnState}
use kcp_mux.Config.{ConnConfig}
use kcp_mux.World.{Host, World, Conn, ConnCallbacks, mod_conn}
use kcp_mux.Conn.{conn_set_state}
use kcp_mux.ConnLife.{
  start_conn, init_conn, conn_new, start_connect, open_conn, send_first_close, close_started,
  begin_close, is_closing, close_conn, conn_set_config, conn_set_callbacks,
}
use kcp_mux.ConnUpdate.{
  update_connecting, update_connected, update_conn_closing, conn_update_state, conn_update,
}
use kcp_mux.Life.Combinators.{knows-Follows, return-Follows, ask-Follows, ask-Follows}
use kcp_mux.Life.Changes.{mod_engine-Follows, rules, change_conn-Follows}
use kcp_mux.Life.Relation.{Rel, Follows}
use kcp_mux.Life.At.{
  next-At, bind-At, quiet-At, At, At-Follows, Follows-At, at_rules, next-At, then-At, quiet-At,
  mod_conn-At,
}
use kcp_mux.Life.Timing.{register_timer_node-Follows, random_u64-Follows}
use kcp_mux.Life.Quiet
use kcp_mux.Life.Maps.{add_conn-Follows}
use kcp_mux.Life.Ends.{conn_close_internal-Follows}
use kcp_mux.Life.Moves.{conn_set_state-At}
use kcp_mux.Life.Fresh.{
  IsNew-pos, null-IsNew, Makes, return-Makes, bind-Makes, then-Makes, if-Makes, option-Makes,
  made-Follows, made-Makes, alloc_address-Makes, new_conn-Follows, discard-Makes,
}
use kcp_mux.Life.Forward.{forward, conn_stage, IsForwardConn}

first_false : (a b : Bool) → (a || b) ≡ false → a ≡ false
first_false a b h = ground arith

module _ {r : Rel} {k : ℕ} where
  start_conn-Makes : (c : ℕ) → k ≤ c → Makes r k (start_conn c)
  unfolding start_conn
  start_conn-Makes c h =
      search (bind-Makes, then-Makes, return-Makes, inr, new_conn-Follows, rules) depth 20

  init_conn-Makes :
      (c : ℕ) (peer_addr : List ℕ) (is_initiator id : ℕ) (config : ConnConfig)
      → k ≤ c
      → Makes r k (init_conn c peer_addr is_initiator id config)
  unfolding init_conn
  init_conn-Makes c peer_addr is_initiator id config h =
      search
        (
          discard-Makes, bind-Makes, then-Makes, if-Makes, option-Makes, return-Makes, null-IsNew,
          new_conn-Follows, rules, start_conn-Makes, random_u64-Follows,
          register_timer_node-Follows,
        )
        depth 20

  pub conn_new-Makes :
      (peer_addr : List ℕ) (config : Option ConnConfig) (is_initiator : ℕ)
      → Makes r k (conn_new peer_addr config is_initiator)
  unfolding conn_new
  conn_new-Makes peer_addr config is_initiator =
      search
        (
          discard-Makes, made-Makes, bind-Makes, then-Makes, if-Makes, option-Makes, return-Makes,
          null-IsNew, rules, alloc_address-Makes, init_conn-Makes, IsNew-pos, first_false,
        )
        depth 20

  start_connect-Follows :
      (c : ℕ) (proto_ext : List ℕ) (callbacks : Option ConnCallbacks) (user_data : ℕ)
      → k ≤ c
      → Follows r k (start_connect c proto_ext callbacks user_data)
  unfolding start_connect
  start_connect-Follows c proto_ext callbacks user_data h =
      search
        (
          new_conn-Follows, rules, add_conn-Follows, Quiet.conn_refresh_timer-Follows,
          Quiet.conn_send_connect-Follows,
        )
        depth 20

  pub open_conn-Follows :
      (peer_addr : List ℕ) (config : Option ConnConfig) (proto_ext : List ℕ)
      (callbacks : Option ConnCallbacks) (user_data : ℕ)
      → Follows r k (open_conn peer_addr config proto_ext callbacks user_data)
  unfolding open_conn
  open_conn-Follows peer_addr config proto_ext callbacks user_data =
      search (made-Follows, knows-Follows, rules, conn_new-Makes, start_connect-Follows, IsNew-pos)
        depth 20

  pub conn_set_config-Follows :
      (c : ℕ) (config : ConnConfig) → Follows r k (conn_set_config c config)
  unfolding conn_set_config
  conn_set_config-Follows c config = search (rules, Quiet.conn_refresh_timer-Follows) depth 20

  pub conn_set_callbacks-Follows :
      (c : ℕ) (callbacks : Option ConnCallbacks) (user_data : ℕ)
      → Follows r k (conn_set_callbacks c callbacks user_data)
  unfolding conn_set_callbacks
  conn_set_callbacks-Follows c callbacks user_data = search rules depth 20

-- A state of a connection that is read, against the one that is written.
before_closing :
    (a b : Conn)
    → a ≡ b
    → not (a.internal_closed || is_closing a.state) ≡ true
    → conn_stage b.state < 3
before_closing a b e h = subst (λ x. conn_stage x.state < 3) e (early a.internal_closed a.state h)
  where
    early : (p : Bool) (s : ConnState) → not (p || is_closing s) ≡ true → conn_stage s < 3
    early p s q = ground arith

-- The count of retries, and the anchors of a close.
close_started-IsForwardConn : (t : ℕ) (x : Conn) → IsForwardConn x (close_started t x)
close_started-IsForwardConn t x = record {
  stage = omega arith;
  final = λ e. refl;
  closed = λ e. e;
  id = refl;
  initiator = refl;
  addr = refl;
}

here_state :
    (c : ℕ) (f : Conn → Conn) (w : World)
    → (f (w.conns c)).state ≡ (w.conns c).state
    → ((mod_conn c f w).1.conns c).state ≡ (w.conns c).state
here_state c f w e = let here : (c == c) ≡ true = ground arith in rw here e

count_retry :
    {k : ℕ} (c : ℕ)
    → Follows forward k (mod_conn c (λ x. record x { retry_count = u32 (x.retry_count + 1) }))
count_retry c =
    change_conn-Follows c (λ x. record x { retry_count = u32 (x.retry_count + 1) })
      (λ x. record {
        stage = omega arith;
        final = λ e. refl;
        closed = λ e. e;
        id = refl;
        initiator = refl;
        addr = refl;
      })

count_retry-At :
    {k : ℕ} {w : World} (c : ℕ)
    → At forward k w (mod_conn c (λ x. record x { retry_count = u32 (x.retry_count + 1) }))
count_retry-At c = Follows-At (count_retry c)

-- The changes of state that kcpmux_conn_update and the handshake make.
module _ {k : ℕ} {w : World} where
  pub connecting_fails :
      (c : ℕ)
      → (c < k → (w.conns c).state ≡ ConnState.connecting)
      → At forward k w (conn_set_state c ConnState.error)
  connecting_fails c e = conn_set_state-At c ConnState.error (λ below. rw (e below) (omega arith))

  pub connecting_connects :
      (c : ℕ)
      → (c < k → (w.conns c).state ≡ ConnState.connecting)
      → At forward k w (conn_set_state c ConnState.connected)
  connecting_connects c e =
      conn_set_state-At c ConnState.connected (λ below. rw (e below) (omega arith))

  connected_fails :
      (c : ℕ)
      → (c < k → (w.conns c).state ≡ ConnState.connected)
      → At forward k w (conn_set_state c ConnState.error)
  connected_fails c e = conn_set_state-At c ConnState.error (λ below. rw (e below) (omega arith))

  connected_closes :
      (c : ℕ)
      → (c < k → (w.conns c).state ≡ ConnState.connected)
      → At forward k w (conn_set_state c ConnState.closing)
  connected_closes c e = conn_set_state-At c ConnState.closing (λ below. rw (e below) (omega arith))

module _ {k : ℕ} where
  send_first_close-Follows : (c : ℕ) → Follows forward k (send_first_close c)
  unfolding send_first_close
  send_first_close-Follows c =
      search (rules, Quiet.conn_send_close-Follows, conn_close_internal-Follows) depth 20

  update_connecting-At :
      {w : World} (c t : ℕ)
      → (c < k → (w.conns c).state ≡ ConnState.connecting)
      → At forward k w (update_connecting c t)
  unfolding update_connecting
  update_connecting-At c t e =
      search
        (
          count_retry, at_rules, connecting_fails, Follows-At, rules,
          Quiet.conn_send_connect-Follows, conn_close_internal-Follows,
        )
        depth 20

  update_connected-At :
      {w : World} (c t : ℕ)
      → (c < k → (w.conns c).state ≡ ConnState.connected)
      → At forward k w (update_connected c t)
  unfolding update_connected
  update_connected-At c t e =
      search
        (
          at_rules, connected_fails, connected_closes, Follows-At, rules,
          Quiet.conn_send_close-Follows, Quiet.conn_send_keepalive-Follows,
          conn_close_internal-Follows,
        )
        depth 20

  update_conn_closing-Follows : (c t : ℕ) → Follows forward k (update_conn_closing c t)
  unfolding update_conn_closing
  update_conn_closing-Follows c t =
      search (count_retry, rules, Quiet.conn_send_close-Follows, conn_close_internal-Follows) depth
        20

  begin_close-At :
      {w : World} (c : ℕ)
      → (c < k → conn_stage (w.conns c).state < 3)
      → At forward k w (begin_close c)
  unfolding begin_close
  begin_close-At {w = w} c h = quiet-At (ask-Follows Host.monotonic_time_ms) (λ v t q.
      next-At (mod_conn-At c (close_started t) (λ below. close_started-IsForwardConn t (v.conns c)))
        (then-At
          (conn_set_state-At c ConnState.closing (λ below.
            rw (here_state c (close_started t) v refl, (q.conns c below).state) (h below)))
          (send_first_close-Follows c)))

  begin_close_read :
      {w : World} (c : ℕ) (a : Conn)
      → a ≡ w.conns c
      → not (a.internal_closed || is_closing a.state) ≡ true
      → At forward k w (begin_close c)
  begin_close_read {w = w} c a e h = begin_close-At c (λ below. before_closing a (w.conns c) e h)

  pub close_conn-Follows : (c : ℕ) → Follows forward k (close_conn c)
  unfolding close_conn
  close_conn-Follows c =
      At-Follows
        (λ w. search (next-At, at_rules, Follows-At, mod_engine-Follows, begin_close_read) depth 20)

  conn_update_state-At :
      {w : World} (state : ConnState) (c t : ℕ)
      → (c < k → (w.conns c).state ≡ state)
      → At forward k w (conn_update_state state c t)
  unfolding conn_update_state
  conn_update_state-At ConnState.connecting c t e = update_connecting-At c t e
  conn_update_state-At ConnState.connected c t e = update_connected-At c t e
  conn_update_state-At ConnState.closing c t e = Follows-At (update_conn_closing-Follows c t)
  conn_update_state-At ConnState.init c t e = Follows-At (return-Follows false)
  conn_update_state-At ConnState.closed c t e = Follows-At (return-Follows false)
  conn_update_state-At ConnState.error c t e = Follows-At (return-Follows false)

  read_conn_state : (c : ℕ) (a b : Conn) → a ≡ b → c < k → b.state ≡ a.state
  read_conn_state c a b e below = ap Conn.state (sym e)

  pub conn_update-Follows : (c t : ℕ) → Follows forward k (conn_update c t)
  unfolding conn_update
  conn_update-Follows c t = At-Follows (λ w.
      search
        (
          at_rules, bind-At, conn_update_state-At, read_conn_state, Follows-At, rules,
          Quiet.conn_refresh_timer-Follows,
        )
        depth 20)
