-- ===== src/Conn.antt =====
-- src/kcpmux_conn.c: a connection's deadline, its timer, its control messages and its state.
pub mod Deadlines
mod Examples
use kcp_mux.Base.{
  ℕ, ◌+◌, ◌==◌, ltb, if◌then◌else◌, Bool, not, ◌&&◌, ◌||◌, Option, none, some, u32, sub64,
}
use kcp_mux.Types.{Ret, err, Status, ConnState, conn_is, int64_max}
use kcp_mux.Timer.{deadline_after}
use kcp_mux.World.{
  M, ◌>>=◌, ◌>>◌, return, when, get_conn, mod_conn, mod_engine, emit, Conn, conn_state_changed,
}
use kcp_mux.World.Stats.{plus}
use kcp_mux.Engine.{now, schedule_timer_node, cancel_timer_node}
use kcp_mux.Send.{
  protocol_send_conn_connect, protocol_send_conn_connect_ack, protocol_send_conn_keepalive,
  protocol_send_conn_close, protocol_send_conn_close_ack,
}

-- `if (candidate < deadline) deadline = candidate`, for a timeout that 0 turns off.
abbrev pub earlier_if : ℕ → ℕ → ℕ → ℕ
earlier_if interval_ms candidate deadline =
    if ltb 0 interval_ms && ltb candidate deadline then candidate else deadline

-- The `switch` of kcpmux_conn_calculate_deadline.
unfoldable pub state_deadline : ConnState → Conn → ℕ
unfolding deadline_after
state_deadline ConnState.connecting c = deadline_after c.last_ctrl_ts c.config.ctrl_timeout_ms
state_deadline ConnState.closing c = deadline_after c.last_ctrl_ts c.config.ctrl_timeout_ms
state_deadline ConnState.connected c =
    earlier_if c.config.idle_timeout_ms (deadline_after c.last_payload_ts c.config.idle_timeout_ms)
      (earlier_if c.config.keepalive_interval_ms
        (deadline_after c.last_keepalive_ts c.config.keepalive_interval_ms)
        (deadline_after c.last_recv_ts c.config.keepalive_timeout_ms))
state_deadline _ c = int64_max

-- `none` is the result 0.
unfoldable pub calculate_deadline : Conn → Option ℕ
unfolding state_deadline
calculate_deadline c =
    let deadline = state_deadline c.state c in
    if c.internal_closed then none else if deadline == int64_max then none else some deadline

-- kcpmux_conn_refresh_timer; the timer node of a connection has the connection's address.
unfoldable pub conn_refresh_timer : ℕ → ℕ → M (Unit {0})
unfolding calculate_deadline schedule_timer_node cancel_timer_node
conn_refresh_timer c now_ms w =
    let conn = w.conns c in
    if conn.internal_closed then (tt, w) else elim (calculate_deadline conn) [
      | none ↦ cancel_timer_node c now_ms w
      | some deadline_ms ↦ (tt, (schedule_timer_node c deadline_ms now_ms w).1)
    ]

unfoldable pub note_receive : ℕ → ℕ → Bool → M (Unit {0})
unfolding conn_refresh_timer
note_receive c recv_time_ms is_payload = do
  conn ← get_conn c
  when (not conn.internal_closed) (do
    mod_conn c (λ x. record x {
      last_recv_ts = if ltb x.last_recv_ts recv_time_ms then recv_time_ms else x.last_recv_ts;
      last_payload_ts =
          if is_payload && ltb x.last_payload_ts recv_time_ms
          then recv_time_ms
          else x.last_payload_ts;
    })
    conn_refresh_timer c recv_time_ms)

-- The handshake time and the count of handshakes, when a connection becomes CONNECTED.
unfoldable pub note_connected : ℕ → M (Unit {0})
unfolding now
note_connected c = do
  t ← now
  mod_conn c
      (λ x. record x { stats = record (x.stats) { handshake_time_ms = sub64 t x.created_ts } })
  mod_engine (λ e. record e {
    stats = record (e.stats) { conn_connected_total = plus e.stats.conn_connected_total 1 };
  })

abbrev pub is_terminal : ConnState → Bool
is_terminal s = conn_is s ConnState.closed || conn_is s ConnState.error

-- What follows the assignment of a new state; `old_state` is the one before.
unfoldable pub enter_state : ℕ → ConnState → ConnState → Bool → M (Unit {0})
unfolding note_connected conn_refresh_timer now
enter_state c old_state new_state notified = do
  when (conn_is new_state ConnState.connected) (note_connected c)
  t ← now
  conn_refresh_timer c t
  when (not (is_terminal new_state) && notified) (emit (conn_state_changed c old_state new_state))

unfoldable pub conn_set_state : ℕ → ConnState → M (Unit {0})
unfolding enter_state
conn_set_state c new_state = do
  conn ← get_conn c
  when (not (conn.internal_closed || conn_is conn.state new_state)) (do
    mod_conn c (λ x. record x { state = new_state })
    enter_state c conn.state new_state conn.callbacks.conn_state_changed)

unfoldable pub conn_send_connect : ℕ → M Ret
unfolding now protocol_send_conn_connect conn_refresh_timer
conn_send_connect c = do
  conn ← get_conn c
  if conn.internal_closed then return (err Status.closed) else (do
    t ← now
    mod_conn c (λ x. record x { last_ctrl_ts = t })
    ret ← protocol_send_conn_connect c
    conn_refresh_timer c t
    return ret)

unfoldable pub conn_send_connect_ack : ℕ → ℕ → M Ret
unfolding protocol_send_conn_connect_ack
conn_send_connect_ack c result = protocol_send_conn_connect_ack c result

unfoldable pub conn_send_keepalive : ℕ → M Ret
unfolding now protocol_send_conn_keepalive conn_refresh_timer
conn_send_keepalive c = do
  conn ← get_conn c
  if conn.internal_closed then return (err Status.closed) else (do
    t ← now
    mod_conn c (λ x. record x { last_keepalive_ts = t; keepalive_seq = u32 (x.keepalive_seq + 1) })
    ret ← protocol_send_conn_keepalive c
    conn_refresh_timer c t
    return ret)

unfoldable pub conn_send_close : ℕ → ℕ → M Ret
unfolding now protocol_send_conn_close conn_refresh_timer
conn_send_close c reason = do
  conn ← get_conn c
  if conn.internal_closed then return (err Status.closed) else (do
    t ← now
    mod_conn c (λ x. record x { last_ctrl_ts = t })
    ret ← protocol_send_conn_close c reason
    conn_refresh_timer c t
    return ret)

unfoldable pub conn_send_close_ack : ℕ → ℕ → M Ret
unfolding protocol_send_conn_close_ack
conn_send_close_ack c reason = protocol_send_conn_close_ack c reason
