-- ===== src/ConnUpdate.antt =====
-- src/kcpmux_conn.c: kcpmux_conn_update.
use kcp_mux.Base.{
  ℕ, ◌+◌, ◌==◌, ltb, leb, if◌then◌else◌, Bool, true, false, not, ◌&&◌, Option, none, some, u32,
}
use kcp_mux.Types.{ConnState, reason_idle, reason_timeout}
use kcp_mux.Timer.{deadline_after}
use kcp_mux.World.{M, ◌>>=◌, ◌>>◌, return, when, get_conn, mod_conn, mod_engine}
use kcp_mux.World.Stats.{plus}
use kcp_mux.Conn.{
  calculate_deadline, conn_refresh_timer, conn_set_state, conn_send_connect, conn_send_keepalive,
  conn_send_close,
}
use kcp_mux.ConnLife.{conn_close_internal}

-- A branch of kcpmux_conn_update says whether it left through `return`.
unfoldable pub update_connecting : ℕ → ℕ → M Bool
unfolding deadline_after conn_send_connect conn_set_state conn_close_internal
update_connecting c t = do
  conn ← get_conn c
  if not (leb (deadline_after conn.last_ctrl_ts conn.config.ctrl_timeout_ms) t)
      then return false
      else if ltb conn.retry_count conn.config.connect_retries
      then (do
        mod_conn c (λ x. record x { retry_count = u32 (x.retry_count + 1) })
        _ ← conn_send_connect c
        return false)
      else (do conn_set_state c ConnState.error; conn_close_internal c reason_timeout; return true)

-- The keepalive timeout comes before the idle timeout, and both before the next keepalive.
unfoldable pub update_connected : ℕ → ℕ → M Bool
unfolding deadline_after conn_set_state conn_close_internal conn_send_close conn_send_keepalive
update_connected c t = do
  conn ← get_conn c
  if leb (deadline_after conn.last_recv_ts conn.config.keepalive_timeout_ms) t
      then (do
        conn_set_state c ConnState.error
        mod_engine (λ e. record e {
          stats = record (e.stats) {
            conn_keepalive_timeout_total = plus e.stats.conn_keepalive_timeout_total 1;
          };
        })
        conn_close_internal c reason_timeout
        return true)
      else if ltb 0 conn.config.idle_timeout_ms
          && leb (deadline_after conn.last_payload_ts conn.config.idle_timeout_ms) t
      then (do
        conn_set_state c ConnState.closing
        _ ← conn_send_close c reason_idle
        mod_engine (λ e. record e {
          stats = record (e.stats) {
            conn_idle_timeout_total = plus e.stats.conn_idle_timeout_total 1;
          };
        })
        conn_close_internal c reason_idle
        return true)
      else if ltb 0 conn.config.keepalive_interval_ms
          && leb (deadline_after conn.last_keepalive_ts conn.config.keepalive_interval_ms) t
      then (do _ ← conn_send_keepalive c; return false)
      else return false

unfoldable pub update_conn_closing : ℕ → ℕ → M Bool
unfolding deadline_after conn_send_close conn_close_internal
update_conn_closing c t = do
  conn ← get_conn c
  if not (leb (deadline_after conn.last_ctrl_ts conn.config.ctrl_timeout_ms) t)
      then return false
      else if ltb conn.retry_count conn.config.close_retries
      then (do
        mod_conn c (λ x. record x { retry_count = u32 (x.retry_count + 1) })
        _ ← conn_send_close c conn.close_reason
        if u32 (conn.retry_count + 1) == conn.config.close_retries
            then (do conn_close_internal c conn.close_reason; return true)
            else return false)
      else (do conn_close_internal c conn.close_reason; return true)

unfoldable pub conn_update_state : ConnState → ℕ → ℕ → M Bool
unfolding update_connecting update_connected update_conn_closing
conn_update_state ConnState.connecting c t = update_connecting c t
conn_update_state ConnState.connected c t = update_connected c t
conn_update_state ConnState.closing c t = update_conn_closing c t
conn_update_state _ c t = return false

-- Whether kcpmux_conn_calculate_deadline gives a deadline that has come.
abbrev pub is_due : Option ℕ → ℕ → Bool
is_due none t = false
is_due (some deadline_ms) t = leb deadline_ms t

-- kcpmux_conn_update, the timer callback of a connection.
unfoldable pub conn_update : ℕ → ℕ → M (Unit {0})
conn_update c t = do
  conn ← get_conn c
  when (not conn.internal_closed) (
      if not (is_due (calculate_deadline conn) t) then conn_refresh_timer c t else (do
        returned ← conn_update_state conn.state c t
        when (not returned) (conn_refresh_timer c t)))
