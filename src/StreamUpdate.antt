-- ===== src/StreamUpdate.antt =====
-- src/kcpmux_stream.c: kcpmux_stream_update.
use kcp_mux.Base.{ℕ, ◌+◌, ◌==◌, ltb, leb, if◌then◌else◌, false, not, ◌||◌, u32, sub64}
use kcp_mux.Types.{StreamState, ClosePhase, ConnState, conn_is, reason_timeout}
use kcp_mux.Timer.{deadline_after}
use kcp_mux.World.{
  M, ◌>>=◌, ◌>>◌, skip, when, ask, Host, get_conn, get_stream, mod_stream, emit,
  stream_write_notify,
}
use kcp_mux.World.Stats.{plus}
use kcp_mux.Engine.{schedule_timer_node, cancel_timer_node}
use kcp_mux.Stream.{
  clear_pending, kcp_update, stream_refresh_timer, stream_close_internal, stream_send_close,
  advance_local_close, below_int,
}

-- The stream was blocked and fewer segments than the threshold wait now.
unfoldable pub resume_writes : ℕ → ℕ → M (Unit {0})
unfolding below_int
resume_writes s t = do
  stream ← get_stream s
  when stream.write_blocked (do
    waitsnd ← ask Host.kcp_waitsnd
    when (below_int waitsnd stream.config.send_resume_threshold) (do
      mod_stream s (λ x. record x {
        stats =
            if ltb 0 x.write_block_start_ts
            then record (x.stats) {
              write_block_time_ms =
                  plus x.stats.write_block_time_ms (sub64 t x.write_block_start_ts);
            }
            else x.stats;
        write_block_start_ts = 0;
        write_blocked = false;
      })
      when stream.callbacks.stream_write_notify (emit (stream_write_notify s))))

unfoldable pub update_open : ℕ → ℕ → M (Unit {0})
unfolding clear_pending kcp_update resume_writes schedule_timer_node
update_open s t = do
  clear_pending s
  kcp_update s t
  resume_writes s t
  deadline_ms ← ask Host.kcp_check
  _ ← schedule_timer_node s deadline_ms t
  skip

-- The close phases of kcpmux_stream_update.
unfoldable pub update_closing : ClosePhase → ℕ → ℕ → M (Unit {0})
unfolding clear_pending kcp_update advance_local_close deadline_after stream_send_close
    stream_close_internal stream_refresh_timer
update_closing ClosePhase.local_drain s t = do
  clear_pending s
  kcp_update s t
  waitsnd ← ask Host.kcp_waitsnd
  stream ← get_stream s
  if waitsnd == 0
      then advance_local_close s
      else if leb (deadline_after stream.drain_started_ts stream.config.drain_timeout_ms) t
      then (do
        mod_stream s (λ x. record x { close_reason = reason_timeout })
        _ ← stream_send_close s reason_timeout
        stream_close_internal s reason_timeout)
      else stream_refresh_timer s t
update_closing ClosePhase.wait_ack s t = do
  stream ← get_stream s
  when (leb (deadline_after stream.last_ctrl_ts stream.config.ctrl_timeout_ms) t) (
      if ltb stream.retry_count stream.config.close_retries
      then (do
        mod_stream s (λ x. record x { retry_count = u32 (x.retry_count + 1) })
        _ ← stream_send_close s stream.close_reason
        when (u32 (stream.retry_count + 1) == stream.config.close_retries)
            (stream_close_internal s stream.close_reason))
      else stream_close_internal s stream.close_reason)
update_closing ClosePhase.remote_drain s t = do
  stream ← get_stream s
  when (leb (deadline_after stream.drain_started_ts stream.config.drain_timeout_ms) t)
      (stream_close_internal s reason_timeout)
update_closing ClosePhase.finalize s t = do
  stream ← get_stream s
  stream_close_internal s stream.close_reason
update_closing ClosePhase.none s t = skip

unfoldable pub update_by_state : StreamState → ℕ → ℕ → M (Unit {0})
unfolding update_open update_closing cancel_timer_node
update_by_state StreamState.open_state s t = update_open s t
update_by_state StreamState.closing s t = do
  stream ← get_stream s
  update_closing stream.close_phase s t
update_by_state _ s t = cancel_timer_node s t

-- kcpmux_stream_update, the timer callback of a stream.
unfoldable pub stream_update : ℕ → ℕ → M (Unit {0})
unfolding update_by_state
stream_update s t = do
  stream ← get_stream s
  conn ← get_conn stream.conn
  when
      (not (
        stream.internal_closed
        || (conn.internal_closed || not (conn_is conn.state ConnState.connected))))
      (update_by_state stream.state s t)
