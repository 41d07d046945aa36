-- ===== src/StreamPeer.antt =====
-- src/kcpmux_stream.c: what the messages of the peer do to a stream.
use kcp_mux.Base.{ℕ, ◌==◌, ltb, if◌then◌else◌, false, not, ◌&&◌, List, length, sub64}
use kcp_mux.Types.{Ret, ok, err, Status, StreamState, ClosePhase, stream_is, reason_normal}
use kcp_mux.World.{
  from_kcp, M, ◌>>=◌, ◌>>◌, return, when, ask, Host, get_stream, mod_stream, emit, Stream,
  kcp_received, kcp_current_updated, stream_read_notify,
}
use kcp_mux.World.Stats.{plus}
use kcp_mux.Engine.{now}
use kcp_mux.Stream.{
  schedule_finalize, accumulate_update, kcp_active, stream_set_state, stream_close_internal,
  stream_send_close_ack,
}
use kcp_mux.Transfer.{readable}

-- The stream was blocked and something is readable now.
unfoldable pub resume_reads : ℕ → ℕ → M (Unit {0})
resume_reads s recv_time_ms = do
  stream ← get_stream s
  when (stream_is stream.state StreamState.open_state && stream.read_blocked) (do
    peeksize ← ask Host.kcp_peeksize
    when (ltb 0 (readable peeksize)) (do
      let waited = sub64 recv_time_ms stream.read_block_start_ts
      mod_stream s (λ x. record x {
        stats =
            if ltb 0 x.read_block_start_ts
            then record (x.stats) {
              ttfb_time_ms = if x.stats.read_block_count == 1 then waited else x.stats.ttfb_time_ms;
              read_block_time_ms = plus x.stats.read_block_time_ms waited;
            }
            else x.stats;
        read_block_start_ts = 0;
        read_blocked = false;
      })
      when stream.callbacks.stream_read_notify (emit (stream_read_notify s))))

unfoldable pub handle_payload : ℕ → List ℕ → ℕ → M Ret
unfolding kcp_active
handle_payload s buf recv_time_ms = do
  stream ← get_stream s
  if length buf == 0
      then return (err Status.invalid_param)
      else if stream.internal_closed
      then return (err Status.closed)
      else if not (kcp_active stream)
      then return (err Status.state)
      else (do
        mod_stream s (λ x. record x {
          stats = record (x.stats) {
            rx_packets = plus x.stats.rx_packets 1;
            rx_bytes = plus x.stats.rx_bytes (length buf);
          };
        })
        emit (kcp_current_updated s recv_time_ms)
        emit (kcp_received s buf)
        ret ← ask Host.kcp_input
        accumulate_update s recv_time_ms
        from_kcp ret (λ n. return (err (Status.kcp_ret n)))
            (λ n. do resume_reads s recv_time_ms; return (ok 0)))

-- A normal close by the peer, in each close phase of a closing stream.
unfoldable pub peer_close_closing : ClosePhase → ℕ → ℕ → ℕ → M Ret
unfolding stream_send_close_ack schedule_finalize
peer_close_closing ClosePhase.local_drain s reason t = do
  _ ← stream_send_close_ack s reason
  schedule_finalize s reason_normal t
  return (ok 0)
peer_close_closing ClosePhase.wait_ack s reason t = do
  _ ← stream_send_close_ack s reason
  schedule_finalize s reason_normal t
  return (ok 0)
peer_close_closing ClosePhase.remote_drain s reason t = do
  _ ← stream_send_close_ack s reason
  return (ok 0)
peer_close_closing ClosePhase.finalize s reason t = do
  _ ← stream_send_close_ack s reason
  return (ok 0)
peer_close_closing ClosePhase.none s reason t = return (err Status.state)

-- The stream at the start of a close by the peer.
abbrev pub remotely_closed : ℕ → ℕ → Stream → Stream
remotely_closed reason t x = record x {
  close_reason = reason;
  close_phase = ClosePhase.remote_drain;
  drain_started_ts = t;
}

-- Without anything to read the stream is finalized.
unfoldable pub finalize_read : ℕ → ℕ → ℕ → M Ret
unfolding schedule_finalize
finalize_read s reason t = do
  peeksize ← ask Host.kcp_peeksize
  when (readable peeksize == 0) (schedule_finalize s reason t)
  return (ok 0)

unfoldable pub peer_close_open : ℕ → ℕ → ℕ → M Ret
unfolding stream_send_close_ack stream_set_state finalize_read
peer_close_open s reason t = do
  _ ← stream_send_close_ack s reason
  mod_stream s (remotely_closed reason t)
  stream_set_state s StreamState.closing
  finalize_read s reason t

unfoldable pub peer_close_normal : StreamState → ℕ → ℕ → M Ret
unfolding now peer_close_closing peer_close_open
peer_close_normal StreamState.closing s reason = do
  t ← now
  stream ← get_stream s
  peer_close_closing stream.close_phase s reason t
peer_close_normal StreamState.open_state s reason = do t ← now; peer_close_open s reason t
peer_close_normal _ s reason = do _ ← now; return (err Status.state)

-- kcpmux_stream_handle_close
unfoldable pub handle_close : ℕ → ℕ → M Ret
unfolding stream_send_close_ack stream_close_internal peer_close_normal
handle_close s reason = do
  stream ← get_stream s
  if stream.internal_closed
      then return (err Status.closed)
      else if not (reason == reason_normal)
      then (do _ ← stream_send_close_ack s reason; stream_close_internal s reason; return (ok 0))
      else peer_close_normal stream.state s reason
