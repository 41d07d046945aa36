-- ===== src/Stream.antt =====
-- src/kcpmux_stream.c: a stream's deadline, its pending batch, its state and its end.
pub mod Closing
mod Examples
use kcp_mux.Base.{
  ℕ, ◌+◌, ◌==◌, ltb, leb, if◌then◌else◌, Bool, true, false, not, ◌&&◌, ◌||◌, Option, none, some,
  List, [], ◌∷◌, ◌++◌, u32, length, remove, ◌^◌,
}
use kcp_mux.Types.{
  Ret, err, Status, is_ok, StreamState, ClosePhase, ConnState, conn_is, stream_is, phase_is,
}
use kcp_mux.Timer.{deadline_after}
use kcp_mux.World.{
  from_option, M, ◌>>=◌, ◌>>◌, return, skip, when, gets, ask, Host, get_conn, get_stream,
  mod_stream, mod_engine, emit, Stream, stream_free, kcp_updated, kcp_released,
  stream_state_changed, stream_close_notify,
}
use kcp_mux.World.Stats.{plus}
use kcp_mux.Engine.{
  now, schedule_timer_node, cancel_timer_node, unregister_timer_node, queue_release,
}
use kcp_mux.Route.{remove_stream}
use kcp_mux.Send.{
  protocol_send_stream_close, protocol_send_stream_close_ack, protocol_send_stream_payload,
}

unfoldable pub mark_read_blocked : ℕ → ℕ → M (Unit {0})
mark_read_blocked s t = do
  stream ← get_stream s
  when (not stream.read_blocked) (
      mod_stream s (λ x. record x {
        read_block_start_ts = t;
        read_blocked = true;
        stats = record (x.stats) { read_block_count = plus x.stats.read_block_count 1 };
      }))

unfoldable pub earlier_deadline : ℕ → ℕ → ℕ
earlier_deadline first second = if ltb first second then first else second

unfoldable pub kcp_active : Stream → Bool
kcp_active stream =
    stream_is stream.state StreamState.open_state
    || (stream_is stream.state StreamState.closing
        && phase_is stream.close_phase ClosePhase.local_drain)

-- An entry that is in no list is not in this one either, so the test of the link is left to
-- `remove`.
unfoldable pub clear_pending : ℕ → M (Unit {0})
clear_pending s = do
  mod_stream s (λ x. record x { pending_count = 0 })
  mod_engine (λ e. record e { pending_batch_streams = remove e.pending_batch_streams s })

unfoldable pub schedule_finalize : ℕ → ℕ → ℕ → M (Unit {0})
unfolding clear_pending schedule_timer_node
schedule_finalize s reason t = do
  mod_stream s (λ x. record x { close_reason = reason; close_phase = ClosePhase.finalize })
  clear_pending s
  _ ← schedule_timer_node s t t
  skip

unfoldable pub accumulate_update : ℕ → ℕ → M (Unit {0})
unfolding schedule_timer_node
accumulate_update s now_ms = do
  stream ← get_stream s
  let threshold = stream.config.batch_threshold
  let wake : M (Unit {0}) = do _ ← schedule_timer_node s now_ms now_ms; skip
  if leb threshold 1 then wake else if leb threshold stream.pending_count then skip else (do
    when (stream.pending_count == 0)
        (mod_engine (λ e. record e { pending_batch_streams = e.pending_batch_streams ++ (s ∷ []) }))
    mod_stream s (λ x. record x { pending_count = u32 (x.pending_count + 1) })
    when (u32 (stream.pending_count + 1) == threshold) (do
      mod_engine (λ e. record e { pending_batch_streams = remove e.pending_batch_streams s })
      wake))

-- `__kcp_output`: a packet of the stream's KCP instance goes out while data may flow.
unfoldable pub kcp_output : ℕ → List ℕ → M (Unit {0})
unfolding kcp_active protocol_send_stream_payload
kcp_output s packet = do
  stream ← get_stream s
  conn ← get_conn stream.conn
  if stream.internal_closed
        || (not (kcp_active stream)
            || (conn.internal_closed || not (conn_is conn.state ConnState.connected)))
      then skip
      else (do
        ret ← protocol_send_stream_payload s packet
        when (is_ok ret) (
            mod_stream s (λ x. record x {
              stats = record (x.stats) {
                tx_packets = plus x.stats.tx_packets 1;
                tx_bytes = plus x.stats.tx_bytes (length packet);
              };
            })))

unfoldable pub kcp_outputs : ℕ → List (List ℕ) → M (Unit {0})
unfolding kcp_output
kcp_outputs s [] w = (tt, w)
kcp_outputs s (packet ∷ rest) w = kcp_outputs s rest (kcp_output s packet w).1

-- `ops->update`, with the packets that it hands to the output callback.
unfoldable pub kcp_update : ℕ → ℕ → M (Unit {0})
unfolding kcp_outputs
kcp_update s t = do emit (kcp_updated s t); packets ← ask Host.kcp_output; kcp_outputs s packets

-- The `switch` of kcpmux_stream_refresh_timer on the close phase; `none` cancels the timer.
unfoldable pub closing_deadline : ClosePhase → Stream → ℕ → M (Option ℕ)
unfolding earlier_deadline deadline_after
closing_deadline ClosePhase.local_drain x t = do
  check ← ask Host.kcp_check
  return
      (some (earlier_deadline check (deadline_after x.drain_started_ts x.config.drain_timeout_ms)))
closing_deadline ClosePhase.wait_ack x t =
    return (some (deadline_after x.last_ctrl_ts x.config.ctrl_timeout_ms))
closing_deadline ClosePhase.remote_drain x t =
    return (some (deadline_after x.drain_started_ts x.config.drain_timeout_ms))
closing_deadline ClosePhase.finalize x t = return (some t)
closing_deadline ClosePhase.none x t = return none

unfoldable pub stream_deadline : StreamState → Stream → ℕ → M (Option ℕ)
unfolding closing_deadline
stream_deadline StreamState.open_state x t = do check ← ask Host.kcp_check; return (some check)
stream_deadline StreamState.closing x t = closing_deadline x.close_phase x t
stream_deadline _ x t = return none

-- kcpmux_stream_refresh_timer; the timer node of a stream has the stream's address.
unfoldable pub stream_refresh_timer : ℕ → ℕ → M (Unit {0})
unfolding stream_deadline schedule_timer_node cancel_timer_node
stream_refresh_timer s t = do
  stream ← get_stream s
  conn ← get_conn stream.conn
  owned ← gets (λ w. (w.timers.nodes s).owner)
  if not owned
      then skip
      else if stream.internal_closed
          || (conn.internal_closed || not (conn_is conn.state ConnState.connected))
      then cancel_timer_node s t
      else (do
        deadline ← stream_deadline stream.state stream t
        from_option deadline (cancel_timer_node s t)
            (λ deadline_ms. do _ ← schedule_timer_node s deadline_ms t; skip))

-- kcpmux_stream_close_internal
-- The last part of kcpmux_stream_close_internal, once the stream left its connection; `stream` is
-- what it was before.
unfoldable pub end_stream : ℕ → ℕ → Stream → M (Unit {0})
unfolding queue_release
end_stream s reason stream = do
  mod_engine (λ e. record e {
    stats = record (e.stats) { stream_closed_total = plus e.stats.stream_closed_total 1 };
  })
  when stream.kcp (emit (kcp_released s))
  mod_stream s (λ x. record x {
    kcp = false;
    state = if stream_is x.state StreamState.error then x.state else StreamState.closed;
  })
  when stream.callbacks.stream_close_notify (emit (stream_close_notify s reason))
  queue_release (stream_free s)

unfoldable pub stream_close_internal : ℕ → ℕ → M (Unit {0})
unfolding clear_pending unregister_timer_node remove_stream end_stream
stream_close_internal s reason = do
  stream ← get_stream s
  when (not stream.internal_closed) (do
    mod_stream s (λ x. record x { internal_closed = true })
    clear_pending s
    unregister_timer_node s
    remove_stream stream.conn s
    end_stream s reason stream)

-- What follows the assignment of a new state; `old_state` is the one before.
unfoldable pub enter_stream_state : ℕ → StreamState → StreamState → Bool → M (Unit {0})
unfolding now stream_refresh_timer
enter_stream_state s old_state new_state notified = do
  t ← now
  stream_refresh_timer s t
  when
      (not (stream_is new_state StreamState.closed || stream_is new_state StreamState.error)
        && notified)
      (emit (stream_state_changed s old_state new_state))

unfoldable pub stream_set_state : ℕ → StreamState → M (Unit {0})
unfolding enter_stream_state
stream_set_state s new_state = do
  stream ← get_stream s
  when (not (stream_is stream.state new_state)) (do
    mod_stream s (λ x. record x { state = new_state })
    enter_stream_state s stream.state new_state stream.callbacks.stream_state_changed)

unfoldable pub stream_send_close : ℕ → ℕ → M Ret
unfolding now protocol_send_stream_close stream_refresh_timer
stream_send_close s reason = do
  stream ← get_stream s
  if stream.internal_closed then return (err Status.closed) else (do
    t ← now
    mod_stream s (λ x. record x { last_ctrl_ts = t })
    ret ← protocol_send_stream_close s reason
    stream_refresh_timer s t
    return ret)

unfoldable pub stream_send_close_ack : ℕ → ℕ → M Ret
unfolding protocol_send_stream_close_ack
stream_send_close_ack s reason = protocol_send_stream_close_ack s reason

-- `waitsnd < (int)threshold`, where the cast makes 2 ^ 31 and above negative.
unfoldable pub below_int : ℕ → ℕ → Bool
below_int waitsnd threshold = ltb threshold (2 ^ 31) && ltb waitsnd threshold

-- The close message of a stream whose data is sent.
unfoldable pub send_drained : ℕ → ℕ → M (Unit {0})
unfolding stream_send_close stream_close_internal
send_drained s close_retries = do
  _ ← stream_send_close s 0
  when (close_retries == 0) (stream_close_internal s 0)

unfoldable pub advance_local_close : ℕ → M (Unit {0})
unfolding send_drained
advance_local_close s = do
  stream ← get_stream s
  when (not stream.internal_closed && phase_is stream.close_phase ClosePhase.local_drain) (do
    waitsnd ← ask Host.kcp_waitsnd
    when (waitsnd == 0) (do
      mod_stream s (λ x. record x { close_phase = ClosePhase.wait_ack; retry_count = 0 })
      send_drained s stream.config.close_retries))
