-- ===== src/StreamMessages.antt =====
-- src/kcpmux_protocol.c: the messages of a stream in kcpmux_protocol_input.
use kcp_mux.Base.{
  ℕ, ◌%◌, ◌==◌, ltb, if◌then◌else◌, Bool, true, false, not, ◌&&◌, ◌||◌, none, some, List, length,
  get_or, drop,
}
use kcp_mux.Types.{
  Ret, ok, err, Status, is_ok, ConnState, StreamState, ClosePhase, conn_is, stream_is, phase_is,
  reason_error, reason_rejected,
}
use kcp_mux.Config.{stream_header_len}
use kcp_mux.Wire.{read_u32, common_len, stream_close_len}
use kcp_mux.World.{
  from_option, M, ◌>>=◌, ◌>>◌, return, skip, when, gets, ask, Host, get_conn, get_stream, mod_conn,
  mod_stream, emit, Stream, stream_create_notify,
}
use kcp_mux.Route.{add_stream, get_stream_by_id, is_new_peer_stream_id}
use kcp_mux.Conn.{note_receive}
use kcp_mux.Stream.{stream_set_state, stream_close_internal, stream_send_close}
use kcp_mux.StreamLife.{stream_new, stream_set_config, stream_set_callbacks, no_stream_callbacks}
use kcp_mux.StreamPeer.{handle_payload, handle_close}

unfoldable pub input_stream_close : ℕ → List ℕ → ℕ → M Ret
unfolding read_u32 get_stream_by_id note_receive handle_close
input_stream_close c buf recv_time_ms =
    let stream_id = read_u32 (drop common_len buf) in
    let reason = get_or buf stream_header_len 0 in
    if ltb (length buf) stream_close_len || stream_id == 0
    then return (err Status.invalid_format)
    else (do
      s ← gets (λ w. get_stream_by_id w c stream_id)
      if s == 0
          then return (err Status.not_found)
          else (do note_receive c recv_time_ms false; handle_close s reason))

abbrev pub waits_for_ack : Stream → Bool
waits_for_ack x =
    stream_is x.state StreamState.closing && phase_is x.close_phase ClosePhase.wait_ack

unfoldable pub input_stream_close_ack : ℕ → List ℕ → ℕ → M Ret
unfolding read_u32 get_stream_by_id note_receive stream_close_internal
input_stream_close_ack c buf recv_time_ms =
    let stream_id = read_u32 (drop common_len buf) in
    if ltb (length buf) stream_close_len || stream_id == 0
    then return (err Status.invalid_format)
    else (do
      s ← gets (λ w. get_stream_by_id w c stream_id)
      stream ← get_stream s
      if s == 0 || not (waits_for_ack stream) then return (err Status.state) else (do
        note_receive c recv_time_ms false
        stream_close_internal s stream.close_reason
        return (ok 0)))

-- The host refused a remote stream: its end of the stream closes with REJECTED.
unfoldable pub reject_stream : ℕ → ℕ → M (Unit {0})
unfolding stream_set_state stream_send_close stream_close_internal
reject_stream s recv_time_ms = do
  mod_stream s (λ x. record x {
    callbacks = no_stream_callbacks;
    user_data = 0;
    close_reason = reason_rejected;
    close_phase = ClosePhase.wait_ack;
    retry_count = 0;
    last_ctrl_ts = recv_time_ms;
  })
  stream_set_state s StreamState.closing
  _ ← stream_send_close s reason_rejected
  stream ← get_stream s
  when (stream.config.close_retries == 0) (stream_close_internal s reason_rejected)

-- The first payload of an accepted remote stream.
unfoldable pub first_payload : ℕ → ℕ → List ℕ → ℕ → M Ret
unfolding handle_payload stream_set_state stream_close_internal note_receive
first_payload c s payload recv_time_ms = do
  ret ← handle_payload s payload recv_time_ms
  if is_ok ret
      then note_receive c recv_time_ms true
      else (do stream_set_state s StreamState.error; stream_close_internal s reason_error)
  return ret

-- `stream_create_notify` with what the host does in it.
unfoldable pub notify_create : ℕ → M ℕ
unfolding stream_set_config stream_set_callbacks
notify_create s = do
  emit (stream_create_notify s)
  reply ← ask Host.create_reply
  from_option reply.config skip (λ config. stream_set_config s config)
  from_option reply.callbacks skip (λ given. stream_set_callbacks s (some given.0) given.1)
  return reply.accepted

unfoldable pub create_peer_stream : ℕ → ℕ → List ℕ → ℕ → M Ret
unfolding stream_new add_stream notify_create reject_stream first_payload
create_peer_stream c stream_id payload recv_time_ms = do
  s ← stream_new c stream_id none false
  if s == 0 then return (err Status.oom) else (do
    add_stream c s
    mod_conn c
        (λ x. record x { latest_peer_stream_id = stream_id; peer_stream_id_initialized = true })
    accepted ← notify_create s
    if accepted == 0
        then first_payload c s payload recv_time_ms
        else (do reject_stream s recv_time_ms; return (ok 0)))

-- A payload for a stream that is not in the map.
unfoldable pub unknown_stream : ℕ → ℕ → List ℕ → ℕ → M Ret
unfolding is_new_peer_stream_id create_peer_stream
unknown_stream c stream_id payload recv_time_ms = do
  conn ← get_conn c
  if stream_id % 2 == conn.is_initiator
      then return (err Status.invalid_format)
      else if not (is_new_peer_stream_id conn stream_id) || not conn.callbacks.stream_create_notify
      then return (err Status.not_found)
      else create_peer_stream c stream_id payload recv_time_ms

unfoldable pub input_stream_payload : ℕ → List ℕ → ℕ → M Ret
unfolding read_u32 get_stream_by_id unknown_stream handle_payload note_receive
input_stream_payload c buf recv_time_ms = do
  conn ← get_conn c
  let stream_id = read_u32 (drop common_len buf)
  let payload = drop stream_header_len buf
  if not (conn_is conn.state ConnState.connected)
      then return (err Status.state)
      else if ltb (length buf) stream_header_len || stream_id == 0
      then return (err Status.invalid_format)
      else (do
        s ← gets (λ w. get_stream_by_id w c stream_id)
        if s == 0 then unknown_stream c stream_id payload recv_time_ms else (do
          ret ← handle_payload s payload recv_time_ms
          when (is_ok ret) (note_receive c recv_time_ms true)
          return ret))
