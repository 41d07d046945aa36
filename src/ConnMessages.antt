-- ===== src/ConnMessages.antt =====
-- src/kcpmux_protocol.c: the messages of a connection in kcpmux_protocol_input. `buf + n` is
-- `drop n buf`, and each case reads a field only after the test of the packet's size.
use kcp_mux.Base.{
  ℕ, ◌+◌, ◌==◌, ltb, if◌then◌else◌, false, not, ◌&&◌, ◌||◌, none, some, List, [], length, get_or,
  take, drop, u8,
}
use kcp_mux.Types.{
  Ret, ok, err, Status, ConnState, conn_is, version, proto_ext_max_len, ack_ok, ack_error,
  ack_version, reason_version, reason_rejected,
}
use kcp_mux.Wire.{
  read_u16, read_u64, common_len, connect_len, connect_ack_len, keepalive_len, conn_close_len,
}
use kcp_mux.World.{
  from_option, M, ◌>>=◌, ◌>>◌, return, skip, when, gets, ask, Host, get_conn, get_engine, mod_conn,
  mod_engine, emit, conn_connect_notify,
}
use kcp_mux.World.Stats.{plus}
use kcp_mux.Route.{add_conn, get_passive_conn}
use kcp_mux.Conn.{note_receive, conn_set_state, conn_send_connect_ack, conn_send_close_ack}
use kcp_mux.ConnLife.{
  conn_new, conn_close_internal, conn_set_config, conn_set_callbacks, no_conn_callbacks,
}

unfoldable pub count_received : ℕ → ℕ → M (Unit {0})
count_received c size = mod_conn c (λ x. record x {
  stats = record (x.stats) {
    rx_packets = plus x.stats.rx_packets 1;
    rx_bytes = plus x.stats.rx_bytes size;
  };
})

abbrev pub count_rejected : M (Unit {0})
count_rejected = mod_engine (λ e. record e {
  stats = record (e.stats) { conn_rejected_total = plus e.stats.conn_rejected_total 1 };
})

-- `conn_connect_notify` with what the host does in it; without it the result is an error.
unfoldable pub notify_connect : ℕ → M ℕ
unfolding conn_set_config conn_set_callbacks
notify_connect c = do
  engine ← get_engine
  if not engine.conn_connect_notify then return ack_error else (do
    emit (conn_connect_notify c)
    reply ← ask Host.connect_reply
    mod_conn c (λ x. record x { self_proto_ext = reply.resp_proto_ext })
    from_option reply.config skip (λ config. conn_set_config c config)
    from_option reply.callbacks skip (λ given. conn_set_callbacks c (some given.0) given.1)
    return reply.result)

-- The answer to a new remote connection, given the result of the host.
unfoldable pub answer_connect : ℕ → ℕ → M (Unit {0})
unfolding conn_set_state conn_send_connect_ack conn_close_internal
answer_connect c notified = do
  conn ← get_conn c
  let result =
      if notified == ack_ok && ltb proto_ext_max_len (length conn.self_proto_ext)
      then ack_error
      else notified
  if result == ack_ok
      then (do conn_set_state c ConnState.connected; _ ← conn_send_connect_ack c ack_ok; skip)
      else (do
        mod_conn c (λ x. record x { self_proto_ext = [] })
        count_rejected
        _ ← conn_send_connect_ack c (u8 result)
        mod_conn c (λ x. record x { callbacks = no_conn_callbacks; user_data = 0 })
        conn_close_internal c reason_rejected)

-- A CONNECT of an unknown initiator creates a passive connection.
unfoldable pub accept_connect : List ℕ → ℕ → List ℕ → ℕ → M Ret
unfolding conn_new note_receive add_conn
accept_connect peer_addr source_id ext recv_time_ms = do
  c ← conn_new peer_addr none 0
  if c == 0 then return (err Status.oom) else (do
    mod_conn c (λ x. record x { peer_connection_id = source_id; peer_proto_ext = ext })
    note_receive c recv_time_ms false
    add_conn c
    mod_conn c (λ x. record x { self_proto_ext = [] })
    result ← notify_connect c
    answer_connect c result
    return (ok 0))

-- A CONNECT of a known initiator is a retransmission.
unfoldable pub repeat_connect : ℕ → ℕ → ℕ → M Ret
unfolding count_received note_receive conn_send_connect_ack
repeat_connect c size recv_time_ms = do
  conn ← get_conn c
  if not (conn_is conn.state ConnState.connected) then return (err Status.state) else (do
    count_received c size
    note_receive c recv_time_ms false
    _ ← conn_send_connect_ack c ack_ok
    return (ok 0))

-- A CONNECT with a sender and a version, by the connection that its sender has already.
unfoldable pub connect_found : List ℕ → List ℕ → ℕ → ℕ → ℕ → M Ret
unfolding read_u16
connect_found buf peer_addr recv_time_ms source_id c =
    let peer_version = get_or buf (common_len + 8) 0 in
    let ext_len = read_u16 (drop (common_len + 9) buf) in
    if not (peer_version == version)
    then (do
      when (not (c == 0)) (do _ ← conn_send_connect_ack c ack_version; skip)
      return (err Status.nok))
    else if c == 0
    then accept_connect peer_addr source_id (take ext_len (drop connect_len buf)) recv_time_ms
    else repeat_connect c (length buf) recv_time_ms

unfoldable pub input_connect : List ℕ → List ℕ → ℕ → M Ret
unfolding read_u16 read_u64 get_passive_conn connect_found
input_connect buf peer_addr recv_time_ms =
    let size = length buf in
    let source_id = read_u64 (drop common_len buf) in
    let ext_len = read_u16 (drop (common_len + 9) buf) in
    if ltb size connect_len || not (read_u64 (drop 1 buf) == 0)
    then return (err Status.invalid_format)
    else if source_id == 0 || (ltb proto_ext_max_len ext_len || ltb size (connect_len + ext_len))
    then return (err Status.invalid_format)
    else (do
      c ← gets (λ w. get_passive_conn w peer_addr source_id)
      connect_found buf peer_addr recv_time_ms source_id c)

-- What a CONNECT_ACK does once it is noted.
unfoldable pub connect_acked : ℕ → List ℕ → M Ret
unfolding read_u16 read_u64 conn_set_state conn_close_internal
connect_acked c buf = do
  let peer_version = get_or buf (common_len + 8) 0
  let result = get_or buf (common_len + 9) 0
  let ext_len = read_u16 (drop (common_len + 10) buf)
  if peer_version == version && result == ack_ok
      then (do
        mod_conn c (λ x. record x {
          peer_connection_id = read_u64 (drop common_len buf);
          peer_proto_ext =
              if ltb 0 ext_len then take ext_len (drop connect_ack_len buf) else x.peer_proto_ext;
        })
        conn_set_state c ConnState.connected)
      else (do
        count_rejected
        conn_set_state c ConnState.error
        conn_close_internal c (
            if not (peer_version == version) || result == ack_version
            then reason_version
            else reason_rejected))
  return (ok 0)

unfoldable pub input_connect_ack : ℕ → List ℕ → ℕ → M Ret
unfolding read_u16 read_u64 note_receive connect_acked
input_connect_ack c buf recv_time_ms = do
  conn ← get_conn c
  let size = length buf
  let ext_len = read_u16 (drop (common_len + 10) buf)
  if not (conn_is conn.state ConnState.connecting)
      then return (err Status.state)
      else if ltb size connect_ack_len
          || (read_u64 (drop common_len buf) == 0
              || (ltb proto_ext_max_len ext_len || ltb size (connect_ack_len + ext_len)))
      then return (err Status.invalid_format)
      else (do note_receive c recv_time_ms false; connect_acked c buf)

unfoldable pub input_keepalive : ℕ → List ℕ → ℕ → M Ret
unfolding note_receive
input_keepalive c buf recv_time_ms =
    if ltb (length buf) keepalive_len
    then return (err Status.invalid_format)
    else (do note_receive c recv_time_ms false; return (ok 0))

unfoldable pub input_conn_close : ℕ → List ℕ → ℕ → M Ret
unfolding note_receive conn_send_close_ack conn_close_internal
input_conn_close c buf recv_time_ms =
    let reason = get_or buf common_len 0 in
    if ltb (length buf) conn_close_len then return (err Status.invalid_format) else (do
      note_receive c recv_time_ms false
      _ ← conn_send_close_ack c reason
      conn_close_internal c reason
      return (ok 0))

unfoldable pub input_conn_close_ack : ℕ → List ℕ → ℕ → M Ret
unfolding note_receive conn_close_internal
input_conn_close_ack c buf recv_time_ms = do
  conn ← get_conn c
  if not (conn_is conn.state ConnState.closing)
      then return (err Status.state)
      else if ltb (length buf) conn_close_len
      then return (err Status.invalid_format)
      else (do
        note_receive c recv_time_ms false
        conn_close_internal c conn.close_reason
        return (ok 0))
