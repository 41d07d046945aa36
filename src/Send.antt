-- ===== src/Send.antt =====
-- src/kcpmux_protocol.c: sending each message, and src/kcpmux_conn.c: a connection's writes.
use kcp_mux.Base.{ℕ, ◌+◌, ◌==◌, ltb, if◌then◌else◌, List, [], ◌∷◌, length, ◌||◌}
use kcp_mux.Types.{Ret, err, Status, is_ok, Iovec, fragment}
use kcp_mux.Config.{msg_max_len, stream_header_len}
use kcp_mux.Wire.{
  connect_len, connect_ack_len, connect_message, connect_ack_message, keepalive_message,
  conn_close_message, stream_close_message, stream_header, msg_conn_close, msg_conn_close_ack,
  msg_stream_close, msg_stream_close_ack, msg_stream_payload,
}
use kcp_mux.World.{M, ◌>>=◌, ◌>>◌, return, when, get_conn, get_stream, mod_conn}
use kcp_mux.World.Stats.{plus}
use kcp_mux.Engine.{now, engine_write_socketv, total_len}

unfoldable pub write_socketv : ℕ → List Iovec → M Ret
unfolding engine_write_socketv total_len
write_socketv c iov = do
  conn ← get_conn c
  ret ← engine_write_socketv iov conn.peer_addr
  when (is_ok ret) (
      mod_conn c (λ x. record x {
        stats = record (x.stats) {
          tx_packets = plus x.stats.tx_packets 1;
          tx_bytes = plus x.stats.tx_bytes (total_len iov);
        };
      }))
  return ret

unfoldable pub write_socket : ℕ → List ℕ → M Ret
unfolding write_socketv
write_socket c buf = write_socketv c (fragment buf ∷ [])

unfoldable pub protocol_send_conn_connect : ℕ → M Ret
unfolding write_socket connect_message
protocol_send_conn_connect c = do
  conn ← get_conn c
  if ltb msg_max_len (connect_len + length conn.self_proto_ext)
      then return (err Status.invalid_param)
      else write_socket c
          (connect_message conn.peer_connection_id conn.local_connection_id conn.self_proto_ext)

unfoldable pub protocol_send_conn_connect_ack : ℕ → ℕ → M Ret
unfolding write_socket connect_ack_message
protocol_send_conn_connect_ack c result = do
  conn ← get_conn c
  if ltb msg_max_len (connect_ack_len + length conn.self_proto_ext)
      then return (err Status.invalid_param)
      else write_socket c (
          connect_ack_message conn.peer_connection_id conn.local_connection_id result
            conn.self_proto_ext)

unfoldable pub protocol_send_conn_keepalive : ℕ → M Ret
unfolding write_socket keepalive_message now
protocol_send_conn_keepalive c = do
  conn ← get_conn c
  time ← now
  write_socket c (keepalive_message conn.peer_connection_id time conn.keepalive_seq)

-- Before the handshake there is no peer ID, and nothing is sent.
unfoldable pub protocol_send_conn_close : ℕ → ℕ → M Ret
unfolding write_socket conn_close_message
protocol_send_conn_close c reason = do
  conn ← get_conn c
  if conn.peer_connection_id == 0
      then return (err Status.state)
      else write_socket c (conn_close_message msg_conn_close conn.peer_connection_id reason)

unfoldable pub protocol_send_conn_close_ack : ℕ → ℕ → M Ret
unfolding write_socket conn_close_message
protocol_send_conn_close_ack c reason = do
  conn ← get_conn c
  write_socket c (conn_close_message msg_conn_close_ack conn.peer_connection_id reason)

unfoldable pub protocol_send_stream_close : ℕ → ℕ → M Ret
unfolding write_socket stream_close_message
protocol_send_stream_close s reason = do
  stream ← get_stream s
  conn ← get_conn stream.conn
  write_socket stream.conn
      (stream_close_message msg_stream_close conn.peer_connection_id stream.stream_id reason)

unfoldable pub protocol_send_stream_close_ack : ℕ → ℕ → M Ret
unfolding write_socket stream_close_message
protocol_send_stream_close_ack s reason = do
  stream ← get_stream s
  conn ← get_conn stream.conn
  write_socket stream.conn
      (stream_close_message msg_stream_close_ack conn.peer_connection_id stream.stream_id reason)

-- The header and the KCP packet leave as two fragments.
unfoldable pub protocol_send_stream_payload : ℕ → List ℕ → M Ret
unfolding write_socketv stream_header
protocol_send_stream_payload s kcp_data = do
  stream ← get_stream s
  conn ← get_conn stream.conn
  if length kcp_data == 0 || ltb msg_max_len (stream_header_len + length kcp_data)
      then return (err Status.invalid_param)
      else write_socketv stream.conn (
          fragment (stream_header msg_stream_payload conn.peer_connection_id stream.stream_id)
          ∷ fragment kcp_data
          ∷ [])
