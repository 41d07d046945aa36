-- ===== src/Protocol.antt =====
-- src/kcpmux_protocol.c: the handling of an incoming packet. `buf + n` is `drop n buf`, and each
-- case reads a field only after the test of the packet's size.
pub mod Refusal
pub mod Answers
pub mod Connect
mod Examples
use kcp_mux.Base.{ℕ, ◌==◌, ltb, if◌then◌else◌, ◌||◌, List, length, get_or, drop}
use kcp_mux.Types.{Ret, err, Status, addr_max_len}
use kcp_mux.Wire.{
  read_u64, common_len, msg_conn_connect, msg_conn_connect_ack, msg_conn_keepalive, msg_conn_close,
  msg_conn_close_ack, msg_stream_close, msg_stream_close_ack, msg_stream_payload,
}
use kcp_mux.World.{M, ◌>>=◌, ◌>>◌, return, gets}
use kcp_mux.Route.{get_conn_by_id}
use kcp_mux.ConnMessages.{
  count_received, input_connect, input_connect_ack, input_keepalive, input_conn_close,
  input_conn_close_ack,
}
use kcp_mux.StreamMessages.{input_stream_close, input_stream_close_ack, input_stream_payload}

-- The `switch` on the message type.
unfoldable pub dispatch : ℕ → ℕ → List ℕ → ℕ → M Ret
unfolding input_connect_ack input_keepalive input_conn_close input_conn_close_ack input_stream_close
    input_stream_close_ack input_stream_payload
dispatch msg_type c buf recv_time_ms =
    if msg_type == msg_conn_connect_ack
    then input_connect_ack c buf recv_time_ms
    else if msg_type == msg_conn_keepalive
    then input_keepalive c buf recv_time_ms
    else if msg_type == msg_conn_close
    then input_conn_close c buf recv_time_ms
    else if msg_type == msg_conn_close_ack
    then input_conn_close_ack c buf recv_time_ms
    else if msg_type == msg_stream_close
    then input_stream_close c buf recv_time_ms
    else if msg_type == msg_stream_close_ack
    then input_stream_close_ack c buf recv_time_ms
    else if msg_type == msg_stream_payload
    then input_stream_payload c buf recv_time_ms
    else return (err Status.invalid_format)

-- What follows the lookup of the connection that the packet names.
unfoldable pub input_found : List ℕ → ℕ → ℕ → ℕ → M Ret
unfolding count_received
input_found buf recv_time_ms destination_id c =
    if destination_id == 0
    then return (err Status.invalid_format)
    else if c == 0
    then return (err Status.not_found)
    else (do count_received c (length buf); dispatch (get_or buf 0 0) c buf recv_time_ms)

-- Every packet but a CONNECT names a connection of the receiver.
unfoldable pub input_routed : List ℕ → List ℕ → ℕ → M Ret
unfolding read_u64 get_conn_by_id input_found
input_routed buf peer_addr recv_time_ms = do
  let destination_id = read_u64 (drop 1 buf)
  c ← gets (λ w. get_conn_by_id w peer_addr destination_id)
  input_found buf recv_time_ms destination_id c

-- kcpmux_protocol_input; the packet and the address are not NULL.
unfoldable pub protocol_input : List ℕ → List ℕ → ℕ → M Ret
unfolding input_connect input_routed
protocol_input buf peer_addr recv_time_ms =
    if length buf == 0 || (length peer_addr == 0 || ltb addr_max_len (length peer_addr))
    then return (err Status.invalid_param)
    else if ltb (length buf) common_len
    then return (err Status.invalid_format)
    else if get_or buf 0 0 == msg_conn_connect
    then input_connect buf peer_addr recv_time_ms
    else input_routed buf peer_addr recv_time_ms
