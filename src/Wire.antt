-- ===== src/Wire.antt =====
-- src/kcpmux_protocol.c and src/kcpmux_protocol.h: integers in network byte order and the bytes
-- of each message. A buffer is a list of bytes; `buf + n` is `drop n buf`.
pub mod RoundTrip
pub mod Messages
mod Examples
use Prim.Native.Nat.{bit_or}
use kcp_mux.Base.{
  ℕ, zero, suc, ◌+◌, ◌*◌, ◌/◌, ◌%◌, ◌^◌, ◌==◌, if◌then◌else◌, List, [], ◌∷◌, ◌++◌, length, get_or,
  take, drop, u8, u16, u32, u64,
}
use kcp_mux.Types.{version}

-- KCPMUX_MSG_*
abbrev pub msg_conn_connect : ℕ
msg_conn_connect = 0x81

abbrev pub msg_conn_connect_ack : ℕ
msg_conn_connect_ack = 0x82

abbrev pub msg_conn_keepalive : ℕ
msg_conn_keepalive = 0x83

abbrev pub msg_conn_close : ℕ
msg_conn_close = 0x84

abbrev pub msg_conn_close_ack : ℕ
msg_conn_close_ack = 0x85

abbrev pub msg_stream_close : ℕ
msg_stream_close = 0x93

abbrev pub msg_stream_close_ack : ℕ
msg_stream_close_ack = 0x94

abbrev pub msg_stream_payload : ℕ
msg_stream_payload = 0xa1

-- KCPMUX_PROTO_*_LEN
abbrev pub common_len : ℕ
common_len = 9

abbrev pub connect_len : ℕ
connect_len = 20

abbrev pub connect_ack_len : ℕ
connect_ack_len = 21

abbrev pub keepalive_len : ℕ
keepalive_len = 17

abbrev pub conn_close_len : ℕ
conn_close_len = 10

abbrev pub stream_close_len : ℕ
stream_close_len = 14

unfoldable pub write_u16 : ℕ → List ℕ
write_u16 val = u8 (val / 2 ^ 8) ∷ u8 (val % 256) ∷ []

-- The bytes that the loop of `__write_u64` has left to write.
unfoldable pub write_u64_loop : ℕ → ℕ → List ℕ
write_u64_loop zero val = []
write_u64_loop (suc left) val = u8 (val / 2 ^ (8 * left)) ∷ write_u64_loop left val

unfoldable pub write_u64 : ℕ → List ℕ
unfolding write_u64_loop
write_u64 val = write_u64_loop 8 val

unfoldable pub write_u32 : ℕ → List ℕ
write_u32 val =
    u8 (val / 2 ^ 24) ∷ u8 (val / 2 ^ 16 % 256) ∷ u8 (val / 2 ^ 8 % 256) ∷ u8 (val % 256) ∷ []

unfoldable pub read_u16 : List ℕ → ℕ
read_u16 buf = u16 (bit_or (get_or buf 0 0 * 2 ^ 8) (get_or buf 1 0))

unfoldable pub read_u64_loop : ℕ → ℕ → List ℕ → ℕ
read_u64_loop zero val buf = val
read_u64_loop (suc left) val buf =
    read_u64_loop left (bit_or (u64 (val * 2 ^ 8)) (get_or buf 0 0)) (drop 1 buf)

unfoldable pub read_u64 : List ℕ → ℕ
unfolding read_u64_loop
read_u64 buf = read_u64_loop 8 0 buf

unfoldable pub read_u32 : List ℕ → ℕ
read_u32 buf =
    bit_or
      (bit_or (bit_or (get_or buf 0 0 * 2 ^ 24) (get_or buf 1 0 * 2 ^ 16)) (get_or buf 2 0 * 2 ^ 8))
      (get_or buf 3 0)

-- `peer_id` is `conn->peer_connection_id`, which a CONNECT leaves out.
unfoldable pub write_common : ℕ → ℕ → List ℕ
unfolding write_u64
write_common type peer_id = type ∷ write_u64 (if type == msg_conn_connect then 0 else peer_id)

unfoldable pub connect_message : ℕ → ℕ → List ℕ → List ℕ
unfolding write_common write_u64 write_u16
connect_message peer_id local_id ext =
    write_common msg_conn_connect peer_id
    ++ (write_u64 local_id ++ (version ∷ (write_u16 (u16 (length ext)) ++ ext)))

unfoldable pub connect_ack_message : ℕ → ℕ → ℕ → List ℕ → List ℕ
unfolding write_common write_u64 write_u16
connect_ack_message peer_id local_id result ext =
    write_common msg_conn_connect_ack peer_id
    ++ (write_u64 local_id ++ (version ∷ result ∷ (write_u16 (u16 (length ext)) ++ ext)))

unfoldable pub keepalive_message : ℕ → ℕ → ℕ → List ℕ
unfolding write_common write_u32
keepalive_message peer_id time seq =
    write_common msg_conn_keepalive peer_id ++ (write_u32 (u32 time) ++ write_u32 seq)

-- CLOSE and CLOSE_ACK of a connection.
unfoldable pub conn_close_message : ℕ → ℕ → ℕ → List ℕ
unfolding write_common
conn_close_message type peer_id reason = write_common type peer_id ++ (reason ∷ [])

unfoldable pub stream_header : ℕ → ℕ → ℕ → List ℕ
unfolding write_common write_u32
stream_header type peer_id stream_id = write_common type peer_id ++ write_u32 stream_id

-- CLOSE and CLOSE_ACK of a stream.
unfoldable pub stream_close_message : ℕ → ℕ → ℕ → ℕ → List ℕ
unfolding stream_header
stream_close_message type peer_id stream_id reason =
    stream_header type peer_id stream_id ++ (reason ∷ [])
