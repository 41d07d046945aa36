-- ===== src/Wire/Messages.antt =====
-- The fields of the messages that src/kcpmux_protocol.c builds, at the offsets where
-- kcpmux_protocol_input reads them.
use kcp_mux.Base.{
  ℕ, [], ◌==◌, ◌≢◌, false, ◌+◌, ◌^◌, ◌<◌, ◌≤◌, ◌≡◌, refl, List, ◌∷◌, ◌++◌, length, get_or, drop,
  take, arith, u16,
}
use kcp_mux.Types.{version, proto_ext_max_len}
use kcp_mux.Wire.{
  read_u16, read_u32, read_u64, connect_message, connect_ack_message, stream_header,
  stream_close_message, common_len, connect_len, connect_ack_len, stream_close_len,
  msg_conn_connect, msg_conn_connect_ack, write_u16, write_u32, write_u64, write_common,
}
use kcp_mux.Config.{stream_header_len}
use kcp_mux.Wire.RoundTrip.{read_u16-write_u16, read_u32-write_u32, read_u64-write_u64}

-- A CONNECT has no destination, and its sender, version and extension stand where the receiver
-- reads them, for any 64-bit sender and any extension of at most 512 bytes.
pub connect_message_correct :
    (peer_id local_id : ℕ) (ext : List ℕ)
    → local_id < 2 ^ 64
    → length ext ≤ proto_ext_max_len
    → let buf = connect_message peer_id local_id ext in
      (length buf ≡ connect_len + length ext)
      × (get_or buf 0 0 ≡ msg_conn_connect)
      × (read_u64 (drop 1 buf) ≡ 0)
      × (read_u64 (drop common_len buf) ≡ local_id)
      × (get_or buf (common_len + 8) 0 ≡ version)
      × (read_u16 (drop (common_len + 9) buf) ≡ length ext)
      × (drop connect_len buf ≡ ext)
unfolding connect_message
connect_message_correct peer_id local_id ext h l =
    let small : u16 (length ext) ≡ length ext = omega arith in
    let tail = version ∷ (write_u16 (u16 (length ext)) ++ ext) in
    (
      ground arith,
      refl,
      read_u64-write_u64 0 (write_u64 local_id ++ tail) (omega arith),
      read_u64-write_u64 local_id tail h,
      refl,
      rw (small) (read_u16-write_u16 (length ext) ext (omega arith)),
      refl,
    )

-- A CONNECT_ACK names its destination, and its sender, version, result and extension stand where
-- the receiver reads them, for any 64-bit IDs and any extension of at most 512 bytes.
pub connect_ack_message_correct :
    (peer_id local_id result : ℕ) (ext : List ℕ)
    → peer_id < 2 ^ 64
    → local_id < 2 ^ 64
    → length ext ≤ proto_ext_max_len
    → let buf = connect_ack_message peer_id local_id result ext in
      (length buf ≡ connect_ack_len + length ext)
      × (get_or buf 0 0 ≡ msg_conn_connect_ack)
      × (read_u64 (drop 1 buf) ≡ peer_id)
      × (read_u64 (drop common_len buf) ≡ local_id)
      × (get_or buf (common_len + 8) 0 ≡ version)
      × (get_or buf (common_len + 9) 0 ≡ result)
      × (read_u16 (drop (common_len + 10) buf) ≡ length ext)
      × (drop connect_ack_len buf ≡ ext)
unfolding connect_ack_message
connect_ack_message_correct peer_id local_id result ext p h l =
    let small : u16 (length ext) ≡ length ext = omega arith in
    let tail = version ∷ result ∷ (write_u16 (u16 (length ext)) ++ ext) in
    (
      ground arith,
      refl,
      read_u64-write_u64 peer_id (write_u64 local_id ++ tail) p,
      read_u64-write_u64 local_id tail h,
      refl,
      refl,
      rw small (read_u16-write_u16 (length ext) ext (omega arith)),
      refl,
    )

-- The close messages of a stream, and the header of its payload, name the destination, the stream
-- and the reason where the receiver reads them. The type is any but CONNECT, the destination fits
-- 64 bits and the stream 32.
pub stream_close_message_correct :
    (type peer_id stream_id reason : ℕ)
    → type ≢ msg_conn_connect
    → peer_id < 2 ^ 64
    → stream_id < 2 ^ 32
    → let buf = stream_close_message type peer_id stream_id reason in
      (length buf ≡ stream_close_len)
      × (get_or buf 0 0 ≡ type)
      × (read_u64 (drop 1 buf) ≡ peer_id)
      × (read_u32 (drop common_len buf) ≡ stream_id)
      × (get_or buf stream_header_len 0 ≡ reason)
      × (take stream_header_len buf ≡ stream_header type peer_id stream_id)
unfolding stream_close_message stream_header write_common
stream_close_message_correct type peer_id stream_id reason ne p h =
    let other : (type == msg_conn_connect) ≡ false = ground arith in
    (
      refl,
      refl,
      rw other (read_u64-write_u64 peer_id (write_u32 stream_id ++ (reason ∷ [])) p),
      read_u32-write_u32 stream_id (reason ∷ []) h,
      refl,
      refl,
    )
