-- ===== src/Wire/Examples.antt =====
-- Messages of src/kcpmux_protocol.c with concrete fields.
use kcp_mux.Base.{ℕ, ◌+◌, ◌≡◌, refl, arith, List, [], ◌∷◌, ◌++◌, length, get_or, drop, take}
use kcp_mux.Types.{version}
use kcp_mux.Config.{stream_header_len}
use kcp_mux.Wire.{
  write_u16, write_u32, write_u64, read_u16, read_u32, read_u64, connect_message,
  connect_ack_message, stream_close_message, stream_header, common_len, connect_len,
  connect_ack_len, stream_close_len, msg_conn_connect, msg_conn_connect_ack, msg_stream_close,
}
use kcp_mux.Wire.RoundTrip.{read_u16-write_u16, read_u32-write_u32, read_u64-write_u64}
use kcp_mux.Wire.Messages.{
  connect_message_correct, connect_ack_message_correct, stream_close_message_correct,
}

big_endian : write_u32 0x01020304 ≡ 1 ∷ 2 ∷ 3 ∷ 4 ∷ []
unfolding write_u32
big_endian = refl

read_u16-write_u16_example : read_u16 (write_u16 0xfffe ++ (7 ∷ [])) ≡ 0xfffe
read_u16-write_u16_example = read_u16-write_u16 0xfffe (7 ∷ []) (omega arith)

read_u32-write_u32_example : read_u32 (write_u32 0x80000001 ++ (7 ∷ [])) ≡ 0x80000001
read_u32-write_u32_example = read_u32-write_u32 0x80000001 (7 ∷ []) (omega arith)

read_u64-write_u64_example : read_u64 (write_u64 0x0102030405060708 ++ []) ≡ 0x0102030405060708
read_u64-write_u64_example = read_u64-write_u64 0x0102030405060708 [] (omega arith)

abbrev hello : List ℕ
hello = 104 ∷ 105 ∷ []

connect_message_correct_example :
    let buf = connect_message 0 77 hello in
    (length buf ≡ connect_len + length hello)
    × (get_or buf 0 0 ≡ msg_conn_connect)
    × (read_u64 (drop 1 buf) ≡ 0)
    × (read_u64 (drop common_len buf) ≡ 77)
    × (get_or buf (common_len + 8) 0 ≡ version)
    × (read_u16 (drop (common_len + 9) buf) ≡ length hello)
    × (drop connect_len buf ≡ hello)
connect_message_correct_example = connect_message_correct 0 77 hello (omega arith) (omega arith)

connect_ack_message_correct_example :
    let buf = connect_ack_message 77 99 0 hello in
    (length buf ≡ connect_ack_len + length hello)
    × (get_or buf 0 0 ≡ msg_conn_connect_ack)
    × (read_u64 (drop 1 buf) ≡ 77)
    × (read_u64 (drop common_len buf) ≡ 99)
    × (get_or buf (common_len + 8) 0 ≡ version)
    × (get_or buf (common_len + 9) 0 ≡ 0)
    × (read_u16 (drop (common_len + 10) buf) ≡ length hello)
    × (drop connect_ack_len buf ≡ hello)
connect_ack_message_correct_example =
    connect_ack_message_correct 77 99 0 hello (omega arith) (omega arith) (omega arith)

stream_close_message_correct_example :
    let buf = stream_close_message msg_stream_close 77 5 3 in
    (length buf ≡ stream_close_len)
    × (get_or buf 0 0 ≡ msg_stream_close)
    × (read_u64 (drop 1 buf) ≡ 77)
    × (read_u32 (drop common_len buf) ≡ 5)
    × (get_or buf stream_header_len 0 ≡ 3)
    × (take stream_header_len buf ≡ stream_header msg_stream_close 77 5)
stream_close_message_correct_example =
    stream_close_message_correct msg_stream_close 77 5 3 (λ e. ground arith) (omega arith)
      (omega arith)
