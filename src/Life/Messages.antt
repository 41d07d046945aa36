-- ===== src/Life/Messages.antt =====
-- The messages of src/kcpmux_protocol.c that are sent: they only count, and each fits in a datagram.
use kcp_mux.Base.{ℕ, ◌+◌, ◌≤◌, ◌≡◌, ◌==◌, ◌||◌, false, arith, List, [], ◌∷◌, length, ltb}
use kcp_mux.Types.{fragment}
use kcp_mux.Config.{msg_max_len, stream_header_len}
use kcp_mux.Wire.{
  connect_len, connect_ack_len, connect_message, connect_ack_message, keepalive_message,
  conn_close_message, stream_close_message, stream_header,
}
use kcp_mux.Engine.{total_len}
use kcp_mux.Send.{
  protocol_send_conn_connect, protocol_send_conn_connect_ack, protocol_send_conn_keepalive,
  protocol_send_conn_close, protocol_send_conn_close_ack, protocol_send_stream_close,
  protocol_send_stream_close_ack, protocol_send_stream_payload, write_socket,
}
use kcp_mux.Life.Combinators.{knows-Follows}
use kcp_mux.Life.Relation.{Rel, Follows}
use kcp_mux.Life.Changes.{rules}
use kcp_mux.Life.Timing.{write_socketv-Follows}

-- The sizes of the messages.
connect_fits :
    (peer_id local_id : ℕ) (ext : List ℕ)
    → ltb msg_max_len (connect_len + length ext) ≡ false
    → length (connect_message peer_id local_id ext) ≤ msg_max_len
unfolding connect_message
connect_fits peer_id local_id ext h = ground arith

connect_ack_fits :
    (peer_id local_id result : ℕ) (ext : List ℕ)
    → ltb msg_max_len (connect_ack_len + length ext) ≡ false
    → length (connect_ack_message peer_id local_id result ext) ≤ msg_max_len
unfolding connect_ack_message
connect_ack_fits peer_id local_id result ext h = ground arith

keepalive_fits : (peer_id time seq : ℕ) → length (keepalive_message peer_id time seq) ≤ msg_max_len
unfolding keepalive_message
keepalive_fits peer_id time seq = omega arith

conn_close_fits :
    (type peer_id reason : ℕ) → length (conn_close_message type peer_id reason) ≤ msg_max_len
unfolding conn_close_message
conn_close_fits type peer_id reason = omega arith

stream_close_fits :
    (type peer_id stream_id reason : ℕ)
    → length (stream_close_message type peer_id stream_id reason) ≤ msg_max_len
unfolding stream_close_message
stream_close_fits type peer_id stream_id reason = omega arith

payload_fits :
    (type peer_id stream_id : ℕ) (packet : List ℕ)
    → (length packet == 0 || ltb msg_max_len (stream_header_len + length packet)) ≡ false
    → total_len (fragment (stream_header type peer_id stream_id) ∷ fragment packet ∷ [])
      ≤ msg_max_len
unfolding stream_header total_len
payload_fits type peer_id stream_id packet h = ground arith

fragment_fits :
    (buf : List ℕ) → length buf ≤ msg_max_len → total_len (fragment buf ∷ []) ≤ msg_max_len
unfolding total_len
fragment_fits buf h = omega arith

module _ {r : Rel} {k : ℕ} where
  write_socket-Follows :
      (c : ℕ) (buf : List ℕ) → length buf ≤ msg_max_len → Follows r k (write_socket c buf)
  unfolding write_socket
  write_socket-Follows c buf fits =
      write_socketv-Follows c (fragment buf ∷ []) (fragment_fits buf fits)

  pub protocol_send_conn_connect-Follows : (c : ℕ) → Follows r k (protocol_send_conn_connect c)
  unfolding protocol_send_conn_connect
  protocol_send_conn_connect-Follows c =
      search (knows-Follows, rules, write_socket-Follows, connect_fits) depth 20

  pub protocol_send_conn_connect_ack-Follows :
      (c result : ℕ) → Follows r k (protocol_send_conn_connect_ack c result)
  unfolding protocol_send_conn_connect_ack
  protocol_send_conn_connect_ack-Follows c result =
      search (knows-Follows, rules, write_socket-Follows, connect_ack_fits) depth 20

  pub protocol_send_conn_keepalive-Follows : (c : ℕ) → Follows r k (protocol_send_conn_keepalive c)
  unfolding protocol_send_conn_keepalive
  protocol_send_conn_keepalive-Follows c =
      search (rules, write_socket-Follows, keepalive_fits) depth 20

  pub protocol_send_conn_close-Follows :
      (c reason : ℕ) → Follows r k (protocol_send_conn_close c reason)
  unfolding protocol_send_conn_close
  protocol_send_conn_close-Follows c reason =
      search (rules, write_socket-Follows, conn_close_fits) depth 20

  pub protocol_send_conn_close_ack-Follows :
      (c reason : ℕ) → Follows r k (protocol_send_conn_close_ack c reason)
  unfolding protocol_send_conn_close_ack
  protocol_send_conn_close_ack-Follows c reason =
      search (rules, write_socket-Follows, conn_close_fits) depth 20

  pub protocol_send_stream_close-Follows :
      (s reason : ℕ) → Follows r k (protocol_send_stream_close s reason)
  unfolding protocol_send_stream_close
  protocol_send_stream_close-Follows s reason =
      search (rules, write_socket-Follows, stream_close_fits) depth 20

  pub protocol_send_stream_close_ack-Follows :
      (s reason : ℕ) → Follows r k (protocol_send_stream_close_ack s reason)
  unfolding protocol_send_stream_close_ack
  protocol_send_stream_close_ack-Follows s reason =
      search (rules, write_socket-Follows, stream_close_fits) depth 20

  pub protocol_send_stream_payload-Follows :
      (s : ℕ) (packet : List ℕ) → Follows r k (protocol_send_stream_payload s packet)
  unfolding protocol_send_stream_payload
  protocol_send_stream_payload-Follows s packet =
      search (knows-Follows, rules, write_socketv-Follows, payload_fits) depth 20
