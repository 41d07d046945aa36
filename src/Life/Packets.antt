-- ===== src/Life/Packets.antt =====
-- src/kcpmux_protocol.c: no packet takes a connection or a stream back.
use kcp_mux.Base.{ℕ, ◌≤◌, ◌<◌, ◌≡◌, ◌∙◌, sym, ap, arith, false, not, List}
use kcp_mux.Types.{ConnState, conn_is}
use kcp_mux.World.{World, Conn}
use kcp_mux.ConnMessages.{
  count_received, notify_connect, answer_connect, accept_connect, repeat_connect, connect_found,
  input_connect, input_connect_ack, input_keepalive, input_conn_close, input_conn_close_ack,
  connect_acked,
}
use kcp_mux.StreamMessages.{
  input_stream_close, input_stream_close_ack, reject_stream, first_payload, notify_create,
  create_peer_stream, unknown_stream, input_stream_payload,
}
use kcp_mux.Protocol.{dispatch, input_found, input_routed, protocol_input}
use kcp_mux.Life.Combinators.{knows-Follows, return-Follows}
use kcp_mux.Life.Relation.{Evolves, Rel, Follows}
use kcp_mux.Life.Changes.{rules}
use kcp_mux.Life.At.{
  if-At, get_conn-At, At, At-Follows, Follows-At, step-At, then-At, quiet_then-At,
}
use kcp_mux.Life.Quiet
use kcp_mux.Life.Maps.{add_conn-Follows, add_stream-Follows}
use kcp_mux.Life.Ends.{conn_close_internal-Follows, stream_close_internal-Follows}
use kcp_mux.Life.Fresh.{
  IsNew-pos, made-Follows, new_stream-Follows, new_conn_set_state-Follows,
  new_stream_set_state-Follows,
}
use kcp_mux.Life.Streams.{
  stream_new-Makes, stream_set_config-Follows, stream_set_callbacks-Follows, handle_payload-Follows,
  handle_close-Follows,
}
use kcp_mux.Life.Conns.{
  conn_new-Makes, conn_set_config-Follows, conn_set_callbacks-Follows, connecting_fails,
  connecting_connects,
}
use kcp_mux.Life.Forward.{forward, quiet}

module _ {r : Rel} {k : ℕ} where
  count_received-Follows : (c size : ℕ) → Follows r k (count_received c size)
  unfolding count_received
  count_received-Follows c size = search rules depth 20

  notify_connect-Follows : (c : ℕ) → Follows r k (notify_connect c)
  unfolding notify_connect
  notify_connect-Follows c =
      search (rules, conn_set_config-Follows, conn_set_callbacks-Follows) depth 20

  repeat_connect-Follows : (c size t : ℕ) → Follows r k (repeat_connect c size t)
  unfolding repeat_connect
  repeat_connect-Follows c size t =
      search
        (
          rules, count_received-Follows, Quiet.note_receive-Follows,
          Quiet.conn_send_connect_ack-Follows,
        )
        depth 20

  notify_create-Follows : (s : ℕ) → Follows r k (notify_create s)
  unfolding notify_create
  notify_create-Follows s =
      search (rules, stream_set_config-Follows, stream_set_callbacks-Follows) depth 20

  input_keepalive-Follows : (c : ℕ) (buf : List ℕ) (t : ℕ) → Follows r k (input_keepalive c buf t)
  unfolding input_keepalive
  input_keepalive-Follows c buf t = search (rules, Quiet.note_receive-Follows) depth 20

module _ {k : ℕ} where
  answer_connect-Follows : (c notified : ℕ) → k ≤ c → Follows forward k (answer_connect c notified)
  unfolding answer_connect
  answer_connect-Follows c notified h =
      search
        (
          new_conn_set_state-Follows, rules, Quiet.conn_send_connect_ack-Follows,
          conn_close_internal-Follows,
        )
        depth 20

  accept_connect-Follows :
      (peer_addr : List ℕ) (source_id : ℕ) (ext : List ℕ) (t : ℕ)
      → Follows forward k (accept_connect peer_addr source_id ext t)
  unfolding accept_connect
  accept_connect-Follows peer_addr source_id ext t =
      search
        (
          made-Follows, knows-Follows, rules, conn_new-Makes, IsNew-pos, Quiet.note_receive-Follows,
          add_conn-Follows, notify_connect-Follows, answer_connect-Follows,
        )
        depth 20

  connect_found-Follows :
      (buf peer_addr : List ℕ) (t source_id c : ℕ)
      → Follows forward k (connect_found buf peer_addr t source_id c)
  unfolding connect_found
  connect_found-Follows buf peer_addr t source_id c =
      search
        (rules, Quiet.conn_send_connect_ack-Follows, accept_connect-Follows, repeat_connect-Follows)
        depth 20

  input_connect-Follows :
      (buf peer_addr : List ℕ) (t : ℕ) → Follows forward k (input_connect buf peer_addr t)
  unfolding input_connect
  input_connect-Follows buf peer_addr t = search (rules, connect_found-Follows) depth 20

  input_conn_close-Follows :
      (c : ℕ) (buf : List ℕ) (t : ℕ) → Follows forward k (input_conn_close c buf t)
  unfolding input_conn_close
  input_conn_close-Follows c buf t =
      search
        (
          rules, Quiet.note_receive-Follows, Quiet.conn_send_close_ack-Follows,
          conn_close_internal-Follows,
        )
        depth 20

  input_conn_close_ack-Follows :
      (c : ℕ) (buf : List ℕ) (t : ℕ) → Follows forward k (input_conn_close_ack c buf t)
  unfolding input_conn_close_ack
  input_conn_close_ack-Follows c buf t =
      search (rules, Quiet.note_receive-Follows, conn_close_internal-Follows) depth 20

  input_stream_close-Follows :
      (c : ℕ) (buf : List ℕ) (t : ℕ) → Follows forward k (input_stream_close c buf t)
  unfolding input_stream_close
  input_stream_close-Follows c buf t =
      search (rules, Quiet.note_receive-Follows, handle_close-Follows) depth 20

  input_stream_close_ack-Follows :
      (c : ℕ) (buf : List ℕ) (t : ℕ) → Follows forward k (input_stream_close_ack c buf t)
  unfolding input_stream_close_ack
  input_stream_close_ack-Follows c buf t =
      search (rules, Quiet.note_receive-Follows, stream_close_internal-Follows) depth 20

  reject_stream-Follows : (s t : ℕ) → k ≤ s → Follows forward k (reject_stream s t)
  unfolding reject_stream
  reject_stream-Follows s t h =
      search
        (
          new_stream_set_state-Follows, new_stream-Follows, rules, Quiet.stream_send_close-Follows,
          stream_close_internal-Follows,
        )
        depth 20

  first_payload-Follows :
      (c s : ℕ) (payload : List ℕ) (t : ℕ) → k ≤ s → Follows forward k (first_payload c s payload t)
  unfolding first_payload
  first_payload-Follows c s payload t h =
      search
        (
          new_stream_set_state-Follows, rules, handle_payload-Follows, Quiet.note_receive-Follows,
          stream_close_internal-Follows,
        )
        depth 20

  create_peer_stream-Follows :
      (c stream_id : ℕ) (payload : List ℕ) (t : ℕ)
      → Follows forward k (create_peer_stream c stream_id payload t)
  unfolding create_peer_stream
  create_peer_stream-Follows c stream_id payload t =
      search
        (
          made-Follows, knows-Follows, rules, stream_new-Makes, IsNew-pos, add_stream-Follows,
          notify_create-Follows, first_payload-Follows, reject_stream-Follows,
        )
        depth 20

  unknown_stream-Follows :
      (c stream_id : ℕ) (payload : List ℕ) (t : ℕ)
      → Follows forward k (unknown_stream c stream_id payload t)
  unfolding unknown_stream
  unknown_stream-Follows c stream_id payload t = search (rules, create_peer_stream-Follows) depth 20

  input_stream_payload-Follows :
      (c : ℕ) (buf : List ℕ) (t : ℕ) → Follows forward k (input_stream_payload c buf t)
  unfolding input_stream_payload
  input_stream_payload-Follows c buf t =
      search (rules, unknown_stream-Follows, handle_payload-Follows, Quiet.note_receive-Follows)
        depth 20

  -- The state is still the one that was read.
  still_connecting :
      {w v : World} (c : ℕ)
      → Evolves quiet k w v
      → (c < k → (w.conns c).state ≡ ConnState.connecting)
      → c < k
      → (v.conns c).state ≡ ConnState.connecting
  still_connecting c q e below = (q.conns c below).state ∙ e below

  connect_acked-At :
      {w : World} (c : ℕ) (buf : List ℕ)
      → (c < k → (w.conns c).state ≡ ConnState.connecting)
      → At forward k w (connect_acked c buf)
  unfolding connect_acked
  connect_acked-At c buf e =
      search
        (
          if-At, then-At, quiet_then-At, connecting_connects, connecting_fails, still_connecting,
          rules, conn_close_internal-Follows,
        )
        depth 20

  read_connecting :
      (c : ℕ) (a b : Conn)
      → a ≡ b
      → not (conn_is a.state ConnState.connecting) ≡ false
      → c < k
      → b.state ≡ ConnState.connecting
  read_connecting c a b e h below = ap Conn.state (sym e) ∙ is_connecting a.state h
    where
      is_connecting :
          (s : ConnState) → not (conn_is s ConnState.connecting) ≡ false → s ≡ ConnState.connecting
      is_connecting s q = ground arith

  input_connect_ack-Follows :
      (c : ℕ) (buf : List ℕ) (t : ℕ) → Follows forward k (input_connect_ack c buf t)
  unfolding input_connect_ack
  input_connect_ack-Follows c buf t = At-Follows (λ w.
      search
        (
          get_conn-At, step-At, if-At, quiet_then-At, Follows-At, return-Follows,
          Quiet.note_receive-Follows, connect_acked-At, still_connecting, read_connecting,
        )
        depth 20)

  dispatch-Follows :
      (msg_type c : ℕ) (buf : List ℕ) (t : ℕ) → Follows forward k (dispatch msg_type c buf t)
  unfolding dispatch
  dispatch-Follows msg_type c buf t =
      search
        (
          rules, input_connect_ack-Follows, input_keepalive-Follows, input_conn_close-Follows,
          input_conn_close_ack-Follows, input_stream_close-Follows, input_stream_close_ack-Follows,
          input_stream_payload-Follows,
        )
        depth 20

  input_found-Follows :
      (buf : List ℕ) (t destination_id c : ℕ)
      → Follows forward k (input_found buf t destination_id c)
  unfolding input_found
  input_found-Follows buf t destination_id c =
      search (rules, count_received-Follows, dispatch-Follows) depth 20

  input_routed-Follows :
      (buf peer_addr : List ℕ) (t : ℕ) → Follows forward k (input_routed buf peer_addr t)
  unfolding input_routed
  input_routed-Follows buf peer_addr t = search (rules, input_found-Follows) depth 20

  pub protocol_input-Follows :
      (buf peer_addr : List ℕ) (t : ℕ) → Follows forward k (protocol_input buf peer_addr t)
  unfolding protocol_input
  protocol_input-Follows buf peer_addr t =
      search (rules, input_connect-Follows, input_routed-Follows) depth 20
