-- ===== src/Life/Quiet.antt =====
-- src/kcpmux_conn.c and src/kcpmux_stream.c: the operations that change no state.
use kcp_mux.Base.{ℕ, List, [], ◌∷◌, Bool}
use kcp_mux.World.{Stream}
use kcp_mux.Types.{StreamState, ClosePhase}
use kcp_mux.Conn.{
  conn_refresh_timer, note_receive, conn_send_connect, conn_send_connect_ack, conn_send_keepalive,
  conn_send_close, conn_send_close_ack,
}
use kcp_mux.Stream.{
  mark_read_blocked, clear_pending, accumulate_update, kcp_output, kcp_outputs, kcp_update,
  closing_deadline, stream_deadline, stream_refresh_timer, stream_send_close, stream_send_close_ack,
}
use kcp_mux.Life.Combinators.{same-Evolves, if-Evolves, option-Evolves, skip-Follows, then-Follows}
use kcp_mux.Life.Relation.{Rel, Follows}
use kcp_mux.Life.Changes.{rules}
use kcp_mux.Life.Timing.{cancel_timer_node-Follows, schedule_timer_node-Follows}
use kcp_mux.Life.Messages

module _ {r : Rel} {k : ℕ} where
  pub conn_refresh_timer-Follows : (c t : ℕ) → Follows r k (conn_refresh_timer c t)
  unfolding conn_refresh_timer
  conn_refresh_timer-Follows c t = record {
    run = λ w h. if-Evolves w _ _ _ (same-Evolves w) (
        option-Evolves w _ _ _ ((cancel_timer_node-Follows c t).run w h)
          (λ deadline_ms. (schedule_timer_node-Follows c deadline_ms t).run w h));
  }

  pub note_receive-Follows :
      (c t : ℕ) (is_payload : Bool) → Follows r k (note_receive c t is_payload)
  unfolding note_receive
  note_receive-Follows c t is_payload = search (rules, conn_refresh_timer-Follows) depth 20

  pub conn_send_connect-Follows : (c : ℕ) → Follows r k (conn_send_connect c)
  unfolding conn_send_connect
  conn_send_connect-Follows c =
      search (rules, conn_refresh_timer-Follows, Messages.protocol_send_conn_connect-Follows) depth
        20

  pub conn_send_connect_ack-Follows : (c result : ℕ) → Follows r k (conn_send_connect_ack c result)
  unfolding conn_send_connect_ack
  conn_send_connect_ack-Follows c result = Messages.protocol_send_conn_connect_ack-Follows c result

  pub conn_send_keepalive-Follows : (c : ℕ) → Follows r k (conn_send_keepalive c)
  unfolding conn_send_keepalive
  conn_send_keepalive-Follows c =
      search (rules, conn_refresh_timer-Follows, Messages.protocol_send_conn_keepalive-Follows)
        depth 20

  pub conn_send_close-Follows : (c reason : ℕ) → Follows r k (conn_send_close c reason)
  unfolding conn_send_close
  conn_send_close-Follows c reason =
      search (rules, conn_refresh_timer-Follows, Messages.protocol_send_conn_close-Follows) depth 20

  pub conn_send_close_ack-Follows : (c reason : ℕ) → Follows r k (conn_send_close_ack c reason)
  unfolding conn_send_close_ack
  conn_send_close_ack-Follows c reason = Messages.protocol_send_conn_close_ack-Follows c reason

  pub mark_read_blocked-Follows : (s t : ℕ) → Follows r k (mark_read_blocked s t)
  unfolding mark_read_blocked
  mark_read_blocked-Follows s t = search rules depth 20

  pub clear_pending-Follows : (s : ℕ) → Follows r k (clear_pending s)
  unfolding clear_pending
  clear_pending-Follows s = search rules depth 20

  pub accumulate_update-Follows : (s t : ℕ) → Follows r k (accumulate_update s t)
  unfolding accumulate_update
  accumulate_update-Follows s t = search (rules, schedule_timer_node-Follows) depth 20

  pub kcp_output-Follows : (s : ℕ) (packet : List ℕ) → Follows r k (kcp_output s packet)
  unfolding kcp_output
  kcp_output-Follows s packet =
      search (rules, Messages.protocol_send_stream_payload-Follows) depth 20

  kcp_outputs-Follows : (s : ℕ) (packets : List (List ℕ)) → Follows r k (kcp_outputs s packets)
  unfolding kcp_outputs
  kcp_outputs-Follows s [] = skip-Follows
  kcp_outputs-Follows s (packet ∷ rest) =
      then-Follows (kcp_output-Follows s packet) (kcp_outputs-Follows s rest)

  pub kcp_update-Follows : (s t : ℕ) → Follows r k (kcp_update s t)
  unfolding kcp_update
  kcp_update-Follows s t = search (rules, kcp_outputs-Follows) depth 20

  closing_deadline-Follows :
      (phase : ClosePhase) (x : Stream) (t : ℕ) → Follows r k (closing_deadline phase x t)
  unfolding closing_deadline
  closing_deadline-Follows ClosePhase.none x t = search rules depth 20
  closing_deadline-Follows ClosePhase.local_drain x t = search rules depth 20
  closing_deadline-Follows ClosePhase.wait_ack x t = search rules depth 20
  closing_deadline-Follows ClosePhase.remote_drain x t = search rules depth 20
  closing_deadline-Follows ClosePhase.finalize x t = search rules depth 20

  stream_deadline-Follows :
      (state : StreamState) (x : Stream) (t : ℕ) → Follows r k (stream_deadline state x t)
  unfolding stream_deadline
  stream_deadline-Follows StreamState.open_state x t = search rules depth 20
  stream_deadline-Follows StreamState.closing x t = closing_deadline-Follows x.close_phase x t
  stream_deadline-Follows StreamState.closed x t = search rules depth 20
  stream_deadline-Follows StreamState.error x t = search rules depth 20

  pub stream_refresh_timer-Follows : (s t : ℕ) → Follows r k (stream_refresh_timer s t)
  unfolding stream_refresh_timer
  stream_refresh_timer-Follows s t =
      search
        (rules, cancel_timer_node-Follows, schedule_timer_node-Follows, stream_deadline-Follows)
        depth 20

  pub stream_send_close-Follows : (s reason : ℕ) → Follows r k (stream_send_close s reason)
  unfolding stream_send_close
  stream_send_close-Follows s reason =
      search (rules, stream_refresh_timer-Follows, Messages.protocol_send_stream_close-Follows)
        depth 20

  pub stream_send_close_ack-Follows : (s reason : ℕ) → Follows r k (stream_send_close_ack s reason)
  unfolding stream_send_close_ack
  stream_send_close_ack-Follows s reason = Messages.protocol_send_stream_close_ack-Follows s reason
