-- ===== src/Life/Ends.antt =====
-- The changes of state in src/kcpmux_conn.c and src/kcpmux_stream.c, and the ends of connections
-- and streams.
use kcp_mux.Base.{ℕ, ◌≤◌, ◌≡◌, refl, arith, List, [], ◌∷◌, true, false, if◌then◌else◌}
use kcp_mux.Types.{ConnState, StreamState, ClosePhase, conn_is, stream_is}
use kcp_mux.World.{Conn, Stream, mod_conn, mod_stream}
use kcp_mux.Conn.{note_connected}
use kcp_mux.Stream.{end_stream, stream_close_internal}
use kcp_mux.ConnLife.{end_conn, close_streams, conn_close_internal}
use kcp_mux.Life.Relation.{Rel, Follows}
use kcp_mux.Life.Changes.{rules, change_conn-Follows, change_stream-Follows}
use kcp_mux.Life.Combinators.{then-Follows, skip-Follows, skip-Follows, then-Follows}
use kcp_mux.Life.Timing.{queue_release-Follows, unregister_timer_node-Follows}
use kcp_mux.Life.Quiet.{clear_pending-Follows}
use kcp_mux.Life.Maps.{remove_conn-Follows, remove_stream-Follows}
use kcp_mux.Life.Forward.{forward, conn_stage, stream_stage}

note_connected-Follows : {r : Rel} {k : ℕ} (c : ℕ) → Follows r k (note_connected c)
unfolding note_connected
note_connected-Follows c = search rules depth 20

ended_stage :
    (s : ConnState)
    → let t = if conn_is s ConnState.error then s else ConnState.closed in
      (conn_stage s ≤ conn_stage t) × (conn_stage s ≡ 4 → t ≡ s)
ended_stage ConnState.init = (omega arith, λ e. absurd (omega arith))
ended_stage ConnState.connecting = (omega arith, λ e. absurd (omega arith))
ended_stage ConnState.connected = (omega arith, λ e. absurd (omega arith))
ended_stage ConnState.closing = (omega arith, λ e. absurd (omega arith))
ended_stage ConnState.closed = (omega arith, λ e. refl)
ended_stage ConnState.error = (omega arith, λ e. refl)

ended_stream_stage :
    (s : StreamState) (p : ClosePhase)
    → let t = if stream_is s StreamState.error then s else StreamState.closed in
      (stream_stage s p ≤ stream_stage t p) × (stream_stage s p ≡ 5 → t ≡ s)
ended_stream_stage StreamState.open_state p = (omega arith, λ e. absurd (omega arith))
ended_stream_stage StreamState.closing p = (ground arith, λ e. ground arith)
ended_stream_stage StreamState.closed p = (omega arith, λ e. refl)
ended_stream_stage StreamState.error p = (omega arith, λ e. refl)

module _ {k : ℕ} where
  mark_conn : (c : ℕ) → Follows forward k (mod_conn c (λ x. record x { internal_closed = true }))
  mark_conn c =
      change_conn-Follows c (λ x. record x { internal_closed = true })
        (λ x. record {
          stage = omega arith;
          final = λ e. refl;
          closed = λ e. refl;
          id = refl;
          initiator = refl;
          addr = refl;
        })

  mark_stream :
      (s : ℕ) → Follows forward k (mod_stream s (λ x. record x { internal_closed = true }))
  mark_stream s =
      change_stream-Follows s (λ x. record x { internal_closed = true })
        (λ x. record {
          stage = omega arith;
          final = λ e. refl;
          closed = λ e. refl;
          id = refl;
          initiator = refl;
          conn = refl;
        })

  end_conn_state :
      (c : ℕ)
      → Follows forward k (
          mod_conn c (λ x. record x {
            state = if conn_is x.state ConnState.error then x.state else ConnState.closed;
          }))
  end_conn_state c =
      change_conn-Follows c
        (λ x. record x {
          state = if conn_is x.state ConnState.error then x.state else ConnState.closed;
        })
        (λ x. record {
          stage = (ended_stage x.state).0;
          final = (ended_stage x.state).1;
          closed = λ e. e;
          id = refl;
          initiator = refl;
          addr = refl;
        })

  end_stream_state :
      (s : ℕ)
      → Follows forward k (
          mod_stream s (λ x. record x {
            kcp = false;
            state = if stream_is x.state StreamState.error then x.state else StreamState.closed;
          }))
  end_stream_state s =
      change_stream-Follows s
        (λ x. record x {
          kcp = false;
          state = if stream_is x.state StreamState.error then x.state else StreamState.closed;
        })
        (λ x. record {
          stage = (ended_stream_stage x.state x.close_phase).0;
          final = (ended_stream_stage x.state x.close_phase).1;
          closed = λ e. e;
          id = refl;
          initiator = refl;
          conn = refl;
        })

  pub end_conn-Follows : (c reason : ℕ) (conn : Conn) → Follows forward k (end_conn c reason conn)
  unfolding end_conn
  end_conn-Follows c reason conn = search (end_conn_state, rules, queue_release-Follows) depth 20

  end_stream-Follows :
      (s reason : ℕ) (stream : Stream) → Follows forward k (end_stream s reason stream)
  unfolding end_stream
  end_stream-Follows s reason stream =
      search (end_stream_state, rules, queue_release-Follows) depth 20

  pub stream_close_internal-Follows :
      (s reason : ℕ) → Follows forward k (stream_close_internal s reason)
  unfolding stream_close_internal
  stream_close_internal-Follows s reason =
      search
        (
          mark_stream, rules, clear_pending-Follows, unregister_timer_node-Follows,
          remove_stream-Follows, end_stream-Follows,
        )
        depth 20

  pub close_streams-Follows :
      (streams : List ℕ) (reason : ℕ) → Follows forward k (close_streams streams reason)
  unfolding close_streams
  close_streams-Follows [] reason = skip-Follows
  close_streams-Follows (s ∷ rest) reason =
      then-Follows (stream_close_internal-Follows s reason) (close_streams-Follows rest reason)

  pub conn_close_internal-Follows :
      (c reason : ℕ) → Follows forward k (conn_close_internal c reason)
  unfolding conn_close_internal
  conn_close_internal-Follows c reason =
      search
        (
          mark_conn, rules, unregister_timer_node-Follows, remove_conn-Follows,
          close_streams-Follows, end_conn-Follows,
        )
        depth 20
