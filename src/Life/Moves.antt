-- ===== src/Life/Moves.antt =====
-- The changes of state in src/kcpmux_conn.c and src/kcpmux_stream.c: each is forward where the
-- code makes it.
use kcp_mux.Base.{ℕ, ◌≤◌, ◌<◌, ◌≡◌, refl, arith, true, false, not, ◌&&◌, Bool, subst}
use kcp_mux.Types.{ConnState, StreamState, ClosePhase, phase_is}
use kcp_mux.World.{World, Conn, Stream, mod_stream}
use kcp_mux.Conn.{enter_state, conn_set_state, note_connected}
use kcp_mux.Stream.{
  enter_stream_state, send_drained, stream_set_state, schedule_finalize, advance_local_close,
}
use kcp_mux.Life.Relation.{Rel, Follows}
use kcp_mux.Life.Changes.{rules, change_stream-Follows}
use kcp_mux.Life.At.{At, At-Follows, at_rules}
use kcp_mux.Life.Timing.{schedule_timer_node-Follows}
use kcp_mux.Life.Quiet.{
  conn_refresh_timer-Follows, clear_pending-Follows, stream_refresh_timer-Follows,
  stream_send_close-Follows,
}
use kcp_mux.Life.Ends.{stream_close_internal-Follows}
use kcp_mux.Life.Forward.{forward, conn_stage, stream_stage, IsForwardConn, IsForwardStream}

module _ {r : Rel} {k : ℕ} where
  note_connected-Follows : (c : ℕ) → Follows r k (note_connected c)
  unfolding note_connected
  note_connected-Follows c = search rules depth 20

  pub enter_state-Follows :
      (c : ℕ) (old_state new_state : ConnState) (notified : Bool)
      → Follows r k (enter_state c old_state new_state notified)
  unfolding enter_state
  enter_state-Follows c old_state new_state notified =
      search (rules, note_connected-Follows, conn_refresh_timer-Follows) depth 20

  pub enter_stream_state-Follows :
      (s : ℕ) (old_state new_state : StreamState) (notified : Bool)
      → Follows r k (enter_stream_state s old_state new_state notified)
  unfolding enter_stream_state
  enter_stream_state-Follows s old_state new_state notified =
      search (rules, stream_refresh_timer-Follows) depth 20

finalize_stage :
    (s : StreamState) (p : ClosePhase) → stream_stage s p ≤ stream_stage s ClosePhase.finalize
finalize_stage StreamState.open_state p = omega arith
finalize_stage StreamState.closing p = ground arith
finalize_stage StreamState.closed p = omega arith
finalize_stage StreamState.error p = omega arith

second_true : (a b : Bool) → a && b ≡ true → b ≡ true
second_true true b e = e
second_true false b e = absurd (ground arith)

wait_ack_stage :
    (s : StreamState) (p : ClosePhase)
    → phase_is p ClosePhase.local_drain ≡ true
    → stream_stage s p ≤ stream_stage s ClosePhase.wait_ack
wait_ack_stage StreamState.open_state p e = omega arith
wait_ack_stage StreamState.closing p e = ground arith
wait_ack_stage StreamState.closed p e = omega arith
wait_ack_stage StreamState.error p e = omega arith

-- The end of the local drain.
drained :
    (y x : Stream)
    → y ≡ x
    → (not y.internal_closed && phase_is y.close_phase ClosePhase.local_drain) ≡ true
    → IsForwardStream x (record x { close_phase = ClosePhase.wait_ack; retry_count = 0 })
drained y x same e = record {
  stage = wait_ack_stage x.state x.close_phase (
      subst (λ z. phase_is z.close_phase ClosePhase.local_drain ≡ true) same
        (second_true (not y.internal_closed) _ e));
  final = λ e. refl;
  closed = λ e. e;
  id = refl;
  initiator = refl;
  conn = refl;
}

stage_max : (s : ConnState) → conn_stage s ≤ 4
stage_max s = ground arith

-- A state that comes later.
later_conn :
    (x : Conn) (s : ConnState)
    → conn_stage x.state < conn_stage s
    → IsForwardConn x (record x { state = s })
later_conn x s lt = record {
  stage = omega arith;
  final = λ e. absurd (omega (arith, stage_max s));
  closed = λ e. e;
  id = refl;
  initiator = refl;
  addr = refl;
}

module _ {k : ℕ} {w : World} where
  pub conn_set_state-At :
      (c : ℕ) (s : ConnState)
      → (c < k → conn_stage (w.conns c).state < conn_stage s)
      → At forward k w (conn_set_state c s)
  unfolding conn_set_state
  conn_set_state-At c s lt = search (at_rules, later_conn, enter_state-Follows) depth 20

  pub stream_set_state-At :
      (a : ℕ) (s : StreamState)
      → (a < k → IsForwardStream (w.streams a) (record (w.streams a) { state = s }))
      → At forward k w (stream_set_state a s)
  unfolding stream_set_state
  stream_set_state-At a s forwards = search (at_rules, enter_stream_state-Follows) depth 20

module _ {k : ℕ} where
  finalized-Follows :
      (s reason : ℕ)
      → Follows forward k (
          mod_stream s (λ x. record x { close_reason = reason; close_phase = ClosePhase.finalize }))
  finalized-Follows s reason =
      change_stream-Follows s
        (λ x. record x { close_reason = reason; close_phase = ClosePhase.finalize })
        (λ x. record {
          stage = finalize_stage x.state x.close_phase;
          final = λ e. refl;
          closed = λ e. e;
          id = refl;
          initiator = refl;
          conn = refl;
        })

  pub schedule_finalize-Follows :
      (s reason t : ℕ) → Follows forward k (schedule_finalize s reason t)
  unfolding schedule_finalize
  schedule_finalize-Follows s reason t =
      search (finalized-Follows, rules, clear_pending-Follows, schedule_timer_node-Follows) depth 20

  send_drained-Follows : (s close_retries : ℕ) → Follows forward k (send_drained s close_retries)
  unfolding send_drained
  send_drained-Follows s close_retries =
      search (rules, stream_send_close-Follows, stream_close_internal-Follows) depth 20

  pub advance_local_close-Follows : (s : ℕ) → Follows forward k (advance_local_close s)
  unfolding advance_local_close
  advance_local_close-Follows s =
      At-Follows (λ w. search (at_rules, drained, send_drained-Follows) depth 20)
