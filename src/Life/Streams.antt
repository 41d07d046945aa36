-- ===== src/Life/Streams.antt =====
-- The operations of src/kcpmux_stream.c: streams only go forward, whatever happens to them.
use kcp_mux.Base.{
  ◌+◌, ap, ◌<◌, ◌∙◌, sym, arith, ℕ, ◌==◌, ◌≤◌, ◌≡◌, refl, true, Bool, Option, List, inr, u32,
}
use kcp_mux.Types.{StreamState, ClosePhase}
use kcp_mux.Config.{StreamConfig}
use kcp_mux.World.{Host, World, Stream, StreamCallbacks, mod_stream}
use kcp_mux.StreamLife.{
  draining, drain_or_end, open_stream, init_stream, stream_new, create_checked, begin_local_close,
  close_by_state, stream_set_config, stream_set_callbacks,
}
use kcp_mux.StreamPeer.{
  remotely_closed, finalize_read, resume_reads, handle_payload, peer_close_closing, peer_close_open,
  peer_close_normal, handle_close,
}
use kcp_mux.StreamUpdate.{
  resume_writes, update_open, update_closing, update_by_state, stream_update,
}
use kcp_mux.Life.Combinators.{skip-Follows}
use kcp_mux.Life.Relation.{Rel, Follows}
use kcp_mux.Life.Changes.{rules, change_stream-Follows}
use kcp_mux.Life.At.{
  ask-At, mod_stream-At, quiet-At, At, At-Follows, Follows-At, at_rules, step-At, next-At, then-At,
}
use kcp_mux.Life.Timing.{
  register_timer_node-Follows, schedule_timer_node-Follows, cancel_timer_node-Follows,
}
use kcp_mux.Life.Quiet
use kcp_mux.Life.Maps.{add_stream-Follows, alloc_stream_id-Follows}
use kcp_mux.Life.Ends.{stream_close_internal-Follows}
use kcp_mux.Life.Moves.{schedule_finalize-Follows, advance_local_close-Follows, stream_set_state-At}
use kcp_mux.Life.Fresh.{
  IsNew-pos, null-IsNew, Makes, return-Makes, bind-Makes, then-Makes, if-Makes, option-Makes,
  made-Follows, made-Makes, alloc_address-Makes, new_stream-Follows, discard-Makes,
}
use kcp_mux.Life.Forward.{stream_stage, forward, IsForwardStream}

module _ {r : Rel} {k : ℕ} where
  open_stream-Makes : (s : ℕ) → k ≤ s → Makes r k (open_stream s)
  unfolding open_stream
  open_stream-Makes s h =
      search
        (
          bind-Makes, then-Makes, return-Makes, inr, new_stream-Follows, rules,
          Quiet.mark_read_blocked-Follows, Quiet.stream_refresh_timer-Follows,
        )
        depth 20

  init_stream-Makes :
      (s c stream_id : ℕ) (source : StreamConfig) (is_initiator : Bool)
      → k ≤ s
      → Makes r k (init_stream s c stream_id source is_initiator)
  unfolding init_stream
  init_stream-Makes s c stream_id source is_initiator h =
      search
        (
          discard-Makes, bind-Makes, then-Makes, if-Makes, option-Makes, return-Makes, null-IsNew,
          new_stream-Follows, rules, open_stream-Makes, register_timer_node-Follows,
        )
        depth 20

  pub stream_new-Makes :
      (c stream_id : ℕ) (config : Option StreamConfig) (is_initiator : Bool)
      → Makes r k (stream_new c stream_id config is_initiator)
  unfolding stream_new
  stream_new-Makes c stream_id config is_initiator =
      search
        (
          made-Makes, bind-Makes, then-Makes, if-Makes, return-Makes, null-IsNew, rules,
          alloc_address-Makes, init_stream-Makes, IsNew-pos,
        )
        depth 20

  pub create_checked-Follows :
      (c : ℕ) (config : Option StreamConfig) (callbacks : Option StreamCallbacks) (user_data : ℕ)
      → Follows r k (create_checked c config callbacks user_data)
  unfolding create_checked
  create_checked-Follows c config callbacks user_data =
      search (made-Follows, rules, alloc_stream_id-Follows, stream_new-Makes, add_stream-Follows)
        depth 20

  pub stream_set_config-Follows :
      (s : ℕ) (config : StreamConfig) → Follows r k (stream_set_config s config)
  unfolding stream_set_config
  stream_set_config-Follows s config =
      search (rules, Quiet.clear_pending-Follows, Quiet.stream_refresh_timer-Follows) depth 20

  pub stream_set_callbacks-Follows :
      (s : ℕ) (callbacks : Option StreamCallbacks) (user_data : ℕ)
      → Follows r k (stream_set_callbacks s callbacks user_data)
  unfolding stream_set_callbacks
  stream_set_callbacks-Follows s callbacks user_data = search rules depth 20

  resume_writes-Follows : (s t : ℕ) → Follows r k (resume_writes s t)
  unfolding resume_writes
  resume_writes-Follows s t = search rules depth 20

  update_open-Follows : (s t : ℕ) → Follows r k (update_open s t)
  unfolding update_open
  update_open-Follows s t =
      search
        (
          rules, Quiet.clear_pending-Follows, Quiet.kcp_update-Follows, resume_writes-Follows,
          schedule_timer_node-Follows,
        )
        depth 20

  resume_reads-Follows : (s t : ℕ) → Follows r k (resume_reads s t)
  unfolding resume_reads
  resume_reads-Follows s t = search rules depth 20

  pub handle_payload-Follows : (s : ℕ) (buf : List ℕ) (t : ℕ) → Follows r k (handle_payload s buf t)
  unfolding handle_payload
  handle_payload-Follows s buf t =
      search (rules, Quiet.accumulate_update-Follows, resume_reads-Follows) depth 20

-- The stream was open and is, so it may have any close phase.
still_open :
    (x y : Stream)
    → x.state ≡ StreamState.open_state
    → y.state ≡ StreamState.open_state
    → y.stream_id ≡ x.stream_id
    → y.is_initiator ≡ x.is_initiator
    → y.conn ≡ x.conn
    → (x.internal_closed ≡ true → y.internal_closed ≡ true)
    → IsForwardStream x y
still_open x y p q id initiator conn closed = record {
  stage = rw (p, q) (omega arith);
  final = λ e. q ∙ sym p;
  closed = closed;
  id = id;
  initiator = initiator;
  conn = conn;
}

closes :
    (x : Stream)
    → x.state ≡ StreamState.open_state
    → IsForwardStream x (record x { state = StreamState.closing })
closes x p = record {
  stage = rw p (omega arith);
  final = λ e. absurd (not_final x.state x.close_phase p e);
  closed = λ e. e;
  id = refl;
  initiator = refl;
  conn = refl;
}
  where
    not_final :
        (s : StreamState) (q : ClosePhase) → s ≡ StreamState.open_state → ¬ (stream_stage s q ≡ 5)
    not_final s q h e = ground arith

here_open :
    (s : ℕ) (f : Stream → Stream) (w : World)
    → (f (w.streams s)).state ≡ StreamState.open_state
    → ((mod_stream s f w).1.streams s).state ≡ StreamState.open_state
here_open s f w e = let here : (s == s) ≡ true = ground arith in rw here e

count_stream_retry :
    {k : ℕ} (s : ℕ)
    → Follows forward k (mod_stream s (λ x. record x { retry_count = u32 (x.retry_count + 1) }))
count_stream_retry s =
    change_stream-Follows s (λ x. record x { retry_count = u32 (x.retry_count + 1) })
      (λ x. record {
        stage = omega arith;
        final = λ e. refl;
        closed = λ e. e;
        id = refl;
        initiator = refl;
        conn = refl;
      })

module _ {k : ℕ} where
  update_closing-Follows :
      (phase : ClosePhase) (s t : ℕ) → Follows forward k (update_closing phase s t)
  unfolding update_closing
  update_closing-Follows ClosePhase.none s t = search rules depth 20
  update_closing-Follows ClosePhase.local_drain s t =
      search
        (
          rules, Quiet.clear_pending-Follows, Quiet.kcp_update-Follows, advance_local_close-Follows,
          Quiet.stream_send_close-Follows, stream_close_internal-Follows,
          Quiet.stream_refresh_timer-Follows,
        )
        depth 20
  update_closing-Follows ClosePhase.wait_ack s t =
      search
        (count_stream_retry, rules, Quiet.stream_send_close-Follows, stream_close_internal-Follows)
        depth 20
  update_closing-Follows ClosePhase.remote_drain s t =
      search (rules, stream_close_internal-Follows) depth 20
  update_closing-Follows ClosePhase.finalize s t =
      search (rules, stream_close_internal-Follows) depth 20

  update_by_state-Follows :
      (state : StreamState) (s t : ℕ) → Follows forward k (update_by_state state s t)
  unfolding update_by_state
  update_by_state-Follows StreamState.open_state s t = update_open-Follows s t
  update_by_state-Follows StreamState.closing s t = search (rules, update_closing-Follows) depth 20
  update_by_state-Follows StreamState.closed s t = cancel_timer_node-Follows s t
  update_by_state-Follows StreamState.error s t = cancel_timer_node-Follows s t

  pub stream_update-Follows : (s t : ℕ) → Follows forward k (stream_update s t)
  unfolding stream_update
  stream_update-Follows s t = search (rules, update_by_state-Follows) depth 20

  peer_close_closing-Follows :
      (phase : ClosePhase) (s reason t : ℕ)
      → Follows forward k (peer_close_closing phase s reason t)
  unfolding peer_close_closing
  peer_close_closing-Follows ClosePhase.none s reason t = search rules depth 20
  peer_close_closing-Follows ClosePhase.local_drain s reason t =
      search (rules, Quiet.stream_send_close_ack-Follows, schedule_finalize-Follows) depth 20
  peer_close_closing-Follows ClosePhase.wait_ack s reason t =
      search (rules, Quiet.stream_send_close_ack-Follows, schedule_finalize-Follows) depth 20
  peer_close_closing-Follows ClosePhase.remote_drain s reason t =
      search (rules, Quiet.stream_send_close_ack-Follows) depth 20
  peer_close_closing-Follows ClosePhase.finalize s reason t =
      search (rules, Quiet.stream_send_close_ack-Follows) depth 20

  drain_or_end-Follows : (s t : ℕ) → Follows forward k (drain_or_end s t)
  unfolding drain_or_end
  drain_or_end-Follows s t =
      search
        (
          rules, stream_close_internal-Follows, schedule_timer_node-Follows,
          advance_local_close-Follows,
        )
        depth 20

  finalize_read-Follows : (s reason t : ℕ) → Follows forward k (finalize_read s reason t)
  unfolding finalize_read
  finalize_read-Follows s reason t = search (rules, schedule_finalize-Follows) depth 20

  begin_local_close-At :
      {w : World} (s : ℕ)
      → (s < k → (w.streams s).state ≡ StreamState.open_state)
      → At forward k w (begin_local_close s)
  unfolding begin_local_close
  begin_local_close-At {w = w} s e = step-At (ask-At Host.monotonic_time_ms) (λ t _.
      next-At
        (mod_stream-At s (draining t)
          (λ below. still_open _ _ (e below) (e below) refl refl refl (λ h. h)))
        (then-At
          (stream_set_state-At s StreamState.closing
            (λ below. closes _ (here_open s (draining t) w (e below))))
          (drain_or_end-Follows s t)))

  peer_close_open-At :
      {w : World} (s reason t : ℕ)
      → (s < k → (w.streams s).state ≡ StreamState.open_state)
      → At forward k w (peer_close_open s reason t)
  unfolding peer_close_open
  peer_close_open-At {w = w} s reason t e =
      quiet-At (Quiet.stream_send_close_ack-Follows s reason) (λ v _ q.
        let same_state : s < k → (v.streams s).state ≡ StreamState.open_state =
          λ below. (q.streams s below).state ∙ e below in
        next-At
          (mod_stream-At s (remotely_closed reason t)
            (λ below. still_open _ _ (same_state below) (same_state below) refl refl refl (λ h. h)))
          (then-At
            (stream_set_state-At s StreamState.closing
              (λ below. closes _ (here_open s (remotely_closed reason t) v (same_state below))))
            (finalize_read-Follows s reason t)))

  closing-Follows : (s : ℕ) → Follows forward k (close_by_state StreamState.closing s)
  unfolding close_by_state
  closing-Follows s = search (rules, schedule_finalize-Follows) depth 20

  pub close_by_state-At :
      {w : World} (state : StreamState) (s : ℕ)
      → (s < k → (w.streams s).state ≡ state)
      → At forward k w (close_by_state state s)
  unfolding close_by_state
  close_by_state-At StreamState.open_state s e = begin_local_close-At s e
  close_by_state-At StreamState.closing s e = Follows-At (closing-Follows s)
  close_by_state-At StreamState.closed s e = Follows-At skip-Follows
  close_by_state-At StreamState.error s e = Follows-At skip-Follows

  peer_close_normal-At :
      {w : World} (state : StreamState) (s reason : ℕ)
      → (s < k → (w.streams s).state ≡ state)
      → At forward k w (peer_close_normal state s reason)
  unfolding peer_close_normal
  peer_close_normal-At StreamState.open_state s reason e =
      step-At (ask-At Host.monotonic_time_ms) (λ t _. peer_close_open-At s reason t e)
  peer_close_normal-At StreamState.closing s reason e =
      Follows-At (search (rules, peer_close_closing-Follows) depth 20)
  peer_close_normal-At StreamState.closed s reason e = Follows-At (search rules depth 20)
  peer_close_normal-At StreamState.error s reason e = Follows-At (search rules depth 20)

  -- The state that was read is the state.
  pub read_state : (s : ℕ) (a b : Stream) → a ≡ b → s < k → b.state ≡ a.state
  read_state s a b e below = ap Stream.state (sym e)

  pub handle_close-Follows : (s reason : ℕ) → Follows forward k (handle_close s reason)
  unfolding handle_close
  handle_close-Follows s reason = At-Follows (λ w.
      search
        (
          at_rules, peer_close_normal-At, read_state, Follows-At, rules,
          Quiet.stream_send_close_ack-Follows, stream_close_internal-Follows,
        )
        depth 20)
