-- ===== src/Stream/Closing.antt =====
-- kcpmux_stream_close_internal in src/kcpmux_stream.c: the end of a stream.
use kcp_mux.Base.{
  ℕ, ◌≡◌, ◌≢◌, inl, inr, refl, ◌∙◌, ap, arith, [], ◌∷◌, ◌++◌, true, false, ◌==◌, if◌then◌else◌,
  Bool-cases, remove, update, Bool,
}
use kcp_mux.Types.{StreamState, stream_is}
use kcp_mux.World.{World, Conn, Stream, stream_free}
use kcp_mux.Engine.{unregister_timer_node}
use kcp_mux.Engine.Aside.{unregister_timer_node-IsAside}
use kcp_mux.Route.{remove_stream}
use kcp_mux.Stream.{stream_close_internal, clear_pending, end_stream}

-- What removing a stream from its connection does to the streams.
pub record Unlinked (s : ℕ) (w w' : World) : Type 0 where
  pub unlinked : (w'.streams s).in_stream_map ≡ false
  pub kept : w'.streams s ≡ record (w.streams s) { in_stream_map = false }
  pub others : (k : ℕ) → k ≢ s → w'.streams k ≡ w.streams k
  pub releases : w'.engine.pending_release_list ≡ w.engine.pending_release_list
  pub batches : w'.engine.pending_batch_streams ≡ w.engine.pending_batch_streams

remove_stream_lem : (c s : ℕ) (w : World) → Unlinked s w (remove_stream c s w).1
unfolding remove_stream
remove_stream_lem c s w = elim (Bool-cases (w.streams s).in_stream_map) [
  | inl e ↦ rw e (record {
    unlinked = ground arith;
    kept = ground arith;
    others = λ k ne. ground arith;
    releases = refl;
    batches = refl;
  })
  | inr e ↦ rw e (record {
    unlinked = e;
    kept = ap {A = Bool} (λ b. record (w.streams s) { in_stream_map = b }) e;
    others = λ k ne. refl;
    releases = refl;
    batches = refl;
  })
]

-- The state of a stream after its end.
abbrev pub final_state : StreamState → StreamState
final_state s = if stream_is s StreamState.error then s else StreamState.closed

-- What the last part of the end does.
record Finished (s : ℕ) (w w' : World) : Type 0 where
  pub kept :
      w'.streams s ≡ record (w.streams s) { kcp = false; state = final_state (w.streams s).state }
  pub others : (k : ℕ) → k ≢ s → w'.streams k ≡ w.streams k
  pub queued :
      w'.engine.pending_release_list ≡ w.engine.pending_release_list ++ (stream_free s ∷ [])
  pub batches : w'.engine.pending_batch_streams ≡ w.engine.pending_batch_streams

end_stream_lem :
    (s reason : ℕ) (stream : Stream) (w : World) → Finished s w (end_stream s reason stream w).1
unfolding end_stream
end_stream_lem s reason stream w =
    let here : (s == s) ≡ true = ground arith in
    elim (Bool-cases stream.kcp) [
      | inl k ↦ elim (Bool-cases stream.callbacks.stream_close_notify) [
        | inl n ↦
            rw (k, n)
              (record {
                kept = rw here refl;
                others = λ j ne. ground arith;
                queued = refl;
                batches = refl;
              })
        | inr n ↦
            rw (k, n)
              (record {
                kept = rw here refl;
                others = λ j ne. ground arith;
                queued = refl;
                batches = refl;
              })
      ]
      | inr k ↦ elim (Bool-cases stream.callbacks.stream_close_notify) [
        | inl n ↦
            rw (k, n)
              (record {
                kept = rw here refl;
                others = λ j ne. ground arith;
                queued = refl;
                batches = refl;
              })
        | inr n ↦
            rw (k, n)
              (record {
                kept = rw here refl;
                others = λ j ne. ground arith;
                queued = refl;
                batches = refl;
              })
      ]
    ]

-- What the end of stream `s` leaves: the stream is closed and knows that it is, its state is final,
-- it has no KCP instance, is in no map and no batch, and is queued once to be freed; no other
-- stream is touched.
pub record Ended (s : ℕ) (w w' : World) : Type 0 where
  pub closed : (w'.streams s).internal_closed ≡ true
  pub state : (w'.streams s).state ≡ final_state (w.streams s).state
  pub released : (w'.streams s).kcp ≡ false
  pub unlinked : (w'.streams s).in_stream_map ≡ false
  pub others : (k : ℕ) → k ≢ s → w'.streams k ≡ w.streams k
  pub queued :
      w'.engine.pending_release_list ≡ w.engine.pending_release_list ++ (stream_free s ∷ [])
  pub batches : w'.engine.pending_batch_streams ≡ remove w.engine.pending_batch_streams s

abbrev marked : ℕ → World → World
marked s w = record w {
  streams = update w.streams s (record (w.streams s) { internal_closed = true });
}

-- The world before the last part.
abbrev unlinking : ℕ → World → World
unlinking s w =
    (remove_stream (w.streams s).conn s
      (unregister_timer_node s (clear_pending s (marked s w)).1).1).1

close_steps :
    (s reason : ℕ) (w : World)
    → (w.streams s).internal_closed ≡ false
    → stream_close_internal s reason w ≡ end_stream s reason (w.streams s) (unlinking s w)
unfolding stream_close_internal
close_steps s reason w e = rw e refl

close_again :
    (s reason : ℕ) (w : World)
    → (w.streams s).internal_closed ≡ true
    → (stream_close_internal s reason w).1 ≡ w
unfolding stream_close_internal
close_again s reason w e = rw e refl

-- Clearing the batch of a marked stream.
record Cleared (s : ℕ) (w w' : World) : Type 0 where
  pub kept : w'.streams s ≡ record (w.streams s) { internal_closed = true; pending_count = 0 }
  pub others : (k : ℕ) → k ≢ s → w'.streams k ≡ w.streams k
  pub releases : w'.engine.pending_release_list ≡ w.engine.pending_release_list
  pub batches : w'.engine.pending_batch_streams ≡ remove w.engine.pending_batch_streams s

clear_lem : (s : ℕ) (w : World) → Cleared s w (clear_pending s (marked s w)).1
unfolding clear_pending
clear_lem s w =
    let here : (s == s) ≡ true = ground arith in
    record { kept = rw here refl; others = λ j ne. ground arith; releases = refl; batches = refl }

-- kcpmux_stream_close_internal ends a stream that is not closed yet, and does nothing to one that
-- is, so that a stream is queued to be freed once.
pub stream_close_internal_correct :
    (s reason : ℕ) (w : World)
    → ((w.streams s).internal_closed ≡ false → Ended s w (stream_close_internal s reason w).1)
      × ((w.streams s).internal_closed ≡ true → (stream_close_internal s reason w).1 ≡ w)
stream_close_internal_correct s reason w = (
  λ e.
      let cleared = (clear_pending s (marked s w)).1 in
      let unregistered = (unregister_timer_node s cleared).1 in
      let c = clear_lem s w in
      let a = unregister_timer_node-IsAside s cleared in
      let u = remove_stream_lem (w.streams s).conn s unregistered in
      let f = end_stream_lem s reason (w.streams s) (unlinking s w) in
      let before : (unlinking s w).streams s ≡ record (w.streams s) {
        internal_closed = true;
        pending_count = 0;
        in_stream_map = false;
      } =
        u.kept
        ∙ ap {A = Stream} (λ x. record x { in_stream_map = false })
            (ap (λ f. f s) a.streams ∙ c.kept) in
      rw (close_steps s reason w e) (record {
        closed = ap Stream.internal_closed f.kept ∙ ap Stream.internal_closed before;
        state = ap Stream.state f.kept ∙ ap {A = Stream} (λ x. final_state x.state) before;
        released = ap Stream.kcp f.kept;
        unlinked = ap Stream.in_stream_map f.kept ∙ ap Stream.in_stream_map before;
        others = λ k ne. f.others k ne ∙ u.others k ne ∙ ap (λ f. f k) a.streams ∙ c.others k ne;
        queued =
            f.queued ∙ ap (λ l. l ++ (stream_free s ∷ [])) (u.releases ∙ a.releases ∙ c.releases);
        batches = f.batches ∙ u.batches ∙ a.batches ∙ c.batches;
      }),
  close_again s reason w,
)

-- No connection is closed or changes its state.
abbrev pub ConnsKept : World → World → Type 0
ConnsKept w w' =
    (k : ℕ)
    → ((w'.conns k).internal_closed ≡ (w.conns k).internal_closed)
      × ((w'.conns k).state ≡ (w.conns k).state)

remove_stream-ConnsKept : (c s : ℕ) (w : World) → ConnsKept w (remove_stream c s w).1
unfolding remove_stream
remove_stream-ConnsKept c s w k = elim (Bool-cases (w.streams s).in_stream_map) [
  | inl e ↦ rw e (ground arith, ground arith)
  | inr e ↦ rw e (refl, refl)
]

end_stream-ConnsKept :
    (s reason : ℕ) (stream : Stream) (w : World) → ConnsKept w (end_stream s reason stream w).1
unfolding end_stream
end_stream-ConnsKept s reason stream w k = elim (Bool-cases stream.kcp) [
  | inl a ↦ elim (Bool-cases stream.callbacks.stream_close_notify) [
    | inl b ↦ rw (a, b) (refl, refl)
    | inr b ↦ rw (a, b) (refl, refl)
  ]
  | inr a ↦ elim (Bool-cases stream.callbacks.stream_close_notify) [
    | inl b ↦ rw (a, b) (refl, refl)
    | inr b ↦ rw (a, b) (refl, refl)
  ]
]

clear-ConnsKept : (s : ℕ) (w : World) → ConnsKept w (clear_pending s (marked s w)).1
unfolding clear_pending
clear-ConnsKept s w k = (refl, refl)

pub stream_close_internal-ConnsKept :
    (s reason : ℕ) (w : World)
    → (w.streams s).internal_closed ≡ false
    → ConnsKept w (stream_close_internal s reason w).1
stream_close_internal-ConnsKept s reason w e k =
    let cleared = (clear_pending s (marked s w)).1 in
    let unregistered = (unregister_timer_node s cleared).1 in
    let same = ap (λ f. f k) (unregister_timer_node-IsAside s cleared).conns in
    let f = end_stream-ConnsKept s reason (w.streams s) (unlinking s w) k in
    let u = remove_stream-ConnsKept (w.streams s).conn s unregistered k in
    let c = clear-ConnsKept s w k in
    rw (close_steps s reason w e)
      (f.0 ∙ u.0 ∙ ap Conn.internal_closed same ∙ c.0, f.1 ∙ u.1 ∙ ap Conn.state same ∙ c.1)
