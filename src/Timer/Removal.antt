-- ===== src/Timer/Removal.antt =====
-- Taking a node out of the heap at any slot.
use kcp_mux.Base.{
  ℕ, ◌-◌, ◌<◌, ◌≡◌, ◌≢◌, refl, sym, ◌∙◌, ap, arith, length, take, length-take, get_or-take,
  if◌then◌else◌, update, Bool-cases, ltb, inl, ◌==◌, inr,
}
use kcp_mux.Timer.{Timers, slot, remove_at, set_slot, invalid_index}
use kcp_mux.Timer.Order.{parent, Ordered, Bridged, OrderedOff, NotAfter-trans}
use kcp_mux.Timer.Slots.{Kept, set_slot-Kept, Kept-trans, heap_index-set_slot, slot-set_slot}
use kcp_mux.Timer.WellFormed.{IsPlaced, Scheduled, IsWellFormed, Rearranged-IsPlaced}
use kcp_mux.Timer.Resift.{resift, resift-Rearranged, IsIndexed-IsHole}

-- The manager after `--manager->size`.
abbrev pub shorter : Timers → Timers
shorter t = record t { heap = take (length t.heap - 1) t.heap }

-- The scheduled nodes but the removed one.
abbrev pub Others : Timers → ℕ → ℕ → Type 0
Others t r m = Scheduled t m × (m ≢ r)

-- What the removal of the node at slot `i` leaves.
pub record Removed (t : Timers) (r : ℕ) (u : Timers) : Type 0 where
  pub kept : Kept (shorter t) u
  pub placed : IsPlaced (Others t r) u
  pub ordered : Ordered t.nodes (length t.heap - 1) (slot u)

module _ (t : Timers) (i : ℕ) (w : IsWellFormed t) (lt : i < length t.heap) where
  size : length (shorter t).heap ≡ length t.heap - 1
  size = omega (arith, length-take (length t.heap - 1) t.heap)

  kept_slot : (j : ℕ) → j < length t.heap - 1 → slot (shorter t) j ≡ slot t j
  kept_slot j h = get_or-take (length t.heap - 1) t.heap j 0 h

  index_ne : (j k : ℕ) → j < length t.heap → k < length t.heap → j ≢ k → slot t j ≢ slot t k
  index_ne j k jn kn ne e =
      ne (sym (w.placed.indexed j jn) ∙ ap (λ m. (t.nodes m).heap_index) e ∙ w.placed.indexed k kn)

  -- The last slot is removed, and nothing moves.
  drop_last-Removed : i ≡ length t.heap - 1 → Removed t (slot t i) (shorter t)
  drop_last-Removed e = record {
    kept = record {
      size = refl;
      deadline = λ m. refl;
      sequence = λ m. refl;
      owner = λ m. refl;
      callback = λ m. refl;
      state = λ m. refl;
      capacity = refl;
      next_sequence = refl;
      due = refl;
    };
    placed = record {
      indexed =
          λ j jn. rw (kept_slot j (omega (arith, size))) (w.placed.indexed j (omega (arith, size)));
      held = λ j jn. rw (kept_slot j (omega (arith, size))) (
        w.placed.held j (omega (arith, size)),
        index_ne j i (omega (arith, size)) lt (omega (arith, size)),
      );
      located = λ m h.
          let (l, at) = w.placed.located m h.0 in
          let ne : (t.nodes m).heap_index ≢ i = λ q. h.1 (sym at ∙ ap (slot t) q) in
          let inside : (t.nodes m).heap_index < length t.heap - 1 = omega arith in
          (omega (arith, size), kept_slot _ inside ∙ at);
    };
    ordered = λ c c0 cn.
        rw (kept_slot c cn, kept_slot (parent c) (omega arith)) (w.ordered c c0 (omega arith));
  }

  -- The last node moves into the slot, and the heap is mended around it.
  module _ (inner : i < length t.heap - 1) where
    abbrev last : ℕ
    last = slot t (length t.heap - 1)

    abbrev refilled : Timers
    refilled = set_slot (shorter t) i last

    size_refilled : length refilled.heap ≡ length t.heap - 1
    size_refilled = (set_slot-Kept (shorter t) i last).size ∙ size

    refilled-slot :
        (j : ℕ) → j < length t.heap - 1 → slot refilled j ≡ (if i == j then last else slot t j)
    refilled-slot j jn =
        ground (arith, slot-set_slot (shorter t) i last j (omega (arith, size)), kept_slot j)

    refilled_index :
        (m : ℕ) → (refilled.nodes m).heap_index ≡ (if m == last then i else (t.nodes m).heap_index)
    refilled_index m = heap_index-set_slot (shorter t) i last m

    refilled_state : (m : ℕ) → (refilled.nodes m).state ≡ (t.nodes m).state
    refilled_state m = (set_slot-Kept (shorter t) i last).state m

    refilled-IsPlaced : IsPlaced (Others t (slot t i)) refilled
    refilled-IsPlaced =
        let e = length t.heap - 1 in
        let en : e < length t.heap = omega arith in
        record {
          indexed = λ j jn. ground (
            arith,
            size_refilled,
            refilled-slot j,
            refilled_index (slot refilled j),
            w.placed.indexed j,
            index_ne j e,
          );
          held = λ j jn. ground (
            arith,
            size_refilled,
            refilled-slot j,
            w.placed.held j,
            w.placed.held e,
            index_ne j i,
            index_ne e i,
          );
          located = λ m h.
              let (l, at) = w.placed.located m h.0 in
              let ne : (t.nodes m).heap_index ≢ i = λ q. h.1 (sym at ∙ ap (slot t) q) in
              ground (
                arith,
                size_refilled,
                refilled-slot i,
                refilled-slot (t.nodes m).heap_index,
                refilled_index m,
              );
        }

    refilled-OrderedOff : OrderedOff t.nodes (length t.heap - 1) (slot refilled) i
    refilled-OrderedOff c c0 cn ne ne' =
        ground (arith, refilled-slot c, refilled-slot (parent c), w.ordered c)

    refilled-Bridged : Bridged t.nodes (length t.heap - 1) (slot refilled) i
    refilled-Bridged c c0 cn e p = ground (
      arith,
      refilled-slot c,
      refilled-slot (parent i),
      w.ordered c,
      w.ordered i,
      NotAfter-trans (t.nodes (slot t (parent i))) (t.nodes (slot t i)) (t.nodes (slot t c)),
    )

    mended-Removed : Removed t (slot t i) (resift refilled i)
    mended-Removed =
        let n = length t.heap - 1 in
        let kept = set_slot-Kept (shorter t) i last in
        let hole =
          IsIndexed-IsHole refilled i refilled-IsPlaced.indexed (omega (arith, size_refilled)) in
        let (r, ordered) =
          resift-Rearranged t.nodes n refilled i size_refilled
            (λ m. (kept.deadline m, kept.sequence m)) hole refilled-OrderedOff refilled-Bridged in
        record {
          kept = Kept-trans (shorter t) refilled (resift refilled i) kept r.kept;
          placed =
              Rearranged-IsPlaced (Others t (slot t i)) n refilled (resift refilled i) size_refilled
                refilled-IsPlaced r;
          ordered = ordered;
        }

-- A removed node forgets its slot.
pub forget-Removed :
    (t : Timers) (r index : ℕ) (u : Timers)
    → Removed t r u
    → Removed t r
        (record u { nodes = update u.nodes r (record (u.nodes r) { heap_index = index }) })
forget-Removed t r index u q = record {
  kept = record {
    size = q.kept.size;
    deadline = λ m. ground (arith, q.kept.deadline m);
    sequence = λ m. ground (arith, q.kept.sequence m);
    owner = λ m. ground (arith, q.kept.owner m);
    callback = λ m. ground (arith, q.kept.callback m);
    state = λ m. ground (arith, q.kept.state m);
    capacity = q.kept.capacity;
    next_sequence = q.kept.next_sequence;
    due = q.kept.due;
  };
  placed = record {
    indexed = λ j jn. ground (arith, q.placed.indexed j, q.placed.held j);
    held = q.placed.held;
    located = λ m h. ground (arith, q.placed.located m h);
  };
  ordered = q.ordered;
}

-- The heap of kcpmux_timer_remove_at before the removed node forgets its slot.
abbrev mended : Timers → ℕ → Timers
mended t i =
    if ltb i (length t.heap - 1)
    then resift (set_slot (shorter t) i (slot t (length t.heap - 1))) i
    else shorter t

mended_lem :
    (t : Timers) (i : ℕ) → IsWellFormed t → i < length t.heap → Removed t (slot t i) (mended t i)
mended_lem t i w lt = elim (Bool-cases (ltb i (length t.heap - 1))) [
  | inl inner ↦ rw inner (mended-Removed t i w lt (ground arith))
  | inr end ↦ rw end (drop_last-Removed t i w lt (ground arith))
]

-- kcpmux_timer_remove_at answers the node at the slot, and leaves a heap of the others.
pub remove_at-Removed :
    (t : Timers) (i : ℕ)
    → IsWellFormed t
    → i < length t.heap
    → ((remove_at t i).1 ≡ slot t i) × Removed t (slot t i) (remove_at t i).0
unfolding remove_at
remove_at-Removed t i w lt =
    (refl, forget-Removed t (slot t i) invalid_index (mended t i) (mended_lem t i w lt))
