-- ===== src/Timer/Insert.antt =====
-- The insertion of a node into the heap.
use kcp_mux.Base.{
  ℕ, ◌+◌, ◌≢◌, ◌++◌, ◌∷◌, [], ◌==◌, get_or-append, get_or-append_last, ◌≤◌, ◌<◌, ◌≡◌, refl, ◌∙◌,
  arith, length, if◌then◌else◌, length-append, update, u64, ◌==◌, get_or-append,
}
use kcp_mux.Timer.{Timers, TimerState, slot, set_slot, sift_up}
use kcp_mux.Timer.Order.{OrderedOff, Bridged, parent}
use kcp_mux.Timer.Slots.{set_slot-Kept, slot-set_slot}
use kcp_mux.Timer.Resift.{sift_up-Risen, IsIndexed-IsHole, Sifted-Rearranged}
use kcp_mux.Timer.WellFormed.{IsPlaced, Scheduled, IsDueListed}
use kcp_mux.Timer.Cancel.{Without, settled, same_keys-less}
use kcp_mux.Timer.Schedule.{Rearranged-IsWellFormed, Rescheduled}

-- The manager whose array has one more entry.
abbrev lengthened : Timers → ℕ → ℕ → Timers
lengthened v m deadline_ms = record v {
  nodes = update v.nodes m (record (v.nodes m) {
    deadline_ms = deadline_ms;
    insertion_sequence = v.next_sequence;
    state = TimerState.heap;
  });
  next_sequence = u64 (v.next_sequence + 1);
  heap = v.heap ++ (m ∷ []);
}

-- The manager before the new entry rises.
abbrev pub with_entry : Timers → ℕ → ℕ → Timers
with_entry v m deadline_ms = set_slot (lengthened v m deadline_ms) (length v.heap) m

-- `v` is the manager with room for one more, and `m` is in neither list.
module _ (t : Timers) (m deadline_ms : ℕ) (v : Timers) (w : Without t m v)
    (room : length v.heap + 1 ≤ v.capacity)
    (l : IsDueListed (settled v m TimerState.heap v.due)) where
  abbrev size : ℕ
  size = length v.heap

  abbrev extended : Timers
  extended = lengthened v m deadline_ms

  abbrev appended : Timers
  appended = with_entry v m deadline_ms

  size_extended : length extended.heap ≡ size + 1
  size_extended = length-append v.heap (m ∷ [])

  size_appended : length appended.heap ≡ size + 1
  size_appended = (set_slot-Kept extended size m).size ∙ size_extended

  appended_slot : (j : ℕ) → j < size + 1 → slot appended j ≡ (if size == j then m else slot v j)
  appended_slot j jn = ground (
    arith,
    slot-set_slot extended size m j (omega (arith, size_extended)),
    get_or-append v.heap (m ∷ []) j 0,
    get_or-append_last v.heap m 0,
  )

  appended_node :
      (k : ℕ)
      → ((appended.nodes k).state ≡ (if k == m then TimerState.heap else (v.nodes k).state))
        × ((appended.nodes k).deadline_ms
            ≡ (if k == m then deadline_ms else (v.nodes k).deadline_ms))
        × ((appended.nodes k).heap_index ≡ (if k == m then size else (v.nodes k).heap_index))
        × (k ≢ m → (appended.nodes k).insertion_sequence ≡ (v.nodes k).insertion_sequence)
  unfolding set_slot
  appended_node k = ground arith

  appended-IsPlaced : IsPlaced (Scheduled appended) appended
  appended-IsPlaced = record {
    indexed = λ j jn. ground (
      arith,
      size_appended,
      appended_slot j,
      appended_node (slot appended j),
      w.placed.indexed j,
      w.placed.held j,
    );
    held = λ j jn. ground (
      arith,
      size_appended,
      appended_slot j,
      appended_node (slot appended j),
      w.placed.held j,
      w.state (slot v j),
    );
    located = λ k h. ground (
      arith,
      size_appended,
      appended_slot (appended.nodes k).heap_index,
      appended_node k,
      w.placed.located k,
      w.state k,
    );
  }

  appended-IsDueListed : IsDueListed appended
  unfolding set_slot
  appended-IsDueListed = record {
    due_state = λ k h. ground (arith, l.due_state k);
    due_listed = λ k h. ground (arith, l.due_listed k);
    due_once = l.due_once;
  }

  same_keys :
      (j : ℕ)
      → j < size
      → ((appended.nodes (slot appended j)).deadline_ms ≡ (t.nodes (slot v j)).deadline_ms)
        × ((appended.nodes (slot appended j)).insertion_sequence
            ≡ (t.nodes (slot v j)).insertion_sequence)
  same_keys j jn = ground (
    arith,
    appended_slot j,
    appended_node (slot appended j),
    w.placed.held j,
    w.deadline (slot v j),
    w.sequence (slot v j),
  )

  appended-OrderedOff : OrderedOff appended.nodes (size + 1) (slot appended) size
  appended-OrderedOff c c0 cn ne ne' =
      rw
        (same_keys-less (t.nodes (slot v c)) (t.nodes (slot v (parent c)))
          (appended.nodes (slot appended c)) (appended.nodes (slot appended (parent c)))
          (same_keys c (omega arith)).0 (same_keys c (omega arith)).1
          (same_keys (parent c) (omega arith)).0 (same_keys (parent c) (omega arith)).1)
        (w.ordered c c0 (omega arith))

  appended-Bridged : Bridged appended.nodes (size + 1) (slot appended) size
  appended-Bridged c c0 cn e p = absurd (omega arith)

  pub appended-Rescheduled : Rescheduled t m deadline_ms (sift_up appended size).0
  unfolding set_slot
  appended-Rescheduled =
      let n = size + 1 in
      let u = (sift_up appended size).0 in
      let up =
        sift_up-Risen appended.nodes n appended size size_appended (λ k. (refl, refl))
          (IsIndexed-IsHole appended size appended-IsPlaced.indexed (omega (arith, size_appended)))
          appended-OrderedOff appended-Bridged in
      let at : slot appended size ≡ m = ground (arith, appended_slot size) in
      let below = up.below (λ c c0 cn e. absurd (omega arith)) in
      let kept = up.sifted.kept in
      record {
        well_formed =
            Rearranged-IsWellFormed n appended u size_appended appended-IsPlaced
              appended-IsDueListed room
              (Sifted-Rearranged n appended size (slot appended size) u refl up.sifted)
              (λ c c0 cn. ground (arith, up.above c, below c));
        scheduled = ground (arith, kept.state m, appended_node m);
        deadline = ground (arith, kept.deadline m, appended_node m);
        others = λ k ne.
            ground (arith, kept.state k, kept.deadline k, appended_node k, w.state k, w.deadline k);
      }
