-- ===== src/Timer/Schedule.antt =====
-- Scheduling a node: an entry that moves in the heap, or a new entry.
use kcp_mux.Base.{ℕ, ◌≤◌, ◌<◌, ◌≡◌, ◌≢◌, refl, sym, ◌∙◌, arith, length, update}
use kcp_mux.Timer.{Timers, slot}
use kcp_mux.Timer.Order.{Ordered, OrderedOff, Bridged, NotAfter-trans, parent}
use kcp_mux.Timer.Resift.{resift, resift-Rearranged, IsIndexed-IsHole, Rearranged}
use kcp_mux.Timer.WellFormed.{IsPlaced, Scheduled, IsWellFormed, IsDueListed, Rearranged-IsPlaced}
use kcp_mux.Timer.Cancel.{Ordered-keys}

-- The heap was rearranged into order, and all else is as the invariant wants.
pub Rearranged-IsWellFormed :
    (n : ℕ) (t u : Timers)
    → length t.heap ≡ n
    → IsPlaced (Scheduled t) t
    → IsDueListed t
    → n ≤ t.capacity
    → Rearranged n t u
    → Ordered t.nodes n (slot u)
    → IsWellFormed u
Rearranged-IsWellFormed n t u size p l fits r o =
    let q = Rearranged-IsPlaced (Scheduled t) n t u size p r in
    let size' : length u.heap ≡ n = r.kept.size ∙ size in
    record {
      placed = record {
        indexed = q.indexed;
        held = λ j jn. r.kept.state (slot u j) ∙ q.held j jn;
        located = λ k h. q.located k (sym (r.kept.state k) ∙ h);
      };
      ordered =
          rw size' (Ordered-keys t.nodes u.nodes n (slot u) r.kept.deadline r.kept.sequence o);
      fits = omega (arith, size', r.kept.capacity);
      listed = record {
        due_state = λ k h. r.kept.state k ∙ l.due_state k (rw r.kept.due at h);
        due_listed = λ k h. rw r.kept.due (l.due_listed k (sym (r.kept.state k) ∙ h));
        due_once = rw r.kept.due l.due_once;
      };
    }

-- What scheduling `m` for `deadline_ms` does.
pub record Rescheduled (t : Timers) (m deadline_ms : ℕ) (u : Timers) : Type 0 where
  pub well_formed : IsWellFormed u
  pub scheduled : Scheduled u m
  pub deadline : (u.nodes m).deadline_ms ≡ deadline_ms
  pub others :
      (k : ℕ)
      → k ≢ m
      → ((u.nodes k).state ≡ (t.nodes k).state)
        × ((u.nodes k).deadline_ms ≡ (t.nodes k).deadline_ms)

-- The manager with another deadline for a node.
abbrev pub retimed : Timers → ℕ → ℕ → Timers
retimed t m deadline_ms = record t {
  nodes = update t.nodes m (record (t.nodes m) { deadline_ms = deadline_ms });
}

-- A scheduled node gets another deadline.
module _ (t : Timers) (m deadline_ms : ℕ) (w : IsWellFormed t) (here : Scheduled t m) where
  abbrev index : ℕ
  index = (t.nodes m).heap_index

  inside : index < length t.heap
  inside = (w.placed.located m here).0

  at_index : slot t index ≡ m
  at_index = (w.placed.located m here).1

  elsewhere : (j : ℕ) → j < length t.heap → j ≢ index → slot t j ≢ m
  elsewhere j jn ne = ground (arith, w.placed.indexed j)

  retimed-IsPlaced : IsPlaced (Scheduled (retimed t m deadline_ms)) (retimed t m deadline_ms)
  retimed-IsPlaced = record {
    indexed = λ j jn. ground (arith, w.placed.indexed j);
    held = λ j jn. ground (arith, w.placed.held j);
    located = λ k h. ground (arith, w.placed.located k);
  }

  retimed-IsDueListed : IsDueListed (retimed t m deadline_ms)
  retimed-IsDueListed = record {
    due_state = λ k h. ground (arith, w.listed.due_state k);
    due_listed = λ k h. ground (arith, w.listed.due_listed k);
    due_once = w.listed.due_once;
  }

  same_node :
      (j : ℕ)
      → j < length t.heap
      → j ≢ index
      → (retimed t m deadline_ms).nodes (slot t j) ≡ t.nodes (slot t j)
  same_node j jn ne = ground (arith, elsewhere j)

  retimed-OrderedOff : OrderedOff (retimed t m deadline_ms).nodes (length t.heap) (slot t) index
  retimed-OrderedOff c c0 cn ne ne' =
      rw (same_node c cn ne, same_node (parent c) (omega arith) ne') (w.ordered c c0 cn)

  retimed-Bridged : Bridged (retimed t m deadline_ms).nodes (length t.heap) (slot t) index
  retimed-Bridged c c0 cn e p =
      rw
        (
          same_node (parent index) (omega (arith, inside)) (omega arith),
          same_node c cn (omega arith),
        )
        (NotAfter-trans (t.nodes (slot t (parent index))) (t.nodes (slot t index))
          (t.nodes (slot t c)) (w.ordered index p inside) (rw e at (w.ordered c c0 cn)))

  pub retimed-Rescheduled : Rescheduled t m deadline_ms (resift (retimed t m deadline_ms) index)
  retimed-Rescheduled =
      let (r, o) =
        resift-Rearranged (retimed t m deadline_ms).nodes (length t.heap) (retimed t m deadline_ms)
          index refl (λ k. (refl, refl))
          (IsIndexed-IsHole (retimed t m deadline_ms) index retimed-IsPlaced.indexed inside)
          retimed-OrderedOff retimed-Bridged in
      record {
        well_formed =
            Rearranged-IsWellFormed (length t.heap) (retimed t m deadline_ms)
              (resift (retimed t m deadline_ms) index) refl retimed-IsPlaced retimed-IsDueListed
              w.fits r o;
        scheduled = r.kept.state m ∙ ground arith;
        deadline = r.kept.deadline m ∙ ground arith;
        others = λ k ne. (r.kept.state k ∙ ground arith, r.kept.deadline k ∙ ground arith);
      }
