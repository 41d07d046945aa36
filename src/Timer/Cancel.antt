-- ===== src/Timer/Cancel.antt =====
-- A node that leaves the heap and the due list.
use kcp_mux.Base.{
  ℕ, ◌-◌, ◌⊎◌, ◌≤◌, ◌≡◌, ◌≢◌, refl, arith, List, length, remove, subst, contains-remove,
  remove-Distinct, inl, length-take, inr,
}
use kcp_mux.Timer.{Node, Timers, TimerState, slot, cancel, set_timer_state, less, remove_at}
use kcp_mux.Timer.Order.{Ordered, parent}
use kcp_mux.Timer.WellFormed.{IsPlaced, Scheduled, IsWellFormed, IsDueListed}
use kcp_mux.Timer.Removal.{Others, Removed, remove_at-Removed}

pub same_keys-less :
    (a b a' b' : Node)
    → a'.deadline_ms ≡ a.deadline_ms
    → a'.insertion_sequence ≡ a.insertion_sequence
    → b'.deadline_ms ≡ b.deadline_ms
    → b'.insertion_sequence ≡ b.insertion_sequence
    → less a' b' ≡ less a b
unfolding less
same_keys-less a b a' b' p q r s = ground arith

pub Ordered-keys :
    (ns ns' : ℕ → Node) (n : ℕ) (f : ℕ → ℕ)
    → ((m : ℕ) → (ns' m).deadline_ms ≡ (ns m).deadline_ms)
    → ((m : ℕ) → (ns' m).insertion_sequence ≡ (ns m).insertion_sequence)
    → Ordered ns n f
    → Ordered ns' n f
Ordered-keys ns ns' n f d s h c c0 cn =
    rw
      (same_keys-less (ns (f c)) (ns (f (parent c))) (ns' (f c)) (ns' (f (parent c))) (d _) (s _)
        (d _) (s _))
      (h c c0 cn)

-- A manager whose heap has the scheduled nodes of `t` but `m`.
pub record Without (t : Timers) (m : ℕ) (u : Timers) : Type 0 where
  pub placed : IsPlaced (Others t m) u
  pub ordered : Ordered t.nodes (length u.heap) (slot u)
  pub fits : length u.heap ≤ u.capacity
  pub deadline : (k : ℕ) → (u.nodes k).deadline_ms ≡ (t.nodes k).deadline_ms
  pub sequence : (k : ℕ) → (u.nodes k).insertion_sequence ≡ (t.nodes k).insertion_sequence
  pub state : (k : ℕ) → (u.nodes k).state ≡ (t.nodes k).state

pub Removed-Without :
    (t : Timers) (m : ℕ) (u : Timers) → IsWellFormed t → Removed t m u → Without t m u
Removed-Without t m u w r =
    let size : length u.heap ≡ length t.heap - 1 =
      omega (arith, r.kept.size, length-take (length t.heap - 1) t.heap) in
    record {
      placed = r.placed;
      ordered = rw size r.ordered;
      fits = omega (arith, w.fits, r.kept.capacity);
      deadline = r.kept.deadline;
      sequence = r.kept.sequence;
      state = r.kept.state;
    }

pub unscheduled-Without : (t : Timers) (m : ℕ) → IsWellFormed t → ¬ Scheduled t m → Without t m t
unscheduled-Without t m w h = record {
  placed = record {
    indexed = w.placed.indexed;
    held = λ j jn. (w.placed.held j jn, λ e. h (subst (Scheduled t) e (w.placed.held j jn)));
    located = λ k p. w.placed.located k p.0;
  };
  ordered = w.ordered;
  fits = w.fits;
  deadline = λ k. refl;
  sequence = λ k. refl;
  state = λ k. refl;
}

-- The node takes a state other than HEAP.
abbrev pub settled : Timers → ℕ → TimerState → List ℕ → Timers
settled u m s due = record (set_timer_state u m s) { due = due }

pub settled-IsWellFormed :
    (t : Timers) (m : ℕ) (u : Timers) (s : TimerState) (due : List ℕ)
    → Without t m u
    → s ≢ TimerState.heap
    → IsDueListed (settled u m s due)
    → IsWellFormed (settled u m s due)
settled-IsWellFormed t m u s due r ne listed = record {
  placed = record {
    indexed = λ j jn. ground (arith, r.placed.indexed j);
    held = λ j jn. ground (arith, r.placed.held j, r.state (slot u j));
    located = λ k h. ground (arith, r.placed.located k, r.state k);
  };
  ordered =
      Ordered-keys t.nodes (settled u m s due).nodes (length u.heap) (slot u)
        (λ k. ground (arith, r.deadline k)) (λ k. ground (arith, r.sequence k)) r.ordered;
  fits = r.fits;
  listed = listed;
}

pub TimerState-cases :
    (s : TimerState)
    → (s ≡ TimerState.heap)
      ⊎ (s ≡ TimerState.due)
      ⊎ (s ≡ TimerState.idle)
      ⊎ (s ≡ TimerState.running)
TimerState-cases s = ground arith

-- The due list after a node of state DUE left it, or a node of another state changed.
pub left-IsDueListed :
    (t : Timers) (m : ℕ) (u : Timers) (s : TimerState)
    → IsDueListed t
    → ((k : ℕ) → (u.nodes k).state ≡ (t.nodes k).state)
    → s ≢ TimerState.due
    → IsDueListed (settled u m s (remove t.due m))
left-IsDueListed t m u s l state ne = record {
  due_state = λ k h. ground (arith, contains-remove t.due m k, state k, l.due_state k, l.due_once);
  due_listed =
      λ k h. ground (arith, contains-remove t.due m k, state k, l.due_listed k, l.due_once);
  due_once = remove-Distinct t.due m l.due_once;
}

-- The due list while a node changes between two other states.
pub unlisted-IsDueListed :
    (t : Timers) (m : ℕ) (u : Timers) (s : TimerState)
    → IsDueListed t
    → ((k : ℕ) → (u.nodes k).state ≡ (t.nodes k).state)
    → u.due ≡ t.due
    → (t.nodes m).state ≢ TimerState.due
    → s ≢ TimerState.due
    → IsDueListed (settled u m s u.due)
unlisted-IsDueListed t m u s l state same ne ne' = record {
  due_state = λ k h. ground (arith, state k, l.due_state k);
  due_listed = λ k h. ground (arith, state k, l.due_listed k);
  due_once = rw same l.due_once;
}

-- What a cancellation of `m` does: the manager stays well-formed, `m` is idle, and every other
-- node keeps its state, and all keep their deadlines.
pub record Cancelled (t : Timers) (m : ℕ) (u : Timers) : Type 0 where
  pub well_formed : IsWellFormed u
  pub idle : (u.nodes m).state ≡ TimerState.idle
  pub others : (k : ℕ) → k ≢ m → (u.nodes k).state ≡ (t.nodes k).state
  pub deadlines : (k : ℕ) → (u.nodes k).deadline_ms ≡ (t.nodes k).deadline_ms
  pub sequences : (k : ℕ) → (u.nodes k).insertion_sequence ≡ (t.nodes k).insertion_sequence

settled-Cancelled :
    (t : Timers) (m : ℕ) (u : Timers) (due : List ℕ)
    → Without t m u
    → IsDueListed (settled u m TimerState.idle due)
    → Cancelled t m (settled u m TimerState.idle due)
settled-Cancelled t m u due r l = record {
  well_formed = settled-IsWellFormed t m u TimerState.idle due r (λ e. ground arith) l;
  idle = ground arith;
  others = λ k ne. ground (arith, r.state k);
  deadlines = λ k. ground (arith, r.deadline k);
  sequences = λ k. ground (arith, r.sequence k);
}

-- A node that is not in the heap and not due.
idle-Cancelled :
    (t : Timers) (m : ℕ)
    → IsWellFormed t
    → ¬ Scheduled t m
    → (t.nodes m).state ≢ TimerState.due
    → Cancelled t m (settled t m TimerState.idle t.due)
idle-Cancelled t m w h d =
    settled-Cancelled t m t t.due (unscheduled-Without t m w h)
      (unlisted-IsDueListed t m t TimerState.idle w.listed (λ k. refl) refl d (λ e. ground arith))

-- A node that was taken out of the heap.
Scheduled-Cancelled :
    (t : Timers) (m : ℕ) (u : Timers)
    → IsWellFormed t
    → Scheduled t m
    → Removed t m u
    → Cancelled t m (settled u m TimerState.idle u.due)
Scheduled-Cancelled t m u w h q =
    let v = Removed-Without t m u w q in
    settled-Cancelled t m u u.due v (
      unlisted-IsDueListed t m u TimerState.idle w.listed v.state q.kept.due (λ d. ground arith)
        (λ d. ground arith))

-- kcpmux_timer_cancel of a node in any state keeps the manager well-formed, makes the node idle,
-- and keeps the states of all other nodes and all deadlines.
pub cancel_correct : (t : Timers) (m : ℕ) → IsWellFormed t → Cancelled t m (cancel t m)
unfolding cancel
cancel_correct t m w = elim (TimerState-cases (t.nodes m).state) [
  | inl e ↦
      let (lt, at) = w.placed.located m e in
      let (_, r) = remove_at-Removed t (t.nodes m).heap_index w lt in
      let u = (remove_at t (t.nodes m).heap_index).0 in
      rw e (Scheduled-Cancelled t m u w e (subst (λ x. Removed t x u) at r))
  | inr (inl e) ↦ rw e (
      settled-Cancelled t m t (remove t.due m) (unscheduled-Without t m w (λ d. ground arith))
        (left-IsDueListed t m t TimerState.idle w.listed (λ k. refl) (λ d. ground arith)))
  | inr (inr (inl e)) ↦ rw e (idle-Cancelled t m w (λ d. ground arith) (λ d. ground arith))
  | inr (inr (inr e)) ↦ rw e (idle-Cancelled t m w (λ d. ground arith) (λ d. ground arith))
]
