-- ===== src/Timer/WellFormed.antt =====
-- The invariant of the timer manager, and what the root of its heap is.
use native.Mathlib.Nat.{le_refl}
use kcp_mux.Base.{
  ℕ, zero, suc, ◌≤◌, ◌<◌, ◌≡◌, sym, ◌∙◌, ap, true, arith, length, contains, Distinct, none, some,
  subst,
}
use kcp_mux.Timer.{Node, Timers, TimerState, slot, peek}
use kcp_mux.Timer.Order.{parent, NotAfter, NotAfter-trans, NotAfter-refl, Ordered}
use kcp_mux.Timer.Resift.{IsIndexed, Rearranged}

-- The heap holds exactly the nodes of `In`, each at its index.
pub record IsPlaced (In : ℕ → Type 0) (t : Timers) : Type 0 where
  pub indexed : IsIndexed t
  pub held : (j : ℕ) → j < length t.heap → In (slot t j)
  pub located :
      (m : ℕ)
      → In m
      → ((t.nodes m).heap_index < length t.heap) × (slot t (t.nodes m).heap_index ≡ m)

pub Rearranged-IsPlaced :
    (In : ℕ → Type 0) (n : ℕ) (t u : Timers)
    → length t.heap ≡ n
    → IsPlaced In t
    → Rearranged n t u
    → IsPlaced In u
Rearranged-IsPlaced In n t u size p r =
    let size' : length u.heap ≡ n = r.kept.size ∙ size in
    record {
      indexed = λ j lt. r.indexed j (omega arith);
      held = λ j lt.
          (let (k, kn, e) = r.from j (omega arith) in subst In (sym e) (p.held k (omega arith)));
      located = λ m h.
          let (lt, at) = p.located m h in
          let (k, kn, e) = r.into (t.nodes m).heap_index (omega arith) in
          let here : slot u k ≡ m = sym e ∙ at in
          let index : (u.nodes m).heap_index ≡ k =
            ap (λ x. (u.nodes x).heap_index) (sym here) ∙ r.indexed k kn in
          rw index (omega arith, here);
    }

abbrev pub Scheduled : Timers → ℕ → Type 0
Scheduled t m = (t.nodes m).state ≡ TimerState.heap

-- The due list holds exactly the nodes in state DUE, each once.
pub record IsDueListed (t : Timers) : Type 0 where
  pub due_state : (m : ℕ) → contains t.due m ≡ true → (t.nodes m).state ≡ TimerState.due
  pub due_listed : (m : ℕ) → (t.nodes m).state ≡ TimerState.due → contains t.due m ≡ true
  pub due_once : Distinct t.due

-- The heap holds exactly the nodes in state HEAP, each at its index, in heap order and within the
-- allocated array.
pub record IsWellFormed (t : Timers) : Type 0 where
  pub placed : IsPlaced (Scheduled t) t
  pub ordered : Ordered t.nodes (length t.heap) (slot t)
  pub fits : length t.heap ≤ t.capacity
  pub listed : IsDueListed t

pub root_least :
    (ns : ℕ → Node) (n : ℕ) (f : ℕ → ℕ) (fuel i : ℕ)
    → Ordered ns n f
    → i < fuel
    → i < n
    → NotAfter (ns (f 0)) (ns (f i))
root_least ns n f zero i h lt inside = absurd (omega arith)
root_least ns n f (suc fuel) zero h lt inside = NotAfter-refl (ns (f 0))
root_least ns n f (suc fuel) (suc i) h lt inside =
    NotAfter-trans (ns (f 0)) (ns (f (parent (suc i)))) (ns (f (suc i)))
      (root_least ns n f fuel (parent (suc i)) h (omega arith) (omega arith))
      (h (suc i) (omega arith) inside)

pub peek-some : (t : Timers) (r : ℕ) → peek t ≡ some r → (0 < length t.heap) × (slot t 0 ≡ r)
unfolding peek
peek-some t r e = ground arith

pub peek-none : (t : Timers) → peek t ≡ none → length t.heap ≡ 0
unfolding peek
peek-none t e = ground arith

-- In a well-formed manager kcpmux_timer_peek answers a scheduled node that no scheduled node
-- precedes, by deadline and then by insertion, and answers NULL only when no node is scheduled.
pub peek_correct :
    (t : Timers)
    → IsWellFormed t
    → ((r : ℕ)
        → peek t ≡ some r
        → Scheduled t r × ((m : ℕ) → Scheduled t m → NotAfter (t.nodes r) (t.nodes m)))
      × (peek t ≡ none → (m : ℕ) → ¬ Scheduled t m)
peek_correct t w = (
  λ r e.
      let (inside, at) = peek-some t r e in
      (
        subst (Scheduled t) at (w.placed.held 0 inside),
        λ m h.
            let (lt, here) = w.placed.located m h in
            rw (at, here) at
              (root_least t.nodes (length t.heap) (slot t) _ _ w.ordered (le_refl _) lt),
      ),
  λ e m h. absurd (omega (arith, peek-none t e, (w.placed.located m h).0)),
)
