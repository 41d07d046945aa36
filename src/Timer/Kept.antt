-- ===== src/Timer/Kept.antt =====
-- The timer manager of src/kcpmux_timer.c stays well-formed: each step on the timers themselves.
use native.Mathlib.Nat.{le_trans}
use kcp_mux.Base.{
  ◌⊎◌, ◌≤◌, ℕ, ◌-◌, ◌/◌, ◌<◌, ◌≡◌, ◌≢◌, refl, arith, length, inl, inr, Bool, List, ◌∷◌, remove,
}
use kcp_mux.Timer.{
  Timers, TimerState, TimerCb, manager_init, node_init, schedule, size_max, manager_reserve, less,
}
use kcp_mux.Timer.WellFormed.{IsWellFormed}
use kcp_mux.Timer.Cancel.{
  settled, settled-IsWellFormed, unscheduled-Without, left-IsDueListed, unlisted-IsDueListed,
}
use kcp_mux.Timer.Reserve.{schedule_correct, manager_reserve_lem}
use kcp_mux.Engine.{forget_owner}
use kcp_mux.Loop.{after_timeout}

pub manager_init-IsWellFormed : IsWellFormed manager_init
unfolding manager_init
manager_init-IsWellFormed = record {
  placed = record {
    indexed = λ j h. absurd (omega arith);
    held = λ j h. absurd (omega arith);
    located = λ m h. absurd (ground arith);
  };
  ordered = λ c c0 h. absurd (omega arith);
  fits = omega arith;
  listed = record {
    due_state = λ m h. absurd (ground arith);
    due_listed = λ m h. absurd (ground arith);
    due_once = tt;
  };
}

pub schedule-IsWellFormed :
    (realloc_ok : Bool) (t : Timers) (m deadline_ms : ℕ)
    → IsWellFormed t
    → length t.heap < size_max
    → IsWellFormed (schedule realloc_ok t m deadline_ms).0
schedule-IsWellFormed realloc_ok t m deadline_ms w lt =
    elim (schedule_correct realloc_ok t m deadline_ms w lt) [
      | inl (_, r) ↦ r.well_formed
      | inr (_, same, _, _) ↦ rw same w
    ]

pub node_init-IsWellFormed :
    (t : Timers) (m : ℕ) (cb : TimerCb)
    → IsWellFormed t
    → (t.nodes m).state ≢ TimerState.heap
    → (t.nodes m).state ≢ TimerState.due
    → IsWellFormed (node_init t m cb)
unfolding node_init
node_init-IsWellFormed t m cb w h d = record {
  placed = record {
    indexed = λ j jn. ground (arith, w.placed.indexed j, w.placed.held j);
    held = λ j jn. ground (arith, w.placed.held j);
    located = λ k e. ground (arith, w.placed.located k);
  };
  ordered = λ c c0 cn. ground (arith, w.ordered c, w.placed.held c, w.placed.held ((c - 1) / 2));
  fits = w.fits;
  listed = record {
    due_state = λ k e. ground (arith, w.listed.due_state k);
    due_listed = λ k e. ground (arith, w.listed.due_listed k);
    due_once = w.listed.due_once;
  };
}

pub run-IsWellFormed :
    (t : Timers) (m : ℕ) (rest : List ℕ)
    → IsWellFormed t
    → t.due ≡ m ∷ rest
    → IsWellFormed (settled t m TimerState.running rest)
run-IsWellFormed t m rest w e =
    let removed : remove t.due m ≡ rest = ground arith in
    let is_due : (t.nodes m).state ≡ TimerState.due = w.listed.due_state m (ground arith) in
    settled-IsWellFormed t m t TimerState.running rest
      (unscheduled-Without t m w (λ s. ground arith)) (λ s. ground arith)
      (rw removed at
        (left-IsDueListed t m t TimerState.running w.listed (λ k. refl) (λ s. ground arith)))

state_cases :
    (s : TimerState) → (s ≡ TimerState.running) ⊎ ((t : Timers) (m : ℕ) → after_timeout s t m ≡ t)
state_cases TimerState.idle = inr (λ t m. refl)
state_cases TimerState.heap = inr (λ t m. refl)
state_cases TimerState.due = inr (λ t m. refl)
state_cases TimerState.running = inl refl

pub reserve-IsWellFormed :
    (realloc_ok : Bool) (t : Timers) (capacity : ℕ)
    → IsWellFormed t
    → capacity ≤ size_max
    → IsWellFormed (manager_reserve realloc_ok t capacity).0
      × ((m : ℕ) → ((manager_reserve realloc_ok t capacity).0.nodes m).state ≡ (t.nodes m).state)
reserve-IsWellFormed realloc_ok t capacity w fits =
    elim (manager_reserve_lem realloc_ok t capacity fits) [
      | inl (c, e, enough, more) ↦ rw e (
        record {
          placed = record {
            indexed = w.placed.indexed;
            held = w.placed.held;
            located = w.placed.located;
          };
          ordered = w.ordered;
          fits = le_trans w.fits more;
          listed = record {
            due_state = w.listed.due_state;
            due_listed = w.listed.due_listed;
            due_once = w.listed.due_once;
          };
        },
        λ m. refl,
      )
      | inr (e, _, _) ↦ rw e (w, λ m. refl)
    ]

-- Clearing the owner and the callback of a node keeps what the invariant reads.
pub forget_owner-IsWellFormed :
    (t : Timers) (m : ℕ) → IsWellFormed t → IsWellFormed (forget_owner t m)
unfolding less
forget_owner-IsWellFormed t m w = record {
  placed = record {
    indexed = λ j jn. ground (arith, w.placed.indexed j);
    held = λ j jn. ground (arith, w.placed.held j);
    located = λ k e. ground (arith, w.placed.located k);
  };
  ordered = λ c c0 cn. ground (arith, w.ordered c);
  fits = w.fits;
  listed = record {
    due_state = λ k e. ground (arith, w.listed.due_state k);
    due_listed = λ k e. ground (arith, w.listed.due_listed k);
    due_once = w.listed.due_once;
  };
}

pub after_timeout-IsWellFormed :
    (t : Timers) (m : ℕ) → IsWellFormed t → IsWellFormed (after_timeout (t.nodes m).state t m)
after_timeout-IsWellFormed t m w = elim (state_cases (t.nodes m).state) [
  | inl e ↦ rw e (
      settled-IsWellFormed t m t TimerState.idle t.due
        (unscheduled-Without t m w (λ d. ground arith)) (λ d. ground arith)
        (unlisted-IsDueListed t m t TimerState.idle w.listed (λ k. refl) refl (λ d. ground arith)
          (λ d. ground arith)))
  | inr e ↦ rw (e t m) w
]
