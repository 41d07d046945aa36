-- ===== src/Timer/Reserve.antt =====
-- src/kcpmux_timer.c: room for a node, and the whole of kcpmux_timer_schedule.
use native.Mathlib.Nat.{le_refl, pow-suc}
use kcp_mux.Base.{
  ltb→ge, ltb→lt, ℕ, zero, suc, ◌+◌, ◌*◌, ◌/◌, ◌^◌, ◌≤◌, ◌<◌, ◌≡◌, ◌≢◌, ap, subst, sym, refl, arith,
  length, ◌⊎◌, inl, inr, Bool, false, ltb, leb, ◌==◌, if◌then◌else◌, Bool-cases, remove, List,
}
use kcp_mux.Types.{Ret, ok, err, Status}
use kcp_mux.Timer.{
  Timers, TimerState, grow_capacity, manager_reserve, schedule, insert_node, size_max, sift_up,
  insert_reserved,
}
use kcp_mux.Timer.WellFormed.{IsWellFormed, Scheduled}
use kcp_mux.Timer.Resift.{resift}
use kcp_mux.Timer.Schedule.{retimed}
use kcp_mux.Timer.Cancel.{
  Without, unscheduled-Without, TimerState-cases, left-IsDueListed, unlisted-IsDueListed,
}
use kcp_mux.Timer.Schedule.{Rescheduled, retimed-Rescheduled}
use kcp_mux.Timer.Insert.{appended-Rescheduled, with_entry}

-- The doubling reaches the capacity, when enough doublings would pass every `size_t`.
pub grow_capacity_lem :
    (fuel new_capacity capacity : ℕ)
    → size_max < new_capacity * 2 ^ fuel
    → capacity ≤ size_max
    → capacity ≤ grow_capacity fuel new_capacity capacity
unfolding grow_capacity
grow_capacity_lem zero new_capacity capacity h c = ground arith
grow_capacity_lem (suc fuel) new_capacity capacity h c =
    let h' : size_max < new_capacity * (2 ^ fuel * 2) = rw (pow-suc 2 fuel) at h in
    let rest = grow_capacity_lem fuel (new_capacity * 2) capacity (omega arith) c in
    elim (Bool-cases (ltb new_capacity capacity)) [
      | inl e ↦ rw e (elim (Bool-cases (ltb (size_max / 2) new_capacity)) [
        | inl b ↦ rw b (le_refl capacity)
        | inr b ↦ rw b rest
      ])
      | inr e ↦ rw e (ltb→ge new_capacity capacity e)
    ]

-- kcpmux_timer_manager_reserve leaves the heap and the nodes as they are; it makes room for
-- `capacity` nodes, or answers OOM and changes nothing, which happens only when the array is too
-- small.
pub manager_reserve_lem :
    (realloc_ok : Bool) (t : Timers) (capacity : ℕ)
    → capacity ≤ size_max
    → ((c : ℕ) × (manager_reserve realloc_ok t capacity ≡ (record t { capacity = c }, ok 0))
        × (capacity ≤ c)
        × (t.capacity ≤ c))
      ⊎ ((manager_reserve realloc_ok t capacity ≡ (t, err Status.oom))
          × (t.capacity < capacity)
          × ((realloc_ok ≡ false)
              ⊎ (size_max / 8
                  < grow_capacity 64 (if t.capacity == 0 then 8 else t.capacity) capacity)))
unfolding manager_reserve
manager_reserve_lem realloc_ok t capacity h =
    let start = if t.capacity == 0 then 8 else t.capacity in
    let grown = grow_capacity 64 start capacity in
    let enough : capacity ≤ grown = grow_capacity_lem 64 start capacity (ground arith) h in
    elim (Bool-cases (leb capacity t.capacity)) [
      | inl e ↦
          let low : capacity ≤ t.capacity = ground arith in
          rw e (inl (t.capacity, refl, low, le_refl _))
      | inr e ↦
          let low : t.capacity < capacity = ground arith in
          rw e (elim (Bool-cases (ltb (size_max / 8) grown)) [
            | inl b ↦ rw b (inr (refl, low, inr (ltb→lt (size_max / 8) grown b)))
            | inr b ↦ rw b (elim (Bool-cases realloc_ok) [
              | inl r ↦ rw r (inl (grown, refl, enough, omega arith))
              | inr r ↦ rw r (inr (refl, low, inl refl))
            ])
          ])
    ]

-- The manager with other room, and `m` in neither list.
resized-Without :
    (t : Timers) (m c : ℕ) (due : List ℕ)
    → IsWellFormed t
    → ¬ Scheduled t m
    → t.capacity ≤ c
    → Without t m (record t { capacity = c; due = due })
resized-Without t m c due w h le =
    let v = unscheduled-Without t m w h in
    record {
      placed = record {
        indexed = v.placed.indexed;
        held = v.placed.held;
        located = v.placed.located;
      };
      ordered = v.ordered;
      fits = omega (arith, v.fits);
      deadline = v.deadline;
      sequence = v.sequence;
      state = v.state;
    }

append_unlisted :
    (t : Timers) (m deadline_ms c : ℕ)
    → IsWellFormed t
    → ¬ Scheduled t m
    → length t.heap + 1 ≤ c
    → t.capacity ≤ c
    → (t.nodes m).state ≢ TimerState.due
    → Rescheduled t m deadline_ms
        (sift_up (with_entry (record t { capacity = c }) m deadline_ms) (length t.heap)).0
append_unlisted t m deadline_ms c w h room le ne =
    let v : Timers = record t { capacity = c } in
    appended-Rescheduled t m deadline_ms v (resized-Without t m c t.due w h le) room
      (unlisted-IsDueListed t m v TimerState.heap w.listed (λ k. refl) refl ne (λ d. ground arith))

insert_node-Rescheduled :
    (t : Timers) (m deadline_ms c : ℕ)
    → IsWellFormed t
    → ¬ Scheduled t m
    → length t.heap + 1 ≤ c
    → t.capacity ≤ c
    → Rescheduled t m deadline_ms (insert_node (record t { capacity = c }) m deadline_ms)
unfolding insert_node
insert_node-Rescheduled t m deadline_ms c w h room le = elim (TimerState-cases (t.nodes m).state) [
  | inl e ↦ absurd (h e)
  | inr (inl e) ↦
      let due = remove t.due m in
      let v : Timers = record t { capacity = c; due = due } in
      rw (insert_node, e)
        (appended-Rescheduled t m deadline_ms v (resized-Without t m c due w h le) room
          (left-IsDueListed t m v TimerState.heap w.listed (λ k. refl) (λ d. ground arith)))
  | inr (inr (inl e)) ↦
      rw (insert_node, e) (append_unlisted t m deadline_ms c w h room le (λ d. ground arith))
  | inr (inr (inr e)) ↦
      rw (insert_node, e) (append_unlisted t m deadline_ms c w h room le (λ d. ground arith))
]

-- What kcpmux_timer_schedule can do: the node is scheduled, or there is no memory.
abbrev pub ScheduleResult : Timers → ℕ → ℕ → Timers × Ret → Type 0
ScheduleResult t m deadline_ms r =
    ((r.1 ≡ ok 0) × Rescheduled t m deadline_ms r.0)
    ⊎ ((r.1 ≡ err Status.oom) × (r.0 ≡ t) × (¬ Scheduled t m) × (t.capacity ≤ length t.heap))

reserved_result :
    (realloc_ok : Bool) (t : Timers) (m deadline_ms : ℕ)
    → IsWellFormed t
    → length t.heap < size_max
    → ¬ Scheduled t m
    → ScheduleResult t m deadline_ms
        (insert_reserved m deadline_ms (manager_reserve realloc_ok t (length t.heap + 1)))
unfolding insert_reserved
reserved_result realloc_ok t m deadline_ms w lt h =
    elim (manager_reserve_lem realloc_ok t (length t.heap + 1) (omega arith)) [
      | inl (c, e, room, le) ↦
          subst (λ r. ScheduleResult t m deadline_ms (insert_reserved m deadline_ms r)) (sym e)
            (inl (refl, insert_node-Rescheduled t m deadline_ms c w h room le))
      | inr (e, full, _) ↦
          subst (λ r. ScheduleResult t m deadline_ms (insert_reserved m deadline_ms r)) (sym e)
            (inr (refl, refl, h, omega arith))
    ]

schedule_scheduled :
    (realloc_ok : Bool) (t : Timers) (m deadline_ms : ℕ)
    → (t.nodes m).state ≡ TimerState.heap
    → schedule realloc_ok t m deadline_ms
      ≡ (resift (retimed t m deadline_ms) (t.nodes m).heap_index, ok 0)
unfolding schedule
schedule_scheduled realloc_ok t m deadline_ms e =
    ap
      (λ s. elim s [
        | TimerState.heap ↦ (resift (retimed t m deadline_ms) (t.nodes m).heap_index, ok 0)
        | _ ↦ insert_reserved m deadline_ms (manager_reserve realloc_ok t (length t.heap + 1))
      ])
      e

schedule_other :
    (realloc_ok : Bool) (t : Timers) (m deadline_ms : ℕ)
    → ((t.nodes m).state ≡ TimerState.due)
      ⊎ ((t.nodes m).state ≡ TimerState.idle)
      ⊎ ((t.nodes m).state ≡ TimerState.running)
    → schedule realloc_ok t m deadline_ms
      ≡ insert_reserved m deadline_ms (manager_reserve realloc_ok t (length t.heap + 1))
unfolding schedule
schedule_other realloc_ok t m deadline_ms (inl e) = rw (schedule, e) refl
schedule_other realloc_ok t m deadline_ms (inr (inl e)) = rw (schedule, e) refl
schedule_other realloc_ok t m deadline_ms (inr (inr e)) = rw (schedule, e) refl

-- In a well-formed manager with fewer than SIZE_MAX entries, kcpmux_timer_schedule of a node in any
-- state, whatever `realloc` answers, either succeeds, with the node in the heap at the given
-- deadline and every other node as it was, or answers OOM and changes nothing, which needs a full
-- array and a node outside of the heap. The manager stays well-formed.
pub schedule_correct :
    (realloc_ok : Bool) (t : Timers) (m deadline_ms : ℕ)
    → IsWellFormed t
    → length t.heap < size_max
    → ScheduleResult t m deadline_ms (schedule realloc_ok t m deadline_ms)
schedule_correct realloc_ok t m deadline_ms w lt = elim (TimerState-cases (t.nodes m).state) [
  | inl e ↦
      subst (ScheduleResult t m deadline_ms) (sym (schedule_scheduled realloc_ok t m deadline_ms e))
        (inl (refl, retimed-Rescheduled t m deadline_ms w e))
  | inr e ↦
      subst (ScheduleResult t m deadline_ms) (sym (schedule_other realloc_ok t m deadline_ms e))
        (reserved_result realloc_ok t m deadline_ms w lt (λ d. ground arith))
]
