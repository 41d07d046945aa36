-- ===== src/Life/DueList.antt =====
-- src/kcpmux_timer.c: no operation but the collection makes a timer due.
use kcp_mux.Base.{
  subst, sym, u64, ◌*◌, ◌++◌, ℕ, zero, suc, ◌-◌, ◌/◌, ◌+◌, ◌≤◌, ◌≡◌, refl, ◌∙◌, arith, Bool,
  Bool-cases, inl, inr, not, List, [], ◌∷◌, length, remove, ltb, leb, ◌==◌, take, update, u64,
}
use kcp_mux.Types.{Ret}
use kcp_mux.Timer.{
  Timers, TimerState, TimerCb, slot, less, set_slot, sift_up_loop, sift_up, sift_down_loop,
  sift_down, smaller_child, remove_at, node_init, manager_reserve, insert_node, insert_reserved,
  schedule, cancel,
}
use kcp_mux.Life.Relation.{Shortens}

pub length-remove_le : (xs : List ℕ) (a : ℕ) → length (remove xs a) ≤ length xs
length-remove_le [] a = omega arith
length-remove_le (x ∷ xs) a = ground (arith, length-remove_le xs a)

set_slot-due : (t : Timers) (i m : ℕ) → (set_slot t i m).due ≡ t.due
unfolding set_slot
set_slot-due t i m = refl

sift_up_loop-due : (fuel : ℕ) (t : Timers) (i m : ℕ) → (sift_up_loop fuel t i m).0.due ≡ t.due
unfolding sift_up_loop
sift_up_loop-due zero t i m = refl
sift_up_loop-due (suc fuel) t i m =
    let next = sift_up_loop-due fuel (set_slot t i (slot t ((i - 1) / 2))) ((i - 1) / 2) m in
    elim (Bool-cases (i == 0)) [
      | inl e ↦ rw e refl
      | inr e ↦ rw e (elim (Bool-cases (not (less (t.nodes m) (t.nodes (slot t ((i - 1) / 2)))))) [
        | inl b ↦ rw b refl
        | inr b ↦ rw b next
      ])
    ]

sift_up-due : (t : Timers) (i : ℕ) → (sift_up t i).0.due ≡ t.due
unfolding sift_up
sift_up-due t i = sift_up_loop-due (i + 1) t i (slot t i)

sift_down_loop-due : (fuel : ℕ) (t : Timers) (i m : ℕ) → (sift_down_loop fuel t i m).due ≡ t.due
unfolding sift_down_loop
sift_down_loop-due zero t i m = refl
sift_down_loop-due (suc fuel) t i m =
    let child = smaller_child t i in
    let next = sift_down_loop-due fuel (set_slot t i (slot t child)) child m in
    elim (Bool-cases (leb (length t.heap) (i * 2 + 1))) [
      | inl e ↦ rw e refl
      | inr e ↦ rw e (elim (Bool-cases (not (less (t.nodes (slot t child)) (t.nodes m)))) [
        | inl b ↦ rw b refl
        | inr b ↦ rw b next
      ])
    ]

sift_down-due : (t : Timers) (i : ℕ) → (sift_down t i).due ≡ t.due
unfolding sift_down
sift_down-due t i = sift_down_loop-due (length t.heap) t i (slot t i)

remove_at-due : (t : Timers) (i : ℕ) → (remove_at t i).0.due ≡ t.due
unfolding remove_at
remove_at-due t i =
    let size = length t.heap - 1 in
    let shorter : Timers = record t { heap = take size t.heap } in
    let up = sift_up (set_slot shorter i (slot t size)) i in
    elim (Bool-cases (ltb i size)) [
      | inl e ↦ rw e (sift_down-due up.0 up.1 ∙ sift_up-due (set_slot shorter i (slot t size)) i)
      | inr e ↦ rw e refl
    ]

pub cancel-Shortens : (m : ℕ) → Shortens (λ t. cancel t m)
unfolding cancel
cancel-Shortens m t =
    ground (arith, remove_at-due t (t.nodes m).heap_index, length-remove_le t.due m)

-- The due list without the node, if it is due.
abbrev without : Timers → ℕ → Timers
without t m = elim (t.nodes m).state [ TimerState.due ↦ record t { due = remove t.due m } | _ ↦ t ]

insert_node-Shortens : (m deadline_ms : ℕ) → Shortens (λ t. insert_node t m deadline_ms)
unfolding insert_node
insert_node-Shortens m deadline_ms t =
    let t1 = without t m in
    let t2 : Timers = record t1 {
      nodes = update t1.nodes m (record (t1.nodes m) {
        deadline_ms = deadline_ms;
        insertion_sequence = t1.next_sequence;
        state = TimerState.heap;
      });
      next_sequence = u64 (t1.next_sequence + 1);
      heap = t1.heap ++ (m ∷ []);
    } in
    let index = length t1.heap in
    let shorter : length t1.due ≤ length t.due = ground (arith, length-remove_le t.due m) in
    subst (λ d. length d ≤ length t.due)
      (sym (sift_up-due (set_slot t2 index m) index ∙ set_slot-due t2 index m)) shorter

pub manager_reserve-Shortens :
    (realloc_ok : Bool) (capacity : ℕ) → Shortens (λ t. (manager_reserve realloc_ok t capacity).0)
unfolding manager_reserve
manager_reserve-Shortens realloc_ok capacity t = ground (arith)

pub node_init-Shortens : (m : ℕ) (cb : TimerCb) → Shortens (λ t. node_init t m cb)
unfolding node_init
node_init-Shortens m cb t = omega arith

insert_reserved-Shortens :
    (m deadline_ms : ℕ) (reserved : Timers × Ret)
    → length (insert_reserved m deadline_ms reserved).0.due ≤ length reserved.0.due
unfolding insert_reserved
insert_reserved-Shortens m deadline_ms reserved =
    ground (arith, insert_node-Shortens m deadline_ms reserved.0)

pub schedule-Shortens :
    (realloc_ok : Bool) (m deadline_ms : ℕ)
    → Shortens (λ t. (schedule realloc_ok t m deadline_ms).0)
unfolding schedule
schedule-Shortens realloc_ok m deadline_ms t =
    let t1 : Timers = record t {
      nodes = update t.nodes m (record (t.nodes m) { deadline_ms = deadline_ms });
    } in
    let up = sift_up t1 (t.nodes m).heap_index in
    let r = manager_reserve realloc_ok t (length t.heap + 1) in
    ground (
      arith,
      sift_down-due up.0 up.1,
      sift_up-due t1 (t.nodes m).heap_index,
      insert_reserved-Shortens m deadline_ms r,
      manager_reserve-Shortens realloc_ok (length t.heap + 1) t,
    )
