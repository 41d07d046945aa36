-- ===== src/Timer.antt =====
-- src/kcpmux_timer.c and src/kcpmux_timer.h: an indexed binary min-heap of deadlines.
-- A node is named by its address. Times are milliseconds of a monotonic clock, so they are not
-- negative. `heap` is the live part of the array: its length is `manager->size`.
pub mod Order
pub mod Slots
pub mod SiftUp
pub mod SiftDown
pub mod Resift
pub mod WellFormed
pub mod Removal
pub mod Cancel
pub mod Schedule
pub mod Insert
pub mod Reserve
pub mod Due
pub mod Kept
pub mod Reach
mod Examples
use kcp_mux.Base.{
  ℕ, zero, suc, ◌+◌, ◌-◌, ◌*◌, ◌/◌, ◌^◌, ◌==◌, ltb, leb, if◌then◌else◌, Bool, true, false, not,
  List, [], ◌∷◌, ◌++◌, length, get_or, set, take, Option, none, some, remove, update, u64,
}
use kcp_mux.Types.{Ret, ok, err, Status, int64_max}

pub data TimerState : Type 0 where
  idle heap due running : TimerState

-- The functions that the code installs as `timeout_cb`.
pub data TimerCb : Type 0 where
  conn_timer_callback stream_timer_callback : TimerCb

-- `owner` says that the owner is not NULL; it is the object that the node is part of.
pub record Node : Type 0 where
  pub heap_index : ℕ
  pub deadline_ms : ℕ
  pub insertion_sequence : ℕ
  pub owner : Bool
  pub timeout_cb : Option TimerCb
  pub state : TimerState

-- The manager with the nodes in memory and the list of due nodes that an update walks.
pub record Timers : Type 0 where
  pub nodes : ℕ → Node
  pub heap : List ℕ
  pub capacity : ℕ
  pub next_sequence : ℕ
  pub due : List ℕ

-- KCPMUX_TIMER_INVALID_INDEX
abbrev pub invalid_index : ℕ
invalid_index = 2 ^ 64 - 1

abbrev pub size_max : ℕ
size_max = 2 ^ 64 - 1

unfoldable pub deadline_after : ℕ → ℕ → ℕ
deadline_after anchor_ms interval_ms =
    if ltb (int64_max - interval_ms) anchor_ms then int64_max else anchor_ms + interval_ms

unfoldable pub less : Node → Node → Bool
less left right =
    if not (left.deadline_ms == right.deadline_ms)
    then ltb left.deadline_ms right.deadline_ms
    else ltb left.insertion_sequence right.insertion_sequence

-- `manager->heap[index]`
abbrev pub slot : Timers → ℕ → ℕ
slot t index = get_or t.heap index 0

unfoldable pub set_slot : Timers → ℕ → ℕ → Timers
set_slot t index node = record t {
  heap = set t.heap index node;
  nodes = update t.nodes node (record (t.nodes node) { heap_index = index });
}

-- The loop of the sift towards the root; `index + 1` rounds are enough.
unfoldable pub sift_up_loop : ℕ → Timers → ℕ → ℕ → Timers × ℕ
unfolding less set_slot
sift_up_loop zero t index node = (set_slot t index node, index)
sift_up_loop (suc fuel) t index node =
    let parent = (index - 1) / 2 in
    let rise = sift_up_loop fuel (set_slot t index (slot t parent)) parent node in
    if index == 0
    then (set_slot t index node, index)
    else if not (less (t.nodes node) (t.nodes (slot t parent)))
    then (set_slot t index node, index)
    else rise

unfoldable pub sift_up : Timers → ℕ → Timers × ℕ
unfolding sift_up_loop
sift_up t index = sift_up_loop (index + 1) t index (slot t index)

-- The child that the sift towards the leaves compares with: the right one if it is smaller.
unfoldable pub smaller_child : Timers → ℕ → ℕ
unfolding less
smaller_child t index =
    let left = index * 2 + 1 in
    let right = left + 1 in
    if ltb right (length t.heap)
    then (if less (t.nodes (slot t right)) (t.nodes (slot t left)) then right else left)
    else left

-- The loop of the sift towards the leaves; as many rounds as the heap has slots are enough.
unfoldable pub sift_down_loop : ℕ → Timers → ℕ → ℕ → Timers
unfolding less set_slot smaller_child
sift_down_loop zero t index node = set_slot t index node
sift_down_loop (suc fuel) t index node =
    let child = smaller_child t index in
    let sink = sift_down_loop fuel (set_slot t index (slot t child)) child node in
    if leb (length t.heap) (index * 2 + 1)
    then set_slot t index node
    else if not (less (t.nodes (slot t child)) (t.nodes node))
    then set_slot t index node
    else sink

unfoldable pub sift_down : Timers → ℕ → Timers
unfolding sift_down_loop
sift_down t index = sift_down_loop (length t.heap) t index (slot t index)

-- The removed node and the manager after it.
unfoldable pub remove_at : Timers → ℕ → Timers × ℕ
unfolding sift_up sift_down set_slot
remove_at t index =
    let removed = slot t index in
    let size = length t.heap - 1 in
    let last = slot t size in
    let shorter : Timers = record t { heap = take size t.heap } in
    let t1 : Timers =
      if ltb index size
      then (let (up, i) = sift_up (set_slot shorter index last) index in sift_down up i)
      else shorter in
    (
      record t1 {
        nodes = update t1.nodes removed (record (t1.nodes removed) { heap_index = invalid_index });
      },
      removed,
    )

unfoldable pub node_init : Timers → ℕ → TimerCb → Timers
node_init t node timeout_cb = record t {
  nodes = update t.nodes node (record {
    heap_index = invalid_index;
    deadline_ms = 0;
    insertion_sequence = 0;
    owner = true;
    timeout_cb = some timeout_cb;
    state = TimerState.idle;
  });
}

unfoldable pub manager_init : Timers
manager_init = record {
  nodes = λ n. record {
    heap_index = 0;
    deadline_ms = 0;
    insertion_sequence = 0;
    owner = false;
    timeout_cb = none;
    state = TimerState.idle;
  };
  heap = [];
  capacity = 0;
  next_sequence = 0;
  due = [];
}

-- The doubling loop of kcpmux_timer_manager_reserve; 64 doublings pass every `size_t`.
unfoldable pub grow_capacity : ℕ → ℕ → ℕ → ℕ
grow_capacity zero new_capacity capacity = new_capacity
grow_capacity (suc fuel) new_capacity capacity =
    let rest = grow_capacity fuel (new_capacity * 2) capacity in
    if ltb new_capacity capacity
    then (if ltb (size_max / 2) new_capacity then capacity else rest)
    else new_capacity

-- `realloc_ok` is what `realloc` answers if it is called; a pointer has 8 bytes.
unfoldable pub manager_reserve : Bool → Timers → ℕ → Timers × Ret
unfolding grow_capacity
manager_reserve realloc_ok t capacity =
    let new_capacity = grow_capacity 64 (if t.capacity == 0 then 8 else t.capacity) capacity in
    if leb capacity t.capacity
    then (t, ok 0)
    else if ltb (size_max / 8) new_capacity
    then (t, err Status.oom)
    else if realloc_ok
    then (record t { capacity = new_capacity }, ok 0)
    else (t, err Status.oom)

-- The last part of kcpmux_timer_schedule, after the room for the node was reserved.
unfoldable pub insert_node : Timers → ℕ → ℕ → Timers
unfolding sift_up set_slot
insert_node t node deadline_ms =
    let t1 : Timers = elim (t.nodes node).state [
      | TimerState.due ↦ record t { due = remove t.due node }
      | _ ↦ t
    ] in
    let t2 : Timers = record t1 {
      nodes = update t1.nodes node (record (t1.nodes node) {
        deadline_ms = deadline_ms;
        insertion_sequence = t1.next_sequence;
        state = TimerState.heap;
      });
      next_sequence = u64 (t1.next_sequence + 1);
      heap = t1.heap ++ (node ∷ []);
    } in
    let index = length t1.heap in (sift_up (set_slot t2 index node) index).0

-- What kcpmux_timer_schedule does with the answer of the reservation.
unfoldable pub insert_reserved : ℕ → ℕ → Timers × Ret → Timers × Ret
unfolding insert_node
insert_reserved node deadline_ms reserved = elim reserved.1 [
  | Ret.ok _ ↦ (insert_node reserved.0 node deadline_ms, ok 0)
  | Ret.err e ↦ (reserved.0, err e)
]

-- A node that is in the heap only moves; any other is inserted, if there is room.
unfoldable pub schedule : Bool → Timers → ℕ → ℕ → Timers × Ret
unfolding sift_up sift_down manager_reserve insert_reserved
schedule realloc_ok t node deadline_ms = elim (t.nodes node).state [
  | TimerState.heap ↦
      let t1 : Timers = record t {
        nodes = update t.nodes node (record (t.nodes node) { deadline_ms = deadline_ms });
      } in
      let (t2, index) = sift_up t1 (t.nodes node).heap_index in (sift_down t2 index, ok 0)
  | _ ↦ insert_reserved node deadline_ms (manager_reserve realloc_ok t (length t.heap + 1))
]

abbrev pub set_timer_state : Timers → ℕ → TimerState → Timers
set_timer_state t node s = record t {
  nodes = update t.nodes node (record (t.nodes node) { state = s });
}

unfoldable pub cancel : Timers → ℕ → Timers
unfolding remove_at
cancel t node =
    let t1 : Timers = elim (t.nodes node).state [
      | TimerState.heap ↦ (remove_at t (t.nodes node).heap_index).0
      | TimerState.due ↦ record t { due = remove t.due node }
      | _ ↦ t
    ] in
    set_timer_state t1 node TimerState.idle

-- NULL is `none`.
unfoldable pub peek : Timers → Option ℕ
peek t = elim t.heap [ [] ↦ none | root ∷ rest ↦ some root ]

-- The loop of kcpmux_timer_collect_due; each round takes a node out of the heap.
unfoldable pub collect_due_loop : ℕ → Timers → ℕ → Timers
unfolding peek remove_at
collect_due_loop zero t now_ms = t
collect_due_loop (suc fuel) t now_ms = elim (peek t) [
  | none ↦ t
  | some node ↦
      let (t1, removed) = remove_at t 0 in
      let t2 : Timers = set_timer_state t1 removed TimerState.due in
      let rest = collect_due_loop fuel (record t2 { due = t2.due ++ (removed ∷ []) }) now_ms in
      if ltb now_ms (t.nodes node).deadline_ms then t else rest
]

unfoldable pub collect_due : Timers → ℕ → Timers
unfolding collect_due_loop
collect_due t now_ms = collect_due_loop (length t.heap) t now_ms
