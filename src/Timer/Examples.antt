-- ===== src/Timer/Examples.antt =====
-- Runs of the timer manager of src/kcpmux_timer.c on two nodes of the engine, and the theorems at them.
use kcp_mux.Base.{ℕ, ◌<◌, ◌≡◌, refl, arith, length, true, [], ◌∷◌, some, none}
use kcp_mux.Timer.{Timers, TimerCb, manager_init, schedule, cancel, collect_due, peek, size_max}
use kcp_mux.World.{World}
use kcp_mux.Base.{◌≢◌}
use kcp_mux.Engine.{register_timer_node, schedule_timer_node}
use kcp_mux.Loop.{blank_world}
use kcp_mux.Scenarios.{fresh}
use kcp_mux.Timer.{TimerState}
use kcp_mux.Timer.Order.{NotAfter}
use kcp_mux.Timer.WellFormed.{IsWellFormed, Scheduled, peek_correct}
use kcp_mux.Timer.Cancel.{Cancelled, cancel_correct}
use kcp_mux.Timer.Reserve.{ScheduleResult, schedule_correct}
use kcp_mux.Timer.Due.{Collected, collect_due_correct}
use kcp_mux.Timer.Reach.{Reached, start, registers, schedules, Reached-IsWellFormed}

abbrev first : World
first = (register_timer_node 5 TimerCb.conn_timer_callback fresh).1

abbrev registered : World
registered = (register_timer_node 6 TimerCb.stream_timer_callback first).1

abbrev one_scheduled : World
one_scheduled = (schedule_timer_node 5 100 0 registered).1

abbrev pair_scheduled : World
pair_scheduled = (schedule_timer_node 6 50 0 one_scheduled).1

abbrev pair : Timers
pair = pair_scheduled.timers

pair_heap : pair.heap ≡ 6 ∷ 5 ∷ []
unfolding schedule_timer_node register_timer_node blank_world
pair_heap = refl

expired_pair : (collect_due pair 60).due ≡ 6 ∷ []
unfolding schedule_timer_node register_timer_node blank_world collect_due
expired_pair = refl

registered_room : length registered.timers.heap < size_max
unfolding schedule_timer_node register_timer_node blank_world
registered_room = omega arith

one_room : length one_scheduled.timers.heap < size_max
unfolding schedule_timer_node register_timer_node blank_world
one_room = omega arith

nothing_registered : fresh.timers ≡ manager_init
unfolding blank_world
nothing_registered = refl

idle_listed_nowhere :
    (s : TimerState) → s ≡ TimerState.idle → (s ≢ TimerState.heap) × (s ≢ TimerState.due)
idle_listed_nowhere s e = (λ h. ground arith, λ h. ground arith)

first_idle : (fresh.timers.nodes 5).state ≡ TimerState.idle
unfolding blank_world manager_init
first_idle = refl

second_idle : (first.timers.nodes 6).state ≡ TimerState.idle
unfolding schedule_timer_node register_timer_node blank_world
second_idle = refl

pair-Reached : Reached pair_scheduled
pair-Reached =
    let (h5, d5) = idle_listed_nowhere (fresh.timers.nodes 5).state first_idle in
    let (h6, d6) = idle_listed_nowhere (first.timers.nodes 6).state second_idle in
    let one_registered = registers 5 TimerCb.conn_timer_callback (start nothing_registered) h5 d5 in
    let both = registers 6 TimerCb.stream_timer_callback one_registered h6 d6 in
    schedules 6 50 0 (schedules 5 100 0 both registered_room) one_room

pair-IsWellFormed : IsWellFormed pair
pair-IsWellFormed = Reached-IsWellFormed pair_scheduled pair-Reached

Reached-IsWellFormed_example : IsWellFormed pair_scheduled.timers
Reached-IsWellFormed_example = Reached-IsWellFormed pair_scheduled pair-Reached

peek_correct_example :
    ((r : ℕ)
      → peek pair ≡ some r
      → Scheduled pair r × ((m : ℕ) → Scheduled pair m → NotAfter (pair.nodes r) (pair.nodes m)))
    × (peek pair ≡ none → (m : ℕ) → ¬ Scheduled pair m)
peek_correct_example = peek_correct pair pair-IsWellFormed

cancel_correct_example : Cancelled pair 6 (cancel pair 6)
cancel_correct_example = cancel_correct pair 6 pair-IsWellFormed

pair_room : length pair.heap < size_max
unfolding schedule_timer_node register_timer_node blank_world
pair_room = omega arith

schedule_correct_example : ScheduleResult pair 6 200 (schedule true pair 6 200)
schedule_correct_example = schedule_correct true pair 6 200 pair-IsWellFormed pair_room

collect_due_correct_example : Collected pair 60 (collect_due pair 60)
collect_due_correct_example = collect_due_correct pair 60 pair-IsWellFormed
