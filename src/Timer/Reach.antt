-- ===== src/Timer/Reach.antt =====
-- The timer operations of src/kcpmux_engine.c over src/kcpmux_timer.c: the managers they lead to.
use kcp_mux.Base.{
  ◌∙◌, ◌+◌, ℕ, ◌-◌, ◌<◌, ◌≡◌, ◌≢◌, arith, length, inl, inr, List, ◌∷◌, Bool-cases, if◌then◌else◌,
  ltb, sym,
}
use kcp_mux.Timer.{
  TimerState, TimerCb, manager_init, schedule, cancel, collect_due, manager_reserve,
  set_timer_state, size_max,
}
use kcp_mux.Timer.WellFormed.{IsWellFormed}
use kcp_mux.Timer.Cancel.{cancel_correct}
use kcp_mux.Timer.Due.{collect_due_correct}
use kcp_mux.Types.{is_ok}
use kcp_mux.Timer.Kept.{
  manager_init-IsWellFormed, schedule-IsWellFormed, node_init-IsWellFormed, run-IsWellFormed,
  reserve-IsWellFormed, forget_owner-IsWellFormed, after_timeout-IsWellFormed,
}
use kcp_mux.World.{World, mod_timers}
use kcp_mux.Engine.{
  register_timer_node, unregister_timer_node, schedule_timer_node, cancel_timer_node, now,
}
use kcp_mux.Loop.{after_timeout}
use kcp_mux.Engine.Aside.{timers-rearm_timer}

-- The three steps that kcpmux_engine_update makes on the timers themselves: it collects what is
-- due, takes the first due node out to run it, and idles a node that is still running afterwards.
abbrev pub collected : ℕ → World → World
collected now_ms w = (mod_timers (λ x. collect_due x now_ms) w).1

abbrev pub begun : ℕ → List ℕ → World → World
begun m rest w = record w {
  timers = set_timer_state (record (w.timers) { due = rest }) m TimerState.running;
}

abbrev pub ended : ℕ → World → World
ended m w = (mod_timers (λ t. after_timeout (t.nodes m).state t m) w).1

-- The worlds that the timer operations of src/kcpmux_engine.c lead to. A registered node is in
-- neither list, and what else the engine does keeps its timers.
pub data Reached : World → Type 0 where
  start : {w : World} → w.timers ≡ manager_init → Reached w
  registers :
      {w : World} (m : ℕ) (cb : TimerCb)
      → Reached w
      → (w.timers.nodes m).state ≢ TimerState.heap
      → (w.timers.nodes m).state ≢ TimerState.due
      → Reached (register_timer_node m cb w).1
  unregisters : {w : World} (m : ℕ) → Reached w → Reached (unregister_timer_node m w).1
  schedules :
      {w : World} (m deadline_ms now_ms : ℕ)
      → Reached w
      → length w.timers.heap < size_max
      → Reached (schedule_timer_node m deadline_ms now_ms w).1
  cancels : {w : World} (m now_ms : ℕ) → Reached w → Reached (cancel_timer_node m now_ms w).1
  collects : {w : World} (now_ms : ℕ) → Reached w → Reached (collected now_ms w)
  runs :
      {w : World} (m : ℕ) (rest : List ℕ)
      → Reached w
      → w.timers.due ≡ m ∷ rest
      → Reached (begun m rest w)
  returns : {w : World} (m : ℕ) → Reached w → Reached (ended m w)
  elsewhere : {w v : World} → Reached w → v.timers ≡ w.timers → Reached v

register-IsWellFormed :
    (m : ℕ) (cb : TimerCb) (w : World)
    → IsWellFormed w.timers
    → (w.timers.nodes m).state ≢ TimerState.heap
    → (w.timers.nodes m).state ≢ TimerState.due
    → IsWellFormed (register_timer_node m cb w).1.timers
unfolding register_timer_node
register-IsWellFormed m cb w i h d =
    let count = w.engine.timer_node_count in
    let realloc_ok = w.host.malloc_ok w.calls in
    let reserved = manager_reserve realloc_ok w.timers (count + 1) in
    elim (Bool-cases (ltb (size_max - 2) count)) [
      | inl e ↦ rw e i
      | inr e ↦
          let (kept, same) =
            reserve-IsWellFormed realloc_ok w.timers (count + 1) i (ground arith) in
          rw e (elim (Bool-cases (is_ok reserved.1)) [
            | inl b ↦ rw b (
                node_init-IsWellFormed reserved.0 m cb kept (λ s. h (sym (same m) ∙ s))
                  (λ s. d (sym (same m) ∙ s)))
            | inr b ↦ rw b kept
          ])
    ]

unregister-IsWellFormed :
    (m : ℕ) (w : World) → IsWellFormed w.timers → IsWellFormed (unregister_timer_node m w).1.timers
unfolding unregister_timer_node now
unregister-IsWellFormed m w i = elim (Bool-cases (w.timers.nodes m).owner) [
  | inl e ↦
      let cancelled = (cancel_correct w.timers m i).well_formed in
      rw (e, timers-rearm_timer _ _) (forget_owner-IsWellFormed (cancel w.timers m) m cancelled)
  | inr e ↦ rw e i
]

schedule_node-IsWellFormed :
    (m deadline_ms now_ms : ℕ) (w : World)
    → IsWellFormed w.timers
    → length w.timers.heap < size_max
    → IsWellFormed (schedule_timer_node m deadline_ms now_ms w).1.timers
unfolding schedule_timer_node
schedule_node-IsWellFormed m deadline_ms now_ms w i lt =
    let at = if ltb deadline_ms now_ms then now_ms else deadline_ms in
    let realloc_ok = w.host.malloc_ok w.calls in
    let r = schedule realloc_ok w.timers m at in
    let kept = schedule-IsWellFormed realloc_ok w.timers m at i lt in
    elim (Bool-cases (w.timers.nodes m).owner) [
      | inl e ↦ rw e (elim (Bool-cases (is_ok r.1)) [
        | inl b ↦ rw (b, timers-rearm_timer _ _) kept
        | inr b ↦ rw b kept
      ])
      | inr e ↦ rw e i
    ]

cancel_node-IsWellFormed :
    (m now_ms : ℕ) (w : World)
    → IsWellFormed w.timers
    → IsWellFormed (cancel_timer_node m now_ms w).1.timers
unfolding cancel_timer_node
cancel_node-IsWellFormed m now_ms w i =
    rw (timers-rearm_timer _ _) (cancel_correct w.timers m i).well_formed

-- In every world that the engine's timer operations lead to from an empty manager (registering a
-- node of neither list, unregistering, scheduling with room for the insertion, cancelling, and the
-- collection, start and end of the callbacks in kcpmux_engine_update, whichever way the allocator
-- answers), the manager is well-formed: the heap holds exactly the nodes in state HEAP, each at
-- its own index, in heap order, within the array, and the due list holds exactly the nodes in
-- state DUE, each once.
pub Reached-IsWellFormed : (w : World) → Reached w → IsWellFormed w.timers
Reached-IsWellFormed w (start e) = rw e manager_init-IsWellFormed
Reached-IsWellFormed w (registers {w = v} m cb r h d) =
    register-IsWellFormed m cb v (Reached-IsWellFormed v r) h d
Reached-IsWellFormed w (unregisters {w = v} m r) =
    unregister-IsWellFormed m v (Reached-IsWellFormed v r)
Reached-IsWellFormed w (schedules {w = v} m deadline_ms now_ms r lt) =
    schedule_node-IsWellFormed m deadline_ms now_ms v (Reached-IsWellFormed v r) lt
Reached-IsWellFormed w (cancels {w = v} m now_ms r) =
    cancel_node-IsWellFormed m now_ms v (Reached-IsWellFormed v r)
Reached-IsWellFormed w (collects {w = v} now_ms r) =
    (collect_due_correct v.timers now_ms (Reached-IsWellFormed v r)).well_formed
Reached-IsWellFormed w (runs {w = v} m rest r e) =
    run-IsWellFormed v.timers m rest (Reached-IsWellFormed v r) e
Reached-IsWellFormed w (returns {w = v} m r) =
    after_timeout-IsWellFormed v.timers m (Reached-IsWellFormed v r)
Reached-IsWellFormed w (elsewhere {w = u} r e) = rw e (Reached-IsWellFormed u r)
