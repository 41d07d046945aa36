-- ===== src/Run/Due.antt =====
-- The timer loop of kcpmux_engine_update in src/kcpmux_engine.c.
use kcp_mux.World.Stats.{plus}
use kcp_mux.ConnUpdate.{conn_update}
use kcp_mux.StreamUpdate.{stream_update}
use kcp_mux.Base.{
  List-cases, inl, inr, subst, sym, ap, false, ℕ, zero, suc, ◌≤◌, ◌≡◌, refl, ◌∙◌, arith, List, [],
  ◌∷◌, length, Option, none, some,
}
use kcp_mux.Timer.{collect_due, TimerState, TimerCb, set_timer_state}
use kcp_mux.World.{World}
use kcp_mux.Run.Operation.{Advanced, left-Advanced, operation_leave-Settled}
use kcp_mux.Engine.{operation_enter, operation_leave}
use kcp_mux.Loop.{engine_update, timeout, after_timeout, run_timer, run_due}
use kcp_mux.Life.Relation.{Evolves, Evolves-trans, Follows, Shortens}
use kcp_mux.Life.Changes.{rules, mod_timers-Follows}
use kcp_mux.Life.Combinators.{same-Evolves, skip-Follows}
use kcp_mux.Life.Streams.{stream_update-Follows}
use kcp_mux.Life.Conns.{conn_update-Follows}
use kcp_mux.Life.Forward.{forward}

timeout-Follows : {k : ℕ} (cb : Option TimerCb) (node t : ℕ) → Follows forward k (timeout cb node t)
unfolding timeout
timeout-Follows none node t = skip-Follows
timeout-Follows (some TimerCb.conn_timer_callback) node t = conn_update-Follows node t
timeout-Follows (some TimerCb.stream_timer_callback) node t = stream_update-Follows node t

running-Shortens : (node : ℕ) (s : TimerState) → Shortens (λ t. set_timer_state t node s)
running-Shortens node s t = omega arith

after_timeout-Shortens : (node : ℕ) → Shortens (λ t. after_timeout (t.nodes node).state t node)
after_timeout-Shortens node t = ground arith

run_timer-Follows : {k : ℕ} (node t : ℕ) → Follows forward k (run_timer node t)
unfolding run_timer
run_timer-Follows node t =
    search (rules, mod_timers-Follows, running-Shortens, after_timeout-Shortens, timeout-Follows)
      depth 20

-- The loop that has taken the first node off the list.
abbrev popped : World → List ℕ → World
popped w rest = record w { timers = record (w.timers) { due = rest } }

popped-Evolves :
    {k : ℕ} (w : World) (node : ℕ) (rest : List ℕ)
    → w.timers.due ≡ node ∷ rest
    → Evolves forward k w (popped w rest)
popped-Evolves {k = k} w node rest e =
    let s = same-Evolves {r = forward} {k = k} w in
    record {
      conns = s.conns;
      streams = s.streams;
      addresses = s.addresses;
      depth = s.depth;
      due = rw e (omega arith);
      queued = s.queued;
      queue = s.queue;
      nothing_freed = s.nothing_freed;
      sized = s.sized;
    }

-- A round by the list that it finds.
abbrev round : ℕ → ℕ → World → List ℕ → World
round fuel t w due =
    (elim due as (λ d. Unit {0} × World) [
      | [] ↦ (tt, w)
      | node ∷ rest ↦ run_due fuel t (run_timer node t (popped w rest)).1
    ]).1

run_due-round : (fuel t : ℕ) (w : World) → (run_due (suc fuel) t w).1 ≡ round fuel t w w.timers.due
unfolding run_due
run_due-round fuel t w = refl

-- Any number of rounds goes forward, and as many as nodes are due leave none.
pub record Rounds (k fuel : ℕ) (w w' : World) : Type 0 where
  pub evolves : Evolves forward k w w'
  pub drained : length w.timers.due ≤ fuel → w'.timers.due ≡ []

run_none : {k : ℕ} (t : ℕ) (w : World) → Rounds k 0 w (run_due 0 t w).1
unfolding run_due
run_none t w = record {
  evolves = same-Evolves w;
  drained = λ enough. no_length w.timers.due (omega arith);
}
  where
    no_length : (xs : List ℕ) → length xs ≡ 0 → xs ≡ []
    no_length xs e = ground arith

pub run_due-Rounds :
    {k : ℕ} (fuel t : ℕ) (w : World) → k ≤ w.next_address → Rounds k fuel w (run_due fuel t w).1
run_due-Rounds zero t w h = run_none t w
run_due-Rounds {k = k} (suc fuel) t w h = elim (List-cases w.timers.due) [
  | inl e ↦
      subst (Rounds k (suc fuel) w) (sym (run_due-round fuel t w ∙ ap (round fuel t w) e))
        (record { evolves = same-Evolves w; drained = λ enough. e })
  | inr (node, (rest, e)) ↦
      let start = popped w rest in
      let ran = (run_timer node t start).1 in
      let first = (run_timer-Follows {k = k} node t).run start h in
      let more = run_due-Rounds {k = k} fuel t ran (omega (arith, first.addresses)) in
      let size : length w.timers.due ≡ suc (length rest) = ap length e in
      subst (Rounds k (suc fuel) w) (sym (run_due-round fuel t w ∙ ap (round fuel t w) e)) (record {
        evolves =
            Evolves-trans forward k w start (run_due fuel t ran).1 (popped-Evolves w node rest e)
              (Evolves-trans forward k start ran (run_due fuel t ran).1 first more.evolves);
        drained = λ enough. more.drained (omega (arith, first.due, size));
      })
]

-- The state in which kcpmux_engine_update enters its operation.
abbrev pub collected : World → World
collected w = record w {
  calls = suc w.calls;
  engine = record (w.engine) { external_timer_armed = false };
  timers = collect_due w.timers (w.host.monotonic_time_ms w.calls);
}

abbrev pub entered_update : World → World
entered_update w = (operation_enter (collected w)).1

abbrev pub updated : World → World
updated w =
    (run_due (length (entered_update w).timers.due) (w.host.monotonic_time_ms w.calls)
      (entered_update w)).1

engine_update_steps : (w : World) → (engine_update w).1 ≡ (operation_leave (updated w)).1
unfolding engine_update operation_enter
engine_update_steps w = refl

-- What an update does, from outside any operation.
update_lem :
    (w : World)
    → w.engine.operation_depth ≡ 0
    → Advanced w (operation_leave (updated w)).1 × ((operation_leave (updated w)).1.timers.due ≡ [])
unfolding operation_enter
update_lem w h =
    let entered = entered_update w in
    let t = w.host.monotonic_time_ms w.calls in
    let ran =
      run_due-Rounds {k = w.next_address} (length entered.timers.due) t entered (omega arith) in
    let depth : entered.engine.operation_depth ≡ 1 = rw h refl in
    let a = left-Advanced entered (updated w) ran.evolves (ran.evolves.depth ∙ depth) in
    let s = operation_leave-Settled (updated w) (ran.evolves.depth ∙ depth) in
    (
      record {
        conns = a.conns;
        streams = a.streams;
        addresses = a.addresses;
        depth = a.depth;
        sized = a.sized;
      },
      s.due ∙ ran.drained (omega arith),
    )

pub engine_update-Advanced :
    (w : World) → w.engine.operation_depth ≡ 0 → Advanced w (engine_update w).1
engine_update-Advanced w h = subst (Advanced w) (sym (engine_update_steps w)) (update_lem w h).0

-- The world in which the callback of the first due node is called: the node is off the list and
-- RUNNING, and its run is counted.
abbrev pub started : World → ℕ → List ℕ → World
started w node rest = record w {
  timers = set_timer_state (record (w.timers) { due = rest }) node TimerState.running;
  engine = record (w.engine) { timer_dispatch_count = plus w.engine.timer_dispatch_count 1 };
}

-- A node that is still RUNNING after its callback becomes IDLE.
abbrev pub rested : ℕ → World → World
rested node w = record w { timers = after_timeout (w.timers.nodes node).state w.timers node }

-- The due nodes are run at the time `t`, the first one first, until there is none: each is taken
-- off the list and its callback is called.
pub data IsUpdated (t : ℕ) : World → World → Type 0 where
  all_run : {w : World} → w.timers.due ≡ [] → IsUpdated t w w
  runs_conn :
      {w v : World} (node : ℕ) (rest : List ℕ)
      → w.timers.due ≡ node ∷ rest
      → ((started w node rest).timers.nodes node).timeout_cb ≡ some TimerCb.conn_timer_callback
      → IsUpdated t (rested node (conn_update node t (started w node rest)).1) v
      → IsUpdated t w v
  runs_stream :
      {w v : World} (node : ℕ) (rest : List ℕ)
      → w.timers.due ≡ node ∷ rest
      → ((started w node rest).timers.nodes node).timeout_cb ≡ some TimerCb.stream_timer_callback
      → IsUpdated t (rested node (stream_update node t (started w node rest)).1) v
      → IsUpdated t w v
  has_no_callback :
      {w v : World} (node : ℕ) (rest : List ℕ)
      → w.timers.due ≡ node ∷ rest
      → ((started w node rest).timers.nodes node).timeout_cb ≡ none
      → IsUpdated t (rested node (started w node rest)) v
      → IsUpdated t w v

run_timer_steps :
    (node t : ℕ) (w : World) (rest : List ℕ) (cb : Option TimerCb)
    → ((started w node rest).timers.nodes node).timeout_cb ≡ cb
    → (run_timer node t (popped w rest)).1 ≡ rested node (timeout cb node t (started w node rest)).1
unfolding run_timer
run_timer_steps node t w rest cb e =
    ap (λ x. rested node (timeout x node t (started w node rest)).1) e

first_run :
    (t node : ℕ) (w v : World) (rest : List ℕ) (cb : Option TimerCb)
    → w.timers.due ≡ node ∷ rest
    → ((started w node rest).timers.nodes node).timeout_cb ≡ cb
    → IsUpdated t (rested node (timeout cb node t (started w node rest)).1) v
    → IsUpdated t w v
unfolding timeout
first_run t node w v rest none e c r = has_no_callback node rest e c r
first_run t node w v rest (some TimerCb.conn_timer_callback) e c r = runs_conn node rest e c r
first_run t node w v rest (some TimerCb.stream_timer_callback) e c r = runs_stream node rest e c r

no_fuel : (t : ℕ) (w : World) → w.timers.due ≡ [] → IsUpdated t w (run_due 0 t w).1
unfolding run_due
no_fuel t w e = all_run e

run_due-IsUpdated :
    (fuel t : ℕ) (w : World) → length w.timers.due ≤ fuel → IsUpdated t w (run_due fuel t w).1
run_due-IsUpdated zero t w enough = no_fuel t w (no_length w.timers.due (omega arith))
  where
    no_length : (xs : List ℕ) → length xs ≡ 0 → xs ≡ []
    no_length xs e = ground arith
run_due-IsUpdated (suc fuel) t w enough = elim (List-cases w.timers.due) [
  | inl e ↦ subst (IsUpdated t w) (sym (run_due-round fuel t w ∙ ap (round fuel t w) e)) (all_run e)
  | inr (node, (rest, e)) ↦
      let start = popped w rest in
      let first = (run_timer-Follows {k = 0} node t).run start (omega arith) in
      let size : length w.timers.due ≡ suc (length rest) = ap length e in
      let cb = ((started w node rest).timers.nodes node).timeout_cb in
      let more =
        run_due-IsUpdated fuel t (run_timer node t start).1 (omega (arith, first.due, size)) in
      subst (IsUpdated t w) (sym (run_due-round fuel t w ∙ ap (round fuel t w) e)) (
        first_run t node w _ rest cb e refl (
          subst (λ x. IsUpdated t x (run_due fuel t (run_timer node t start).1).1)
            (run_timer_steps node t w rest cb refl) more))
]

updated-IsUpdated :
    (w : World) → IsUpdated (w.host.monotonic_time_ms w.calls) (entered_update w) (updated w)
updated-IsUpdated w =
    run_due-IsUpdated (length (entered_update w).timers.due) (w.host.monotonic_time_ms w.calls)
      (entered_update w) (omega arith)

-- kcpmux_engine_update, called from outside any operation, collects the timers that are due at its
-- time. Then, until none is due, it takes the first one off the list, marks it RUNNING, counts its
-- run, calls its callback, kcpmux_conn_update or kcpmux_stream_update (nothing, if it has none), and
-- makes it IDLE if it is RUNNING still. Then it leaves the operation. As many rounds as there are
-- due timers at the start are enough for that, whatever the callbacks do; the list is empty at the
-- end.
pub engine_update_drains :
    (w : World)
    → w.engine.operation_depth ≡ 0
    → (v : World) × IsUpdated (w.host.monotonic_time_ms w.calls) (entered_update w) v
      × ((engine_update w).1 ≡ (operation_leave v).1)
      × ((engine_update w).1.timers.due ≡ [])
engine_update_drains w h = (
  updated w,
  updated-IsUpdated w,
  engine_update_steps w,
  ap (λ v. v.timers.due) (engine_update_steps w) ∙ (update_lem w h).1,
)
