-- ===== src/Engine/Operations.antt =====
-- Operations of src/kcpmux_engine.c: what kcpmux_engine_operation_leave does at each depth.
use kcp_mux.Base.{
  ℕ, ◌+◌, ◌-◌, ◌≡◌, refl, subst, suc, none, ◌∙◌, ap, arith, List, [], ◌∷◌, ◌≢◌, ◌⊎◌, inl, inr, true,
  false, Bool-cases, Option-cases, some, ◌==◌, ◌&&◌, ltb, leb, if◌then◌else◌, none, Bool,
}
use kcp_mux.Timer.{Timers, peek}
use kcp_mux.World.{World, Event, Release, conn_release, stream_free, freed, set_timer}
use kcp_mux.Engine.{operation_leave, drain_releases, rearm_timer, now, release_object}

abbrev pub released : Release → ℕ
released (conn_release c) = c
released (stream_free s) = s

-- The objects of a list are freed in its order.
abbrev pub all_freed : List Release → List Event → List Event
all_freed [] trace = trace
all_freed (x ∷ xs) trace = all_freed xs (freed (released x) ∷ trace)

-- What draining `items` does.
pub record Drained (items : List Release) (w w' : World) : Type 0 where
  pub pending : w.engine.pending_release_list ≡ items → w'.engine.pending_release_list ≡ []
  pub trace : w'.trace ≡ all_freed items w.trace
  pub timers : w'.timers ≡ w.timers
  pub depth : w'.engine.operation_depth ≡ w.engine.operation_depth
  pub clock : w'.host.monotonic_time_ms w'.calls ≡ w.host.monotonic_time_ms w.calls
  pub set : w'.engine.external_timer_armed ≡ w.engine.external_timer_armed
  pub set_for : w'.engine.external_timer_deadline_ms ≡ w.engine.external_timer_deadline_ms

drain_releases_lem : (items : List Release) (w : World) → Drained items w (drain_releases items w).1
unfolding drain_releases
drain_releases_lem [] w = record {
  pending = λ e. e;
  trace = refl;
  timers = refl;
  depth = refl;
  clock = refl;
  set = refl;
  set_for = refl;
}
drain_releases_lem (conn_release c ∷ rest) w =
    let d =
      drain_releases_lem rest
        (release_object (conn_release c)
          (record w { engine = record (w.engine) { pending_release_list = rest } })).1 in
    record {
      pending = λ e. d.pending refl;
      trace = d.trace;
      timers = d.timers;
      depth = d.depth;
      clock = d.clock;
      set = d.set;
      set_for = d.set_for;
    }
drain_releases_lem (stream_free s ∷ rest) w =
    let d =
      drain_releases_lem rest
        (release_object (stream_free s)
          (record w { engine = record (w.engine) { pending_release_list = rest } })).1 in
    record {
      pending = λ e. d.pending refl;
      trace = d.trace;
      timers = d.timers;
      depth = d.depth;
      clock = d.clock;
      set = d.set;
      set_for = d.set_for;
    }

-- The external timer is armed for the first deadline of the heap, if there is one: it was so
-- before, or `set_timer` is called with the time that is left. `before` is what was done before,
-- `is_set` and `deadline_ms` are what the timer was set to.
pub record Armed (now_ms : ℕ) (before : List Event) (timers : Timers) (is_set : Bool)
    (deadline_ms : ℕ) (w' : World) : Type 0 where
  pub armed :
      (root : ℕ)
      → peek timers ≡ some root
      → (w'.engine.external_timer_armed ≡ true)
        × (w'.engine.external_timer_deadline_ms ≡ (timers.nodes root).deadline_ms)
  pub none_scheduled : peek timers ≡ none → w'.trace ≡ before
  pub still_set :
      (root : ℕ)
      → peek timers ≡ some root
      → is_set ≡ true
      → deadline_ms ≡ (timers.nodes root).deadline_ms
      → w'.trace ≡ before
  pub newly_set :
      (root : ℕ)
      → peek timers ≡ some root
      → (is_set ≡ false) ⊎ (deadline_ms ≢ (timers.nodes root).deadline_ms)
      → w'.trace ≡ set_timer ((timers.nodes root).deadline_ms - now_ms) ∷ before

-- What rearming leaves alone.
record Beside (w w' : World) : Type 0 where
  pub timers : w'.timers ≡ w.timers
  pub depth : w'.engine.operation_depth ≡ w.engine.operation_depth
  pub pending : w'.engine.pending_release_list ≡ w.engine.pending_release_list

rearm_timer_lem :
    (now_ms : ℕ) (w : World)
    → w.engine.operation_depth ≡ 0
    → Armed now_ms w.trace w.timers w.engine.external_timer_armed
        w.engine.external_timer_deadline_ms
        (rearm_timer now_ms w).1
      × Beside w (rearm_timer now_ms w).1
unfolding rearm_timer
rearm_timer_lem now_ms w h =
    let outside : ltb 0 w.engine.operation_depth ≡ false = ground arith in
    rw outside (elim (Option-cases (peek w.timers)) [
      | inl e ↦ rw e (
        record {
          armed = λ root r. absurd (ground arith);
          none_scheduled = λ r. refl;
          still_set = λ root r a d. absurd (ground arith);
          newly_set = λ root r a. absurd (ground arith);
        },
        record { timers = refl; depth = refl; pending = refl },
      )
      | inr (root, e) ↦
          let deadline_ms = (w.timers.nodes root).deadline_ms in
          rw e
            (elim (Bool-cases (
              w.engine.external_timer_armed
              && w.engine.external_timer_deadline_ms == deadline_ms)) [
                | inl b ↦ rw b (
                  record {
                    armed = λ other r. ground arith;
                    none_scheduled = λ r. absurd (ground arith);
                    still_set = λ other r a d. refl;
                    newly_set = λ other r a. absurd (ground arith);
                  },
                  record { timers = refl; depth = refl; pending = refl },
                )
                | inr b ↦
                    let left : (if leb deadline_ms now_ms then 0 else deadline_ms - now_ms)
                        ≡ deadline_ms - now_ms =
                      ground arith in
                    rw b (
                      record {
                        armed = λ other r. ground arith;
                        none_scheduled = λ r. absurd (ground arith);
                        still_set = λ other r a d. absurd (ground arith);
                        newly_set = λ other r a.
                            let same : root ≡ other = ground arith in
                            ap (λ d. set_timer d ∷ w.trace)
                              (left ∙ ap (λ x. (w.timers.nodes x).deadline_ms - now_ms) same);
                      },
                      record { timers = refl; depth = refl; pending = refl },
                    )
              ])
    ])

Armed-subst :
    {now_ms : ℕ} {before : List Event} {timers : Timers} {is_set : Bool} {deadline_ms : ℕ}
    (now_ms' : ℕ) (before' : List Event) (timers' : Timers) (is_set' : Bool) (deadline_ms' : ℕ)
    → now_ms' ≡ now_ms
    → before' ≡ before
    → timers' ≡ timers
    → is_set' ≡ is_set
    → deadline_ms' ≡ deadline_ms
    → (w' : World) → Armed now_ms' before' timers' is_set' deadline_ms' w'
    → Armed now_ms before timers is_set deadline_ms w'
Armed-subst {now_ms} {before} {timers} {is_set} {deadline_ms} n' b' t' s' d' n b t s d w' a =
    subst (λ x. Armed now_ms before timers is_set x w') d
      (subst (λ x. Armed now_ms before timers x d' w') s
        (subst (λ x. Armed now_ms before x s' d' w') t
          (subst (λ x. Armed now_ms x t' s' d' w') b (subst (λ x. Armed x b' t' s' d' w') n a))))

-- What the end of the outermost operation leaves, at the time of the clock.
pub record Left (w w' : World) : Type 0 where
  pub depth : w'.engine.operation_depth ≡ 0
  pub pending : w'.engine.pending_release_list ≡ []
  pub timers : w'.timers ≡ w.timers
  pub external :
      Armed
        (w.host.monotonic_time_ms w.calls)
        (all_freed w.engine.pending_release_list w.trace)
        w.timers
        w.engine.external_timer_armed
        w.engine.external_timer_deadline_ms
        w'

-- kcpmux_engine_operation_leave of a nested operation only counts down, and frees nothing. At the
-- end of the outermost operation every queued object is freed, in the order in which they were
-- queued, the queue is empty, and the timers are as they were. If a node is scheduled, the
-- external timer is then set for the first deadline: where it was not set for that deadline
-- already, `set_timer` is called once, after the frees, with the time that is left until then, and
-- 0 when the deadline has passed; otherwise it is not called.
pub operation_leave_correct :
    (w : World)
    → ((n : ℕ)
        → w.engine.operation_depth ≡ n + 2
        → (operation_leave w).1
          ≡ record w { engine = record (w.engine) { operation_depth = n + 1 } })
      × (w.engine.operation_depth ≡ 1 → Left w (operation_leave w).1)
unfolding operation_leave now
operation_leave_correct w = (
  λ n e.
      let a : (w.engine.operation_depth == 0) ≡ false = ground arith in
      let b : (w.engine.operation_depth == 1) ≡ false = ground arith in
      let c : w.engine.operation_depth - 1 ≡ n + 1 = omega arith in rw (a, b, c) refl,
  λ e.
      let v = record w { engine = record (w.engine) { operation_depth = 1 } } in
      let d = drain_releases_lem w.engine.pending_release_list v in
      let drained = (drain_releases w.engine.pending_release_list v).1 in
      let outside : World = record drained {
        calls = suc drained.calls;
        engine = record (drained.engine) { operation_depth = 0 };
      } in
      let t = drained.host.monotonic_time_ms drained.calls in
      let ran = rearm_timer_lem t outside refl in
      let a : (w.engine.operation_depth == 0) ≡ false = ground arith in
      let b : (w.engine.operation_depth == 1) ≡ true = ground arith in
      rw (a, b)
        (record {
          depth = ran.1.depth;
          pending = ran.1.pending ∙ d.pending refl;
          timers = ran.1.timers ∙ d.timers;
          external =
              Armed-subst t drained.trace drained.timers drained.engine.external_timer_armed
                drained.engine.external_timer_deadline_ms d.clock d.trace d.timers d.set d.set_for
                (rearm_timer t outside).1 ran.0;
        }),
)
