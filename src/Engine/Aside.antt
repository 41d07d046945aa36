-- ===== src/Engine/Aside.antt =====
-- What the timer operations of src/kcpmux_engine.c leave alone.
use kcp_mux.Base.{ℕ, ◌-◌, ◌≡◌, refl, ltb, ◌==◌, ◌&&◌, Bool-cases, Option-cases, inl, inr}
use kcp_mux.Timer.{peek, cancel}
use kcp_mux.World.{World}
use kcp_mux.Engine.{now, rearm_timer, unregister_timer_node, forget_owner}

-- The objects and the lists of the engine are as they were.
pub record IsAside (w w' : World) : Type 0 where
  pub conns : w'.conns ≡ w.conns
  pub streams : w'.streams ≡ w.streams
  pub releases : w'.engine.pending_release_list ≡ w.engine.pending_release_list
  pub batches : w'.engine.pending_batch_streams ≡ w.engine.pending_batch_streams
  pub depth : w'.engine.operation_depth ≡ w.engine.operation_depth

same-IsAside : (w : World) → IsAside w w
same-IsAside w = record {
  conns = refl;
  streams = refl;
  releases = refl;
  batches = refl;
  depth = refl;
}

pub rearm_timer-IsAside : (t : ℕ) (w : World) → IsAside w (rearm_timer t w).1
unfolding rearm_timer
rearm_timer-IsAside t w = elim (Bool-cases (ltb 0 w.engine.operation_depth)) [
  | inl e ↦ rw e (same-IsAside w)
  | inr e ↦ rw e (elim (Option-cases (peek w.timers)) [
    | inl n ↦ rw n (same-IsAside w)
    | inr (root, n) ↦
        rw n
          (elim (Bool-cases (
            w.engine.external_timer_armed
            && w.engine.external_timer_deadline_ms == (w.timers.nodes root).deadline_ms)) [
              | inl b ↦ rw b (same-IsAside w)
              | inr b ↦ rw b (record {
                conns = refl;
                streams = refl;
                releases = refl;
                batches = refl;
                depth = refl;
              })
            ])
  ])
]

pub unregister_timer_node-IsAside :
    (node : ℕ) (w : World) → IsAside w (unregister_timer_node node w).1
unfolding unregister_timer_node
unregister_timer_node-IsAside node w = elim (Bool-cases (w.timers.nodes node).owner) [
  | inl e ↦
      let clock = now w in
      let w1 : World = record (clock.1) {
        timers = forget_owner (cancel w.timers node) node;
        engine = record (w.engine) { timer_node_count = w.engine.timer_node_count - 1 };
      } in
      let a = rearm_timer-IsAside clock.0 w1 in
      rw e (record {
        conns = a.conns;
        streams = a.streams;
        releases = a.releases;
        batches = a.batches;
        depth = a.depth;
      })
  | inr e ↦ rw e (same-IsAside w)
]

pub timers-rearm_timer : (t : ℕ) (w : World) → (rearm_timer t w).1.timers ≡ w.timers
unfolding rearm_timer
timers-rearm_timer t w = elim (Bool-cases (ltb 0 w.engine.operation_depth)) [
  | inl e ↦ rw e refl
  | inr e ↦ rw e (elim (Option-cases (peek w.timers)) [
    | inl n ↦ rw n refl
    | inr (root, n) ↦
        rw n
          (elim (Bool-cases (
            w.engine.external_timer_armed
            && w.engine.external_timer_deadline_ms == (w.timers.nodes root).deadline_ms)) [
              | inl b ↦ rw b refl
              | inr b ↦ rw b refl
            ])
  ])
]
