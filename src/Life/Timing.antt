-- ===== src/Life/Timing.antt =====
-- The timer operations, the queue of releases and the transport of src/kcpmux_engine.c, and the
-- messages of src/kcpmux_protocol.c: what they do to the objects.
use kcp_mux.Base.{
  ℕ, ◌≤◌, refl, Bool, Bool-cases, Option-cases, inl, inr, ltb, ◌==◌, ◌&&◌, List, ◌∷◌, [],
}
use kcp_mux.Config.{msg_max_len}
use kcp_mux.Types.{is_ok, Ret, Iovec, is_ok}
use kcp_mux.Timer.{Timers, TimerCb, peek, schedule}
use kcp_mux.World.{World, Release, ◌>>=◌, ◌>>◌, gets, mod_timers, when, return}
use kcp_mux.Engine.{
  now, random_u64, rearm_timer, queue_release, register_timer_node, unregister_timer_node,
  schedule_timer_node, cancel_timer_node, total_len, engine_write_socketv,
}
use kcp_mux.Send.{write_socketv}
use kcp_mux.Life.Relation.{Rel, Follows, Evolves-trans}
use kcp_mux.Life.Combinators.{same-Evolves, return-Follows, then-Follows, when-Follows, ask-Follows}
use kcp_mux.Life.Changes.{mod_timers-Follows, rules}
use kcp_mux.Life.DueList.{
  cancel-Shortens, schedule-Shortens, manager_reserve-Shortens, node_init-Shortens,
}

module _ {r : Rel} {k : ℕ} where
  pub now-Follows : Follows r k now
  unfolding now
  now-Follows = ask-Follows _

  pub random_u64-Follows : Follows r k random_u64
  unfolding random_u64
  random_u64-Follows = search rules depth 12

  pub rearm_timer-Follows : (t : ℕ) → Follows r k (rearm_timer t)
  unfolding rearm_timer
  rearm_timer-Follows t = record {
    run = λ w h. elim (Bool-cases (ltb 0 w.engine.operation_depth)) [
      | inl e ↦ rw e (same-Evolves w)
      | inr e ↦ rw e (elim (Option-cases (peek w.timers)) [
        | inl n ↦ rw n (same-Evolves w)
        | inr (root, n) ↦
            rw n
              (elim (Bool-cases (
                w.engine.external_timer_armed
                && w.engine.external_timer_deadline_ms == (w.timers.nodes root).deadline_ms)) [
                  | inl b ↦ rw b (same-Evolves w)
                  | inr b ↦ rw b (
                      let s = same-Evolves {r = r} {k = k} w in
                      record {
                        conns = s.conns;
                        streams = s.streams;
                        addresses = s.addresses;
                        depth = s.depth;
                        due = s.due;
                        queued = s.queued;
                        queue = s.queue;
                        nothing_freed = s.nothing_freed;
                        sized = s.sized;
                      })
                ])
      ])
    ];
  }

  pub queue_release-Follows : (item : Release) → Follows r k (queue_release item)
  unfolding queue_release
  queue_release-Follows item = record {
    run = λ w h.
        let s = same-Evolves {r = r} {k = k} w in
        record {
          conns = s.conns;
          streams = s.streams;
          addresses = s.addresses;
          depth = s.depth;
          due = s.due;
          queued = item ∷ [];
          queue = refl;
          nothing_freed = s.nothing_freed;
          sized = s.sized;
        };
  }

  pub register_timer_node-Follows : (m : ℕ) (cb : TimerCb) → Follows r k (register_timer_node m cb)
  unfolding register_timer_node
  register_timer_node-Follows m cb =
      search (rules, mod_timers-Follows, manager_reserve-Shortens, node_init-Shortens m cb) depth 20

  pub unregister_timer_node-Follows : (m : ℕ) → Follows r k (unregister_timer_node m)
  unfolding unregister_timer_node
  unregister_timer_node-Follows m =
      search (rules, mod_timers-Follows, cancel-Shortens m, rearm_timer-Follows) depth 20

  pub cancel_timer_node-Follows : (m t : ℕ) → Follows r k (cancel_timer_node m t)
  unfolding cancel_timer_node
  cancel_timer_node-Follows m t =
      then-Follows (mod_timers-Follows _ (cancel-Shortens m)) (rearm_timer-Follows t)

  -- The scheduling of a registered node, once `realloc` answered.
  schedule_answered :
      (m deadline_ms t : ℕ) (realloc_ok : Bool)
      → Follows r k {A = Ret} (do
        x ← gets World.timers
        mod_timers (λ y. (schedule realloc_ok x m deadline_ms).0)
        when (is_ok (schedule realloc_ok x m deadline_ms).1) (rearm_timer t)
        return (schedule realloc_ok x m deadline_ms).1)
  schedule_answered m deadline_ms t realloc_ok = record {
    run = λ w h.
        let f : Timers → Timers = λ x. (schedule realloc_ok x m deadline_ms).0 in
        let status = (schedule realloc_ok w.timers m deadline_ms).1 in
        let scheduled = (mod_timers f w).1 in
        Evolves-trans r k w scheduled
          ((when (is_ok status) (rearm_timer t) >> return status) scheduled).1
          ((mod_timers-Follows {r = r} {k = k} f (schedule-Shortens realloc_ok m deadline_ms)).run w
            h)
          ((then-Follows {r = r} {k = k} (when-Follows (is_ok status) (rearm_timer-Follows t))
              (return-Follows status)).run
            scheduled h);
  }

  pub schedule_timer_node-Follows :
      (m deadline_ms t : ℕ) → Follows r k (schedule_timer_node m deadline_ms t)
  unfolding schedule_timer_node
  schedule_timer_node-Follows m deadline_ms t = search (rules, schedule_answered) depth 20

  pub engine_write_socketv-Follows :
      (iov : List Iovec) (addr : List ℕ)
      → total_len iov ≤ msg_max_len
      → Follows r k (engine_write_socketv iov addr)
  unfolding engine_write_socketv
  engine_write_socketv-Follows iov addr fits = search rules depth 20

  pub write_socketv-Follows :
      (c : ℕ) (iov : List Iovec) → total_len iov ≤ msg_max_len → Follows r k (write_socketv c iov)
  unfolding write_socketv
  write_socketv-Follows c iov fits = search (rules, engine_write_socketv-Follows) depth 20
