-- ===== src/Run/Operation.antt =====
-- What a call of include/kcpmux/kcpmux.h does from kcpmux_engine_operation_enter to
-- kcpmux_engine_operation_leave.
use kcp_mux.Base.{
  ℕ, subst, sym, suc, ltb, ◌&&◌, Option-cases, false, ◌≤◌, ◌<◌, ◌≡◌, refl, ◌∙◌, arith, List, [],
  ◌∷◌, Bool-cases, inl, inr, true, ◌==◌,
}
use kcp_mux.Timer.{peek}
use kcp_mux.Htb.{flush}
use kcp_mux.World.{World, M, Release, conn_release, stream_free}
use kcp_mux.Engine.{
  operation_enter, operation_leave, drain_releases, rearm_timer, release_object, now,
}
use kcp_mux.Engine.Operations.{operation_leave_correct}
use kcp_mux.Life.Relation.{AreSized, Evolves, Follows, IsQuietConn, same-IsQuietConn}
use kcp_mux.Life.Changes.{mod_conn-Evolves}
use kcp_mux.Life.Forward.{
  forward, quiet, IsForwardConn, IsForwardStream, quiet-IsForwardConn, IsForwardConn-trans,
}

-- The connections keep their states, and the rest is as it was.
pub record Settled (w w' : World) : Type 0 where
  pub conns : (c : ℕ) → IsQuietConn (w.conns c) (w'.conns c)
  pub streams : w'.streams ≡ w.streams
  pub addresses : w'.next_address ≡ w.next_address
  pub due : w'.timers.due ≡ w.timers.due
  pub batches : w'.engine.pending_batch_streams ≡ w.engine.pending_batch_streams
  pub sized : AreSized w.trace → AreSized w'.trace

same-Settled : (w : World) → Settled w w
same-Settled w = record {
  conns = λ c. same-IsQuietConn (w.conns c);
  streams = refl;
  addresses = refl;
  due = refl;
  batches = refl;
  sized = λ t. t;
}

release_object-Settled : (item : Release) (w : World) → Settled w (release_object item w).1
unfolding release_object
release_object-Settled (stream_free s) w = record {
  conns = λ c. same-IsQuietConn (w.conns c);
  streams = refl;
  addresses = refl;
  due = refl;
  batches = refl;
  sized = λ t. t;
}
release_object-Settled (conn_release c) w = record {
  conns = λ d.
      (mod_conn-Evolves {r = quiet} {k = suc d} c
          (λ x. record x { stream_map = flush x.stream_map }) w
          (λ below. record {
            state = refl;
            closed = refl;
            id = refl;
            initiator = refl;
            addr = refl;
            retries = refl;
          })).conns
        d (omega arith);
  streams = refl;
  addresses = refl;
  due = refl;
  batches = refl;
  sized = λ t. t;
}

Settled-trans : (w v u : World) → Settled w v → Settled v u → Settled w u
Settled-trans w v u p q = record {
  conns = λ c. quiet.trans_conn (w.conns c) (v.conns c) (u.conns c) (p.conns c) (q.conns c);
  streams = q.streams ∙ p.streams;
  addresses = q.addresses ∙ p.addresses;
  due = q.due ∙ p.due;
  batches = q.batches ∙ p.batches;
  sized = λ t. q.sized (p.sized t);
}

-- Only the engine and the number of calls are other than before.
engine_only :
    (w v : World)
    → v.conns ≡ w.conns
    → v.streams ≡ w.streams
    → v.next_address ≡ w.next_address
    → v.timers.due ≡ w.timers.due
    → v.engine.pending_batch_streams ≡ w.engine.pending_batch_streams
    → (AreSized w.trace → AreSized v.trace)
    → Settled w v
engine_only w v conns streams addresses due batches sized = record {
  conns = λ c. rw conns (same-IsQuietConn (w.conns c));
  streams = streams;
  addresses = addresses;
  due = due;
  batches = batches;
  sized = sized;
}

drain_releases-Settled : (items : List Release) (w : World) → Settled w (drain_releases items w).1
unfolding drain_releases
drain_releases-Settled [] w = same-Settled w
drain_releases-Settled (item ∷ rest) w =
    let popped : World = record w { engine = record (w.engine) { pending_release_list = rest } } in
    let released = (release_object item popped).1 in
    Settled-trans w released (drain_releases rest released).1
      (Settled-trans w popped released (engine_only w popped refl refl refl refl refl (λ h. h))
        (release_object-Settled item popped))
      (drain_releases-Settled rest released)

rearm_timer-Settled : (t : ℕ) (w : World) → Settled w (rearm_timer t w).1
unfolding rearm_timer
rearm_timer-Settled t w = elim (Bool-cases (ltb 0 w.engine.operation_depth)) [
  | inl e ↦ rw e (same-Settled w)
  | inr e ↦ rw e (elim (Option-cases (peek w.timers)) [
    | inl n ↦ rw n (same-Settled w)
    | inr (root, n) ↦
        rw n
          (elim (Bool-cases (
            w.engine.external_timer_armed
            && w.engine.external_timer_deadline_ms == (w.timers.nodes root).deadline_ms)) [
              | inl b ↦ rw b (same-Settled w)
              | inr b ↦ rw b (engine_only w _ refl refl refl refl refl (λ h. h))
            ])
  ])
]

pub operation_leave-Settled :
    (w : World) → w.engine.operation_depth ≡ 1 → Settled w (operation_leave w).1
unfolding operation_leave
operation_leave-Settled w e =
    let inside : World = record w { engine = record (w.engine) { operation_depth = 1 } } in
    let drained = (drain_releases w.engine.pending_release_list inside).1 in
    let outside : World = record drained {
      engine = record (drained.engine) { operation_depth = 0 };
    } in
    let clock = now outside in
    let a : (w.engine.operation_depth == 0) ≡ false = ground arith in
    let b : (w.engine.operation_depth == 1) ≡ true = ground arith in
    rw (a, b)
      (Settled-trans w drained (rearm_timer clock.0 clock.1).1
        (Settled-trans w inside drained (engine_only w inside refl refl refl refl refl (λ h. h))
          (drain_releases-Settled w.engine.pending_release_list inside))
        (Settled-trans drained clock.1 (rearm_timer clock.0 clock.1).1
          (engine_only drained clock.1 refl refl refl refl refl (λ h. h))
          (rearm_timer-Settled clock.0 clock.1)))

-- The objects that were there went forward, no operation is open, and what was sent fits.
pub record Advanced (w w' : World) : Type 0 where
  pub conns : (c : ℕ) → c < w.next_address → IsForwardConn (w.conns c) (w'.conns c)
  pub streams : (s : ℕ) → s < w.next_address → IsForwardStream (w.streams s) (w'.streams s)
  pub addresses : w.next_address ≤ w'.next_address
  pub depth : w'.engine.operation_depth ≡ 0
  pub sized : AreSized w.trace → AreSized w'.trace

pub Evolves-Advanced :
    (w v : World) → w.engine.operation_depth ≡ 0 → Evolves forward w.next_address w v → Advanced w v
Evolves-Advanced w v h e = record {
  conns = e.conns;
  streams = e.streams;
  addresses = e.addresses;
  depth = e.depth ∙ h;
  sized = e.sized;
}

-- The end of an operation whose body went forward.
pub left-Advanced :
    (w v : World)
    → Evolves forward w.next_address w v
    → v.engine.operation_depth ≡ 1
    → Advanced w (operation_leave v).1
left-Advanced w v e h =
    let s = operation_leave-Settled v h in
    let l = (operation_leave_correct v).1 h in
    record {
      conns = λ c below.
          IsForwardConn-trans (w.conns c) (v.conns c) ((operation_leave v).1.conns c)
            (e.conns c below)
            (quiet-IsForwardConn (v.conns c) ((operation_leave v).1.conns c) (s.conns c));
      streams = λ c below.
          subst (λ f. IsForwardStream (w.streams c) (f c)) (sym s.streams) (e.streams c below);
      addresses = omega (arith, e.addresses, s.addresses);
      depth = l.depth;
      sized = λ t. s.sized (e.sized t);
    }

-- An operation from outside any other.
pub operation-Advanced :
    {A : Type 0} (m : M A)
    → ((k : ℕ) → Follows forward k m)
    → (w : World) → w.engine.operation_depth ≡ 0
    → Advanced w (operation_leave (m (operation_enter w).1).1).1
unfolding operation_enter
operation-Advanced m p w h =
    let entered = (operation_enter w).1 in
    let e = (p w.next_address).run entered (omega arith) in
    let depth : entered.engine.operation_depth ≡ 1 = rw h refl in
    let a = left-Advanced entered (m entered).1 e (e.depth ∙ depth) in
    record {
      conns = a.conns;
      streams = a.streams;
      addresses = a.addresses;
      depth = a.depth;
      sized = a.sized;
    }
