-- ===== src/Timer/Due.antt =====
-- src/kcpmux_timer.c, kcpmux_timer_collect_due: the expired nodes become due, in heap order.
use native.Mathlib.Nat.{le_refl}
use kcp_mux.Base.{
  ℕ, zero, suc, ◌-◌, ◌≤◌, ◌<◌, ◌≡◌, subst, sym, ◌∙◌, refl, arith, length, true, ltb, ◌==◌,
  if◌then◌else◌, Bool-cases, inl, inr, List, [], ◌∷◌, ◌++◌, none, some, contains, append_assoc,
  append-Distinct, contains-append, Option-cases, ap, append-nil, ltb→lt, ltb→ge, length-take,
}
use kcp_mux.Timer.{Node, Timers, TimerState, peek, remove_at, collect_due, collect_due_loop, less}
use kcp_mux.Timer.Order.{NotAfter}
use kcp_mux.Timer.WellFormed.{IsWellFormed, Scheduled, IsDueListed, peek_correct, peek-some}
use kcp_mux.Timer.Removal.{Removed, remove_at-Removed}
use kcp_mux.Timer.Cancel.{Removed-Without, settled, settled-IsWellFormed, same_keys-less}

-- Each node of the batch may stand before the nodes after it.
abbrev pub Sorted : (ℕ → Node) → List ℕ → Type 0
Sorted ns [] = Unit {0}
Sorted ns (x ∷ xs) = ((k : ℕ) → contains xs k ≡ true → NotAfter (ns x) (ns k)) × Sorted ns xs

-- What the collection does to `t`: every scheduled node whose deadline is not after `now_ms` is
-- due, every other node keeps its state, and the new due nodes stand in order behind the old.
pub record Collected (t : Timers) (now_ms : ℕ) (u : Timers) : Type 0 where
  pub well_formed : IsWellFormed u
  pub expired :
      (k : ℕ)
      → Scheduled t k
      → (t.nodes k).deadline_ms ≤ now_ms
      → (u.nodes k).state ≡ TimerState.due
  pub later : (k : ℕ) → Scheduled t k → now_ms < (t.nodes k).deadline_ms → Scheduled u k
  pub others : (k : ℕ) → ¬ Scheduled t k → (u.nodes k).state ≡ (t.nodes k).state
  pub deadline : (k : ℕ) → (u.nodes k).deadline_ms ≡ (t.nodes k).deadline_ms
  pub batch : List ℕ
  pub appended : u.due ≡ t.due ++ batch
  pub taken : (k : ℕ) → contains batch k ≡ true → Scheduled t k
  pub sorted : Sorted t.nodes batch

-- The manager after the node `r` was taken out and appended to the due list.
abbrev expire : Timers → ℕ → Timers
expire u r = settled u r TimerState.due (u.due ++ (r ∷ []))

module _ (t : Timers) (r : ℕ) (u : Timers) (w : IsWellFormed t) (here : Scheduled t r)
    (q : Removed t r u) where
  expire-IsDueListed : IsDueListed (expire u r)
  expire-IsDueListed = record {
    due_state = λ k h.
        ground (
          arith,
          q.kept.due,
          q.kept.state k,
          contains-append u.due (r ∷ []) k,
          w.listed.due_state k,
        );
    due_listed = λ k h. ground (
      arith,
      q.kept.due,
      q.kept.state k,
      contains-append u.due (r ∷ []) k,
      w.listed.due_listed k,
    );
    due_once =
        append-Distinct u.due r (rw q.kept.due w.listed.due_once)
          (ground (arith, q.kept.due, w.listed.due_state r));
  }

  expire-IsWellFormed : IsWellFormed (expire u r)
  expire-IsWellFormed =
      settled-IsWellFormed t r u TimerState.due (u.due ++ (r ∷ [])) (Removed-Without t r u w q)
        (λ e. ground arith) expire-IsDueListed

  expire-state :
      (k : ℕ)
      → ((expire u r).nodes k).state ≡ (if k == r then TimerState.due else (t.nodes k).state)
  expire-state k = ground (arith, q.kept.state k)

  expire-deadline : (k : ℕ) → ((expire u r).nodes k).deadline_ms ≡ (t.nodes k).deadline_ms
  expire-deadline k = ground (arith, q.kept.deadline k)

  expire-sequence :
      (k : ℕ) → ((expire u r).nodes k).insertion_sequence ≡ (t.nodes k).insertion_sequence
  expire-sequence k = ground (arith, q.kept.sequence k)

  expire-Sorted : (xs : List ℕ) → Sorted (expire u r).nodes xs → Sorted t.nodes xs
  expire-Sorted [] s = tt
  expire-Sorted (x ∷ xs) s = (
    λ k h.
        sym (
          same_keys-less (t.nodes k) (t.nodes x) ((expire u r).nodes k) ((expire u r).nodes x)
            (expire-deadline k) (expire-sequence k) (expire-deadline x) (expire-sequence x))
        ∙ s.0 k h,
    expire-Sorted xs s.1,
  )

  -- A round in which the root `r` expires, and the rounds after it.
  expire-Collected :
      (now_ms : ℕ) (v : Timers)
      → (t.nodes r).deadline_ms ≤ now_ms
      → ((k : ℕ) → Scheduled t k → NotAfter (t.nodes r) (t.nodes k))
      → Collected (expire u r) now_ms v
      → Collected t now_ms v
  expire-Collected now_ms v le least c = record {
    well_formed = c.well_formed;
    expired = λ k h l. ground (arith, expire-state k, expire-deadline k, c.expired k, c.others k);
    later = λ k h l. ground (arith, expire-state k, expire-deadline k, c.later k);
    others = λ k h. ground (arith, expire-state k, c.others k);
    deadline = λ k. c.deadline k ∙ expire-deadline k;
    batch = r ∷ c.batch;
    appended =
        c.appended ∙ append_assoc u.due (r ∷ []) c.batch ∙ ap (λ d. d ++ (r ∷ c.batch)) q.kept.due;
    taken = λ k h. ground (arith, expire-state k, c.taken k);
    sorted = (
      λ k h. least k (ground (arith, expire-state k, c.taken k)),
      expire-Sorted c.batch c.sorted,
    );
  }

-- Nothing expired.
none-Collected :
    (t : Timers) (now_ms : ℕ)
    → IsWellFormed t
    → ((k : ℕ) → Scheduled t k → now_ms < (t.nodes k).deadline_ms)
    → Collected t now_ms t
none-Collected t now_ms w h = record {
  well_formed = w;
  expired = λ k s l. absurd (omega (arith, h k s));
  later = λ k s l. s;
  others = λ k s. refl;
  deadline = λ k. refl;
  batch = [];
  appended = sym (append-nil t.due);
  taken = λ k e. absurd (ground arith);
  sorted = tt;
}

NotAfter-deadline : (a b : Node) → NotAfter a b → a.deadline_ms ≤ b.deadline_ms
unfolding less
NotAfter-deadline a b h = ground arith

round_zero : (t : Timers) (now_ms : ℕ) → collect_due_loop 0 t now_ms ≡ t
unfolding collect_due_loop
round_zero t now_ms = refl

-- A round at an empty heap, and at a root.
round_none :
    (fuel : ℕ) (t : Timers) (now_ms : ℕ) → peek t ≡ none → collect_due_loop (suc fuel) t now_ms ≡ t
unfolding collect_due_loop
round_none fuel t now_ms e =
    ap
      (λ p. elim p [
        | none ↦ t
        | some n ↦
            if ltb now_ms (t.nodes n).deadline_ms
            then t
            else collect_due_loop fuel (expire (remove_at t 0).0 (remove_at t 0).1) now_ms
      ])
      e

round_some :
    (fuel : ℕ) (t : Timers) (now_ms node : ℕ)
    → peek t ≡ some node
    → collect_due_loop (suc fuel) t now_ms ≡ (
        if ltb now_ms (t.nodes node).deadline_ms
        then t
        else collect_due_loop fuel (expire (remove_at t 0).0 (remove_at t 0).1) now_ms)
unfolding collect_due_loop
round_some fuel t now_ms node e =
    ap
      (λ p. elim p [
        | none ↦ t
        | some n ↦
            if ltb now_ms (t.nodes n).deadline_ms
            then t
            else collect_due_loop fuel (expire (remove_at t 0).0 (remove_at t 0).1) now_ms
      ])
      e

collect_due_loop-Collected :
    (fuel : ℕ) (t : Timers) (now_ms : ℕ)
    → IsWellFormed t
    → length t.heap ≤ fuel
    → Collected t now_ms (collect_due_loop fuel t now_ms)
collect_due_loop-Collected zero t now_ms w enough =
    rw (round_zero t now_ms)
      (none-Collected t now_ms w (λ k s. absurd (omega (arith, w.placed.located k s))))
collect_due_loop-Collected (suc fuel) t now_ms w enough = elim (Option-cases (peek t)) [
  | inl e ↦
      rw (round_none fuel t now_ms e)
        (none-Collected t now_ms w (λ k s. absurd ((peek_correct t w).1 e k s)))
  | inr (node, e) ↦
      let (here, least) = (peek_correct t w).0 node e in
      let (inside, at) = peek-some t node e in
      let (removed, r) = remove_at-Removed t 0 w inside in
      let u = (remove_at t 0).0 in
      let q : Removed t node u = subst (λ x. Removed t x u) at r in
      rw (round_some fuel t now_ms node e)
        (elim (Bool-cases (ltb now_ms (t.nodes node).deadline_ms)) [
          | inl b ↦ rw b (
              none-Collected t now_ms w (λ k s. omega (
                arith,
                NotAfter-deadline (t.nodes node) (t.nodes k) (least k s),
                ltb→lt now_ms (t.nodes node).deadline_ms b,
              )))
          | inr b ↦
              rw (b, removed, at)
                (expire-Collected t node u w here q now_ms
                  (collect_due_loop fuel (expire u node) now_ms)
                  (ltb→ge now_ms (t.nodes node).deadline_ms b) least
                  (collect_due_loop-Collected fuel (expire u node) now_ms
                    (expire-IsWellFormed t node u w here q)
                    (omega (arith, q.kept.size, length-take (length t.heap - 1) t.heap))))
        ])
]

-- In a well-formed manager kcpmux_timer_collect_due takes exactly the scheduled nodes whose
-- deadline is not after `now_ms` out of the heap, makes them due, and appends them to the due list
-- by deadline and then by insertion. The other nodes keep their states, all keep their deadlines,
-- and the manager stays well-formed.
pub collect_due_correct :
    (t : Timers) (now_ms : ℕ) → IsWellFormed t → Collected t now_ms (collect_due t now_ms)
unfolding collect_due
collect_due_correct t now_ms w =
    collect_due_loop-Collected (length t.heap) t now_ms w (le_refl (length t.heap))
