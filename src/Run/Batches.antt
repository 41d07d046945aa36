-- ===== src/Run/Batches.antt =====
-- The loop of kcpmux_engine_finish_batch in src/kcpmux_engine.c.
use kcp_mux.Base.{
  update, ℕ, zero, suc, ◌≤◌, ◌≡◌, not, refl, ◌∙◌, ap, sym, subst, arith, List, [], ◌∷◌, length,
  Bool, Bool-cases, List-cases, inl, inr, ltb, remove, if◌then◌else◌, true, false,
}
use kcp_mux.Types.{is_ok}
use kcp_mux.Timer.{schedule}
use kcp_mux.World.{World, when}
use kcp_mux.Engine.{schedule_timer_node, rearm_timer, operation_enter, operation_leave, now}
use kcp_mux.Engine.Aside.{rearm_timer-IsAside}
use kcp_mux.Transfer.{batch_waits, finish_batch_at}
use kcp_mux.Loop.{finish_batches, engine_finish_batch}
use kcp_mux.Life.Changes.{mod_engine-Follows}
use kcp_mux.Life.Relation.{Evolves, Evolves-trans}
use kcp_mux.Life.Combinators.{same-Evolves}
use kcp_mux.Life.Data.{finish_batch_at-Follows}
use kcp_mux.Life.DueList.{length-remove_le}
use kcp_mux.Run.Operation.{Advanced, left-Advanced, operation_leave-Settled}
use kcp_mux.Life.Forward.{forward}

abbrev pub batches : World → List ℕ
batches w = w.engine.pending_batch_streams

rearm_if-batches : (b : Bool) (t : ℕ) (w : World) → batches (when b (rearm_timer t) w).1 ≡ batches w
rearm_if-batches true t w = (rearm_timer-IsAside t w).batches
rearm_if-batches false t w = refl

schedule_timer_node-batches :
    (node deadline_ms t : ℕ) (w : World)
    → batches (schedule_timer_node node deadline_ms t w).1 ≡ batches w
unfolding schedule_timer_node
schedule_timer_node-batches node deadline_ms t w =
    elim (Bool-cases (not (w.timers.nodes node).owner)) [
      | inl e ↦ rw e refl
      | inr e ↦
          let r =
            schedule (w.host.malloc_ok w.calls) w.timers node
              (if ltb deadline_ms t then t else deadline_ms) in
          rw e (rearm_if-batches (is_ok r.1) t (record w { calls = suc w.calls; timers = r.0 }))
    ]

finish_batch_at-batches :
    (s t : ℕ) (w : World) → length (batches (finish_batch_at s t w).1) ≤ length (batches w)
unfolding finish_batch_at
finish_batch_at-batches s t w =
    let threshold = (w.streams s).config.batch_threshold in
    let removed : World = record w {
      engine = record (w.engine) { pending_batch_streams = remove (batches w) s };
      streams =
          update w.streams s
            (record (w.streams s) { pending_count = if ltb 1 threshold then threshold else 0 });
    } in
    elim (Bool-cases (batch_waits (w.conns (w.streams s).conn) (w.streams s))) [
      | inl e ↦ rw e (
          subst (λ l. length l ≤ length (batches w))
            (sym (schedule_timer_node-batches s t t removed)) (length-remove_le (batches w) s))
      | inr e ↦ rw e (omega arith)
    ]

-- A round by the list that it finds.
abbrev pub popped_batch : World → List ℕ → World
popped_batch w rest = record w { engine = record (w.engine) { pending_batch_streams = rest } }

abbrev batch_round : ℕ → ℕ → World → List ℕ → World
batch_round fuel t w streams =
    (elim streams as (λ l. Unit {0} × World) [
      | [] ↦ (tt, w)
      | s ∷ rest ↦ finish_batches fuel t (finish_batch_at s t (popped_batch w rest)).1
    ]).1

finish_batches-round :
    (fuel t : ℕ) (w : World) → (finish_batches (suc fuel) t w).1 ≡ batch_round fuel t w (batches w)
unfolding finish_batches
finish_batches-round fuel t w = refl

-- Any number of rounds goes forward, and as many as streams are pending leave none.
record BatchRounds (k fuel : ℕ) (w w' : World) : Type 0 where
  pub evolves : Evolves forward k w w'
  pub finished : length (batches w) ≤ fuel → batches w' ≡ []

no_rounds : {k : ℕ} (t : ℕ) (w : World) → BatchRounds k 0 w (finish_batches 0 t w).1
unfolding finish_batches
no_rounds t w = record {
  evolves = same-Evolves w;
  finished = λ enough. no_length (batches w) (omega arith);
}
  where
    no_length : (xs : List ℕ) → length xs ≡ 0 → xs ≡ []
    no_length xs e = ground arith

popped_batch-Evolves :
    {k : ℕ} (w : World) (rest : List ℕ)
    → k ≤ w.next_address
    → Evolves forward k w (popped_batch w rest)
popped_batch-Evolves {k = k} w rest h =
    (mod_engine-Follows {r = forward} {k = k} (λ e. record e { pending_batch_streams = rest })
        (λ e. refl) (λ e. refl)).run
      w h

finish_batches-BatchRounds :
    {k : ℕ} (fuel t : ℕ) (w : World)
    → k ≤ w.next_address
    → BatchRounds k fuel w (finish_batches fuel t w).1
finish_batches-BatchRounds zero t w h = no_rounds t w
finish_batches-BatchRounds {k = k} (suc fuel) t w h = elim (List-cases (batches w)) [
  | inl e ↦
      subst (BatchRounds k (suc fuel) w)
        (sym (finish_batches-round fuel t w ∙ ap (batch_round fuel t w) e))
        (record { evolves = same-Evolves w; finished = λ enough. e })
  | inr (s, (rest, e)) ↦
      let start = popped_batch w rest in
      let ran = (finish_batch_at s t start).1 in
      let first = (finish_batch_at-Follows {r = forward} {k = k} s t).run start h in
      let more = finish_batches-BatchRounds {k = k} fuel t ran (omega (arith, first.addresses)) in
      let size : length (batches w) ≡ suc (length rest) = ap length e in
      subst (BatchRounds k (suc fuel) w)
        (sym (finish_batches-round fuel t w ∙ ap (batch_round fuel t w) e))
        (record {
          evolves =
              Evolves-trans forward k w start (finish_batches fuel t ran).1
                (popped_batch-Evolves w rest h)
                (Evolves-trans forward k start ran (finish_batches fuel t ran).1 first
                  more.evolves);
          finished =
              λ enough. more.finished (omega (arith, finish_batch_at-batches s t start, size));
        })
]

-- The state in which kcpmux_engine_finish_batch starts to finish batches.
abbrev pub entered_batch : World → World
entered_batch w = (operation_enter (now w).1).1

abbrev finished : World → World
finished w = (finish_batches (length (batches w)) (now w).0 (entered_batch w)).1

engine_finish_batch_steps :
    (w : World) → (engine_finish_batch w).1 ≡ (operation_leave (finished w)).1
unfolding engine_finish_batch now operation_enter
engine_finish_batch_steps w = refl

finish_lem :
    (w : World)
    → w.engine.operation_depth ≡ 0
    → Advanced w (operation_leave (finished w)).1 × (batches (operation_leave (finished w)).1 ≡ [])
unfolding operation_enter now
finish_lem w h =
    let entered = entered_batch w in
    let ran =
      finish_batches-BatchRounds {k = w.next_address} (length (batches w)) (now w).0 entered
        (omega arith) in
    let depth : entered.engine.operation_depth ≡ 1 = rw h refl in
    let a = left-Advanced entered (finished w) ran.evolves (ran.evolves.depth ∙ depth) in
    let s = operation_leave-Settled (finished w) (ran.evolves.depth ∙ depth) in
    (
      record {
        conns = a.conns;
        streams = a.streams;
        addresses = a.addresses;
        depth = a.depth;
        sized = a.sized;
      },
      s.batches ∙ ran.finished (omega arith),
    )

pub engine_finish_batch-Advanced :
    (w : World) → w.engine.operation_depth ≡ 0 → Advanced w (engine_finish_batch w).1
engine_finish_batch-Advanced w h =
    subst (Advanced w) (sym (engine_finish_batch_steps w)) (finish_lem w h).0

-- The stream is out of the list and its updates count as made.
abbrev pub reset : World → ℕ → List ℕ → World
reset w s rest =
    let threshold = (w.streams s).config.batch_threshold in
    record w {
      engine = record (w.engine) { pending_batch_streams = remove rest s };
      streams =
          update w.streams s
            (record (w.streams s) { pending_count = if ltb 1 threshold then threshold else 0 });
    }

-- The pending streams are finished at the time `t`, the first one first, until there is none: each
-- is taken off the list, and one that has updates to make is scheduled for now.
pub data IsFinished (t : ℕ) : World → World → Type 0 where
  all_finished : {w : World} → batches w ≡ [] → IsFinished t w w
  finishes :
      {w v : World} (s : ℕ) (rest : List ℕ)
      → batches w ≡ s ∷ rest
      → batch_waits (w.conns (w.streams s).conn) (w.streams s) ≡ true
      → IsFinished t (schedule_timer_node s t t (reset w s rest)).1 v
      → IsFinished t w v
  passes_over :
      {w v : World} (s : ℕ) (rest : List ℕ)
      → batches w ≡ s ∷ rest
      → batch_waits (w.conns (w.streams s).conn) (w.streams s) ≡ false
      → IsFinished t (popped_batch w rest) v
      → IsFinished t w v

finish_steps :
    (s t : ℕ) (w : World) (rest : List ℕ) (b : Bool)
    → batch_waits (w.conns (w.streams s).conn) (w.streams s) ≡ b
    → (finish_batch_at s t (popped_batch w rest)).1
      ≡ (if b then (schedule_timer_node s t t (reset w s rest)).1 else popped_batch w rest)
unfolding finish_batch_at
finish_steps s t w rest true e = rw e refl
finish_steps s t w rest false e = rw e refl

no_fuel : (t : ℕ) (w : World) → batches w ≡ [] → IsFinished t w (finish_batches 0 t w).1
unfolding finish_batches
no_fuel t w e = all_finished e

finish_batches-IsFinished :
    (fuel t : ℕ) (w : World)
    → length (batches w) ≤ fuel
    → IsFinished t w (finish_batches fuel t w).1
finish_batches-IsFinished zero t w enough = no_fuel t w (no_length (batches w) (omega arith))
  where
    no_length : (xs : List ℕ) → length xs ≡ 0 → xs ≡ []
    no_length xs e = ground arith
finish_batches-IsFinished (suc fuel) t w enough = elim (List-cases (batches w)) [
  | inl e ↦
      subst (IsFinished t w) (sym (finish_batches-round fuel t w ∙ ap (batch_round fuel t w) e))
        (all_finished e)
  | inr (s, (rest, e)) ↦
      let ran = (finish_batch_at s t (popped_batch w rest)).1 in
      let size : length (batches w) ≡ suc (length rest) = ap length e in
      let more =
        finish_batches-IsFinished fuel t ran
          (omega (arith, finish_batch_at-batches s t (popped_batch w rest), size)) in
      subst (IsFinished t w) (sym (finish_batches-round fuel t w ∙ ap (batch_round fuel t w) e))
        (elim (Bool-cases (batch_waits (w.conns (w.streams s).conn) (w.streams s))) [
          | inl b ↦ finishes s rest e b (
              subst (λ x. IsFinished t x (finish_batches fuel t ran).1)
                (finish_steps s t w rest true b) more)
          | inr b ↦ passes_over s rest e b (
              subst (λ x. IsFinished t x (finish_batches fuel t ran).1)
                (finish_steps s t w rest false b) more)
        ])
]

-- kcpmux_engine_finish_batch, called from outside any operation, goes through every pending stream
-- in the order of the list and then leaves the operation: each is taken off the list, and one that
-- is open on an established connection with a batch of updates below its threshold has its batch
-- closed and its timer scheduled for now; one without such a batch is left as it is. As many rounds
-- as there are pending streams are enough; the list is empty at the end.
pub engine_finish_batch_drains :
    (w : World)
    → w.engine.operation_depth ≡ 0
    → (v : World) × IsFinished (now w).0 (entered_batch w) v
      × ((engine_finish_batch w).1 ≡ (operation_leave v).1)
      × ((engine_finish_batch w).1.engine.pending_batch_streams ≡ [])
unfolding operation_enter now
engine_finish_batch_drains w h = (
  finished w,
  finish_batches-IsFinished (length (batches w)) (now w).0 (entered_batch w) (omega arith),
  engine_finish_batch_steps w,
  ap batches (engine_finish_batch_steps w) ∙ (finish_lem w h).1,
)
