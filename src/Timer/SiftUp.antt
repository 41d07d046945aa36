-- ===== src/Timer/SiftUp.antt =====
-- The sift towards the root.
use kcp_mux.Base.{
  ℕ, zero, suc, ◌<◌, ◌≡◌, ◌≢◌, sym, ◌∙◌, true, ◌==◌, if◌then◌else◌, arith, length, Bool-cases, inl,
  inr,
}
use kcp_mux.Timer.{Node, Timers, slot, set_slot, less, sift_up_loop}
use kcp_mux.Timer.Order.{
  parent, NotAfter, NotAfter-trans, less-NotAfter, Keys, Keys-less, OrderedOff, Bridged,
  OrderedBelow, OrderedAbove,
}
use kcp_mux.Timer.Slots.{
  Kept, Kept-trans, Kept-Keys, set_slot-Kept, IsHole, filled, Covered, Covered-trans, move-filled,
  move-IsHole, move-into, move-from, fill-slot, fill-indexed,
}

-- Exchanging an entry with a later parent moves the disorder one level up.
module _ (ns : ℕ → Node) (n : ℕ) (f g : ℕ → ℕ) (i : ℕ) (pos : 0 < i) (inside : i < n)
    (below : less (ns (f i)) (ns (f (parent i))) ≡ true) (off : OrderedOff ns n f i)
    (bridge : Bridged ns n f i)
    (swap : (j : ℕ)
      → g j ≡ (if parent i == j then f i else if i == j then f (parent i) else f j)) where
  first : NotAfter (ns (f i)) (ns (f (parent i)))
  first = less-NotAfter (ns (f i)) (ns (f (parent i))) below

  pub rise-OrderedOff : OrderedOff ns n g (parent i)
  rise-OrderedOff c c0 cn ne ne' = ground (arith, swap c, swap (parent c), off c, bridge c)

  pub rise-Bridged : Bridged ns n g (parent i)
  rise-Bridged c c0 cn e p0 = ground (
    arith,
    swap c,
    swap (parent (parent i)),
    off c,
    off (parent i),
    NotAfter-trans (ns (f (parent (parent i)))) (ns (f (parent i))) (ns (f c)),
  )

  pub rise-OrderedBelow : OrderedBelow ns n g (parent i)
  rise-OrderedBelow c c0 cn e = ground (
    arith,
    swap c,
    swap (parent i),
    off c,
    first,
    NotAfter-trans (ns (f i)) (ns (f (parent i))) (ns (f c)),
  )

-- The heap after a sift from `t`, with `node` back in the array.
pub record Sifted (n : ℕ) (t : Timers) (hole node : ℕ) (u : Timers) : Type 0 where
  pub kept : Kept t u
  pub indexed : (j : ℕ) → j < n → (u.nodes (slot u j)).heap_index ≡ j
  pub into : Covered n (filled t hole node) (slot u)
  pub from : Covered n (slot u) (filled t hole node)

pub fill-Sifted :
    (n : ℕ) (t : Timers) (hole node : ℕ)
    → length t.heap ≡ n
    → IsHole t hole node
    → Sifted n t hole node (set_slot t hole node)
fill-Sifted n t hole node size h = record {
  kept = set_slot-Kept t hole node;
  indexed = λ j lt. fill-indexed t hole node h j (omega arith);
  into = λ j lt. (j, lt, sym (fill-slot t hole node h j));
  from = λ j lt. (j, lt, fill-slot t hole node h j);
}

pub move-Sifted :
    (n : ℕ) (t : Timers) (hole node src : ℕ) (u : Timers)
    → length t.heap ≡ n
    → IsHole t hole node
    → src < n
    → src ≢ hole
    → Sifted n (set_slot t hole (slot t src)) src node u
    → Sifted n t hole node u
move-Sifted n t hole node src u size h s ne r =
    let s' : src < length t.heap = omega arith in
    let t1 = set_slot t hole (slot t src) in
    record {
      kept = Kept-trans t t1 u (set_slot-Kept t hole (slot t src)) r.kept;
      indexed = r.indexed;
      into =
          Covered-trans n (filled t hole node) (filled t1 src node) (slot u)
            (rw size at (move-into t hole node src h s' ne)) r.into;
      from =
          Covered-trans n (slot u) (filled t1 src node) (filled t hole node) r.from
            (rw size at (move-from t hole node src h s' ne));
    }

-- What a sift up from `hole` ends with: the heap, and the slot of the node.
pub record Risen (ns : ℕ → Node) (n : ℕ) (t : Timers) (hole node : ℕ) (r : Timers × ℕ)
    : Type 0 where
  pub sifted : Sifted n t hole node r.0
  pub inside : r.1 < n
  pub at : slot r.0 r.1 ≡ node
  pub above : OrderedAbove ns n (slot r.0) r.1
  pub bridged : Bridged ns n (slot r.0) r.1
  pub below : OrderedBelow ns n (filled t hole node) hole → OrderedBelow ns n (slot r.0) r.1

-- The node stays where the hole is, when its parent may stand above it.
stop-Risen :
    (ns : ℕ → Node) (n : ℕ) (t : Timers) (hole node : ℕ)
    → length t.heap ≡ n
    → IsHole t hole node
    → OrderedOff ns n (filled t hole node) hole
    → Bridged ns n (filled t hole node) hole
    → (0 < hole → NotAfter (ns (slot t (parent hole))) (ns node))
    → Risen ns n t hole node (set_slot t hole node, hole)
stop-Risen ns n t hole node size h off bridge top =
    let at = fill-slot t hole node h in
    record {
      sifted = fill-Sifted n t hole node size h;
      inside = omega (arith, h.inside);
      at = ground (arith, at hole);
      above = λ c c0 cn ne. ground (arith, at c, at (parent c), off c, top);
      bridged = λ c c0 cn e p. ground (arith, at c, at (parent hole), bridge c);
      below = λ b c c0 cn e. ground (arith, at c, at (parent c), b c);
    }

-- The node of the parent moved into the hole, and the sift went on from there.
rise-Risen :
    (ns : ℕ → Node) (n : ℕ) (t : Timers) (hole node : ℕ) (r : Timers × ℕ)
    → length t.heap ≡ n
    → IsHole t hole node
    → 0 < hole
    → OrderedBelow ns n
        (filled (set_slot t hole (slot t (parent hole))) (parent hole) node)
        (parent hole)
    → Risen ns n (set_slot t hole (slot t (parent hole))) (parent hole) node r
    → Risen ns n t hole node r
rise-Risen ns n t hole node r size h pos below q = record {
  sifted =
      move-Sifted n t hole node (parent hole) r.0 size h (omega (arith, h.inside)) (omega arith)
        q.sifted;
  inside = q.inside;
  at = q.at;
  above = q.above;
  bridged = q.bridged;
  below = λ _. q.below below;
}

pub sift_up_loop-Risen :
    (ns : ℕ → Node) (n fuel : ℕ) (t : Timers) (hole node : ℕ)
    → hole < fuel
    → length t.heap ≡ n
    → Keys ns t
    → IsHole t hole node
    → OrderedOff ns n (filled t hole node) hole
    → Bridged ns n (filled t hole node) hole
    → Risen ns n t hole node (sift_up_loop fuel t hole node)
unfolding sift_up_loop
sift_up_loop-Risen ns n zero t hole node f size k h off bridge = absurd (omega arith)
sift_up_loop-Risen ns n (suc fuel) t hole node f size k h off bridge =
    let p = parent hole in
    let t1 = set_slot t hole (slot t p) in
    let same = Keys-less ns t node (slot t p) k in
    elim (Bool-cases (hole == 0)) [
      | inl root ↦
          rw root (stop-Risen ns n t hole node size h off bridge (λ pos. absurd (ground arith)))
      | inr inner ↦ rw inner (elim (Bool-cases (less (t.nodes node) (t.nodes (slot t p)))) [
        | inl below ↦
            let pos : 0 < hole = ground arith in
            let ne : p ≢ hole = omega arith in
            let inside : p < length t.heap = omega (arith, h.inside) in
            let swap = move-filled t hole node p h inside ne in
            let fh : filled t hole node hole ≡ node = ground arith in
            let fp : filled t hole node p ≡ slot t p = ground arith in
            let below' : less (ns (filled t hole node hole)) (ns (filled t hole node p)) ≡ true =
              rw (fh, fp) (sym same ∙ below) in
            let swap' : (j : ℕ)
                → filled t1 p node j ≡ (
                    if p == j
                    then filled t hole node hole
                    else if hole == j
                    then filled t hole node p
                    else filled t hole node j) =
              λ j. ground (arith, swap j) in
            let hn : hole < n = omega (arith, h.inside) in
            rw below (
              rise-Risen ns n t hole node _ size h pos
                (rise-OrderedBelow ns n (filled t hole node) (filled t1 p node) hole pos hn below'
                  off bridge swap')
                (sift_up_loop-Risen ns n fuel t1 p node (omega arith)
                  ((set_slot-Kept t hole (slot t p)).size ∙ size)
                  (Kept-Keys ns t t1 k (set_slot-Kept t hole (slot t p)))
                  (move-IsHole t hole node p h inside ne)
                  (rise-OrderedOff ns n (filled t hole node) (filled t1 p node) hole pos hn below'
                    off bridge swap')
                  (rise-Bridged ns n (filled t hole node) (filled t1 p node) hole pos hn below' off
                    bridge swap')))
        | inr stays ↦
            rw stays (stop-Risen ns n t hole node size h off bridge (λ _. sym same ∙ stays))
      ])
    ]
