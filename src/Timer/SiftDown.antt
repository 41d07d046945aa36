-- ===== src/Timer/SiftDown.antt =====
-- The sift towards the leaves.
use kcp_mux.Base.{
  ℕ, zero, suc, ◌+◌, ◌*◌, ◌≤◌, ◌<◌, ◌≡◌, ◌≢◌, sym, ◌∙◌, true, ◌==◌, leb, if◌then◌else◌, arith,
  length, Bool-cases, ◌⊎◌, inl, inr,
}
use kcp_mux.Timer.{Node, Timers, slot, set_slot, less, smaller_child, sift_down_loop}
use kcp_mux.Timer.Order.{
  parent, NotAfter, NotAfter-trans, NotAfter-refl, less-NotAfter, Keys, Keys-less, Ordered, Bridged,
  OrderedAbove,
}
use kcp_mux.Timer.Slots.{
  Kept-Keys, set_slot-Kept, IsHole, filled, move-filled, move-IsHole, fill-slot,
}
use kcp_mux.Timer.SiftUp.{Sifted, fill-Sifted, move-Sifted}

-- The child that the code picks is a child, and may stand above its sibling.
pub smaller_child_lem :
    (ns : ℕ → Node) (t : Timers) (i : ℕ)
    → Keys ns t
    → i * 2 + 1 < length t.heap
    → (smaller_child t i < length t.heap)
      × (parent (smaller_child t i) ≡ i)
      × (i < smaller_child t i)
      × ((d : ℕ)
          → 0 < d
          → d < length t.heap
          → parent d ≡ i
          → NotAfter (ns (slot t (smaller_child t i))) (ns (slot t d)))
unfolding smaller_child
smaller_child_lem ns t i k lt =
    let left = i * 2 + 1 in
    let right = i * 2 + 1 + 1 in
    let same = Keys-less ns t (slot t right) (slot t left) k in
    let leftward = NotAfter-refl (ns (slot t left)) in
    let rightward = NotAfter-refl (ns (slot t right)) in
    let first = less-NotAfter (ns (slot t right)) (ns (slot t left)) in
    (
      ground arith,
      ground arith,
      ground arith,
      λ d d0 dn e. elim (child_cases d i d0 e) [
        | inl is_left ↦ rw is_left (ground (arith, same, leftward, first))
        | inr is_right ↦ rw is_right (ground (arith, same, rightward))
      ],
    )
  where
    child_cases : (d j : ℕ) → 0 < d → parent d ≡ j → (d ≡ j * 2 + 1) ⊎ (d ≡ j * 2 + 1 + 1)
    child_cases d j d0 e = omega arith

-- Exchanging an entry with its smaller child moves the disorder one level down.
module _ (ns : ℕ → Node) (n : ℕ) (f g : ℕ → ℕ) (i c : ℕ) (inside : c < n) (child : parent c ≡ i)
    (later : i < c)
    (least : (d : ℕ) → 0 < d → d < n → parent d ≡ i → NotAfter (ns (f c)) (ns (f d)))
    (below : less (ns (f c)) (ns (f i)) ≡ true) (above : OrderedAbove ns n f i)
    (bridge : Bridged ns n f i)
    (swap : (j : ℕ) → g j ≡ (if c == j then f i else if i == j then f c else f j)) where
  pub sink-OrderedAbove : OrderedAbove ns n g c
  sink-OrderedAbove d d0 dn ne = ground (
    arith,
    swap d,
    swap (parent d),
    above d,
    bridge c,
    least d,
    less-NotAfter (ns (f c)) (ns (f i)),
  )

  pub sink-Bridged : Bridged ns n g c
  sink-Bridged d d0 dn e c0 = ground (arith, swap d, swap (parent c), above d)

-- What a sift down ends with.
pub record Sunk (ns : ℕ → Node) (n : ℕ) (t : Timers) (hole node : ℕ) (u : Timers) : Type 0 where
  pub sifted : Sifted n t hole node u
  pub ordered : Ordered ns n (slot u)

stop-Sunk :
    (ns : ℕ → Node) (n : ℕ) (t : Timers) (hole node : ℕ)
    → length t.heap ≡ n
    → IsHole t hole node
    → OrderedAbove ns n (filled t hole node) hole
    → ((d : ℕ) → 0 < d → d < n → parent d ≡ hole → NotAfter (ns node) (ns (slot t d)))
    → Sunk ns n t hole node (set_slot t hole node)
stop-Sunk ns n t hole node size h above low =
    let at = fill-slot t hole node h in
    record {
      sifted = fill-Sifted n t hole node size h;
      ordered = λ d d0 dn. ground (arith, at d, at (parent d), above d, low d);
    }

pub sift_down_loop-Sunk :
    (ns : ℕ → Node) (n fuel : ℕ) (t : Timers) (hole node : ℕ)
    → n ≤ hole + fuel
    → length t.heap ≡ n
    → Keys ns t
    → IsHole t hole node
    → OrderedAbove ns n (filled t hole node) hole
    → Bridged ns n (filled t hole node) hole
    → Sunk ns n t hole node (sift_down_loop fuel t hole node)
unfolding sift_down_loop
sift_down_loop-Sunk ns n zero t hole node f size k h above bridge = absurd (omega (arith, h.inside))
sift_down_loop-Sunk ns n (suc fuel) t hole node f size k h above bridge =
    let c = smaller_child t hole in
    let t1 = set_slot t hole (slot t c) in
    let same = Keys-less ns t (slot t c) node k in
    elim (Bool-cases (leb (length t.heap) (hole * 2 + 1))) [
      | inl leaf ↦
          rw leaf (stop-Sunk ns n t hole node size h above (λ d d0 dn e. absurd (ground arith)))
      | inr inner ↦
          let (inside, child, later, least) = smaller_child_lem ns t hole k (ground arith) in
          rw inner (elim (Bool-cases (less (t.nodes (slot t c)) (t.nodes node))) [
            | inl below ↦
                let ne : c ≢ hole = omega arith in
                let swap = move-filled t hole node c h inside ne in
                let fh : filled t hole node hole ≡ node = ground arith in
                let fc : filled t hole node c ≡ slot t c = ground arith in
                let below' : less (ns (filled t hole node c)) (ns (filled t hole node hole))
                    ≡ true =
                  rw (fh, fc) (sym same ∙ below) in
                let least' : (d : ℕ)
                    → 0 < d
                    → d < n
                    → parent d ≡ hole
                    → NotAfter (ns (filled t hole node c)) (ns (filled t hole node d)) =
                  λ d d0 dn e. rw fc (ground (arith, least d)) in
                let swap' : (j : ℕ)
                    → filled t1 c node j ≡ (
                        if c == j
                        then filled t hole node hole
                        else if hole == j
                        then filled t hole node c
                        else filled t hole node j) =
                  λ j. ground (arith, swap j) in
                let cn : c < n = omega arith in
                let next =
                  sift_down_loop-Sunk ns n fuel t1 c node (omega arith)
                    ((set_slot-Kept t hole (slot t c)).size ∙ size)
                    (Kept-Keys ns t t1 k (set_slot-Kept t hole (slot t c)))
                    (move-IsHole t hole node c h inside ne)
                    (sink-OrderedAbove ns n (filled t hole node) (filled t1 c node) hole c cn child
                      later least' below' above bridge swap')
                    (sink-Bridged ns n (filled t hole node) (filled t1 c node) hole c cn child later
                      least' below' above bridge swap') in
                rw below (record {
                  sifted = move-Sifted n t hole node c _ size h cn ne next.sifted;
                  ordered = next.ordered;
                })
            | inr stays ↦ rw stays (
                stop-Sunk ns n t hole node size h above (λ d d0 dn e.
                  NotAfter-trans (ns node) (ns (slot t c)) (ns (slot t d)) (sym same ∙ stays)
                    (least d d0 (omega arith) e)))
          ])
    ]
