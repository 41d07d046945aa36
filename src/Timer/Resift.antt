-- ===== src/Timer/Resift.antt =====
-- A sift up followed by a sift down mends the heap around one slot.
use kcp_mux.Base.{ℕ, ◌+◌, ◌<◌, ◌≡◌, refl, sym, ◌∙◌, ap, arith, length}
use kcp_mux.Timer.{Node, Timers, slot, sift_up, sift_down}
use kcp_mux.Timer.Order.{parent, Keys, Ordered, OrderedOff, Bridged}
use kcp_mux.Timer.Slots.{Kept, Kept-trans, Kept-Keys, IsHole, filled, Covered, Covered-trans}
use kcp_mux.Timer.SiftUp.{Sifted, Risen, sift_up_loop-Risen}
use kcp_mux.Timer.SiftDown.{sift_down_loop-Sunk}

-- Every node of the heap knows its slot.
abbrev pub IsIndexed : Timers → Type 0
IsIndexed t = (j : ℕ) → j < length t.heap → (t.nodes (slot t j)).heap_index ≡ j

pub IsIndexed-IsHole :
    (t : Timers) (i : ℕ) → IsIndexed t → i < length t.heap → IsHole t i (slot t i)
IsIndexed-IsHole t i h lt = record {
  inside = lt;
  indexed = λ j jn ne. h j jn;
  apart = λ j jn ne e. ne (sym (h j jn) ∙ ap (λ m. (t.nodes m).heap_index) e ∙ h i lt);
}

-- A hole filled with the node that is there anyway is no change.
pub filled_self : (t : Timers) (i j : ℕ) → filled t i (slot t i) j ≡ slot t j
filled_self t i j = ground arith

-- A rearrangement of the heap that keeps all else.
pub record Rearranged (n : ℕ) (t u : Timers) : Type 0 where
  pub kept : Kept t u
  pub indexed : (j : ℕ) → j < n → (u.nodes (slot u j)).heap_index ≡ j
  pub into : Covered n (slot t) (slot u)
  pub from : Covered n (slot u) (slot t)

pub Sifted-Rearranged :
    (n : ℕ) (t : Timers) (i node : ℕ) (u : Timers)
    → slot t i ≡ node
    → Sifted n t i node u
    → Rearranged n t u
Sifted-Rearranged n t i node u at s =
    let same : (j : ℕ) → filled t i node j ≡ slot t j = λ j. ground arith in
    record {
      kept = s.kept;
      indexed = s.indexed;
      into = λ j lt. (let (k, kn, e) = s.into j lt in (k, kn, sym (same j) ∙ e));
      from = λ j lt. (let (k, kn, e) = s.from j lt in (k, kn, e ∙ same k));
    }

pub Rearranged-trans :
    (n : ℕ) (t u v : Timers) → Rearranged n t u → Rearranged n u v → Rearranged n t v
Rearranged-trans n t u v p q = record {
  kept = Kept-trans t u v p.kept q.kept;
  indexed = q.indexed;
  into = Covered-trans n (slot t) (slot u) (slot v) p.into q.into;
  from = Covered-trans n (slot v) (slot u) (slot t) q.from p.from;
}

abbrev pub resift : Timers → ℕ → Timers
resift t i = let (u, j) = sift_up t i in sift_down u j

module _ (ns : ℕ → Node) (n : ℕ) (t : Timers) (i : ℕ) (size : length t.heap ≡ n) (keys : Keys ns t)
    (hole : IsHole t i (slot t i)) (off : OrderedOff ns n (slot t) i)
    (bridge : Bridged ns n (slot t) i) where
  pub sift_up-Risen : Risen ns n t i (slot t i) (sift_up t i)
  unfolding sift_up
  sift_up-Risen =
      let same = filled_self t i in
      sift_up_loop-Risen ns n (i + 1) t i (slot t i) (omega arith) size keys hole
        (λ c c0 cn ne ne'. rw (same c, same (parent c)) (off c c0 cn ne ne'))
        (λ c c0 cn e p. rw (same c, same (parent i)) (bridge c c0 cn e p))

  pub resift-Rearranged : Rearranged n t (resift t i) × Ordered ns n (slot (resift t i))
  unfolding sift_down
  resift-Rearranged =
      let up = sift_up-Risen in
      let u = (sift_up t i).0 in
      let j = (sift_up t i).1 in
      let size' : length u.heap ≡ n = up.sifted.kept.size ∙ size in
      let same = filled_self u j in
      let down =
        sift_down_loop-Sunk ns n (length u.heap) u j (slot u j) (omega arith) size'
          (Kept-Keys ns t u keys up.sifted.kept)
          (IsIndexed-IsHole u j (λ k lt. up.sifted.indexed k (omega arith))
            (omega (arith, up.inside)))
          (λ c c0 cn ne. rw (same c, same (parent c)) (up.above c c0 cn ne))
          (λ c c0 cn e p. rw (same c, same (parent j)) (up.bridged c c0 cn e p)) in
      (
        Rearranged-trans n t u _ (Sifted-Rearranged n t i (slot t i) u refl up.sifted)
            (Sifted-Rearranged n u j (slot u j) _ refl down.sifted),
        down.ordered,
      )
