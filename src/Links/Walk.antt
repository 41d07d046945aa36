-- ===== src/Links/Walk.antt =====
-- The loops of src/internal/kcpmux_list.h over the links of a list.
use kcp_mux.Base.{
  ℕ, zero, suc, ◌≤◌, ◌≡◌, refl, sym, ◌∙◌, subst, arith, Bool, true, false, ◌==◌, List, [], ◌∷◌,
  length, contains, contains-append, length-append,
}
use mathlib.Core.List.{reverse, reverse-cons, reverse-reverse}
use kcp_mux.Links.{Links, list_empty, for_each, for_each_prev}
use kcp_mux.Links.Ring.{Chain, IsRing, Chain-split}

for_each-Chain :
    (fuel : ℕ) (s : Links) (a : ℕ) (xs : List ℕ) (b : ℕ)
    → Chain s a xs b
    → contains xs b ≡ false
    → length xs ≤ fuel
    → for_each fuel (s.next a) b s ≡ xs
unfolding for_each
for_each-Chain zero s a [] b c out enough = refl
for_each-Chain zero s a (x ∷ xs) b c out enough = ground arith
for_each-Chain (suc fuel) s a [] b c out enough = ground (arith, c.0)
for_each-Chain (suc fuel) s a (x ∷ xs) b (n, p, c) out enough =
    let rest = for_each-Chain fuel s x xs b c (ground arith) (omega arith) in
    let e : (x == b) ≡ false = ground arith in rw (n, rest, e) refl

contains-reverse : (xs : List ℕ) (b : ℕ) → contains (reverse xs) b ≡ contains xs b
contains-reverse [] b = refl
contains-reverse (x ∷ xs) b =
    let e = contains-append (reverse xs) (x ∷ []) b in
    let f = contains-reverse xs b in rw (reverse-cons x xs, e, f) (ground arith)

length-reverse : (xs : List ℕ) → length (reverse xs) ≡ length xs
length-reverse [] = refl
length-reverse (x ∷ xs) =
    let e = length-append (reverse xs) (x ∷ []) in
    let f = length-reverse xs in rw (reverse-cons x xs) (omega (arith, e, f))

for_each_prev-Chain :
    (fuel : ℕ) (s : Links) (a : ℕ) (ys : List ℕ) (b : ℕ)
    → Chain s a (reverse ys) b
    → contains ys a ≡ false
    → length ys ≤ fuel
    → for_each_prev fuel (s.prev b) a s ≡ ys
unfolding for_each_prev
for_each_prev-Chain zero s a [] b c out enough = refl
for_each_prev-Chain zero s a (y ∷ ys) b c out enough = ground arith
for_each_prev-Chain (suc fuel) s a [] b c out enough = ground (arith, c.1)
for_each_prev-Chain (suc fuel) s a (y ∷ ys) b c out enough =
    let (c1, (n, p)) =
      Chain-split s a (reverse ys) y [] b (subst (λ l. Chain s a l b) (reverse-cons y ys) c) in
    let rest = for_each_prev-Chain fuel s a ys y c1 (ground arith) (omega arith) in
    let e : (y == a) ≡ false = ground arith in rw (p, rest, e) refl

abbrev pub is_nil : List ℕ → Bool
is_nil [] = true
is_nil (x ∷ xs) = false

list_empty_lem : (s : Links) (h : ℕ) (xs : List ℕ) → IsRing s h xs → list_empty h s ≡ is_nil xs
unfolding list_empty
list_empty_lem s h [] r = ground (arith, r.0.0)
list_empty_lem s h (x ∷ xs) r = ground (arith, r.0.0, r.1.0)

-- On links that stand for a list, `list_empty` tells whether it is empty, `list_for_each` visits
-- its entries in their order, and the loop over `prev` visits them in the opposite order; both end
-- after as many rounds as there are entries.
pub traversal_correct :
    (s : Links) (h : ℕ) (xs : List ℕ) (fuel : ℕ)
    → IsRing s h xs
    → length xs ≤ fuel
    → (list_empty h s ≡ is_nil xs)
      × (for_each fuel (s.next h) h s ≡ xs)
      × (for_each_prev fuel (s.prev h) h s ≡ reverse xs)
traversal_correct s h xs fuel (c, d) enough =
    let e = length-reverse xs in
    (
      list_empty_lem s h xs (c, d),
      for_each-Chain fuel s h xs h c d.0 enough,
      for_each_prev-Chain fuel s h (reverse xs) h
          (subst (λ l. Chain s h l h) (sym (reverse-reverse xs)) c) (contains-reverse xs h ∙ d.0)
          (omega (arith, e)),
    )
