-- ===== src/Links/Unlink.antt =====
-- list_del, list_dequeue and list_move_tail of src/internal/kcpmux_list.h.
use kcp_mux.Base.{
  ℕ, ◌≡◌, refl, sym, ap, subst, arith, Bool-cases, inl, inr, true, false, ◌==◌, List, [], ◌∷◌, ◌++◌,
  contains, remove, Distinct, contains-append, append-nil, remove-Distinct, contains-remove-le,
  contains-remove,
}
use kcp_mux.Links.{Links, bypass, list_del}
use kcp_mux.Links.Ring.{
  Chain, IsRing, Chain-frame, Chain-split, Chain-join, Chain-last, Chain-redirect,
}

-- Where an entry stands in a list.
record Parts (xs : List ℕ) (x : ℕ) : Type 0 where
  pub before : List ℕ
  pub after : List ℕ
  pub whole : xs ≡ before ++ (x ∷ after)
  pub others : remove xs x ≡ before ++ after

contains-Parts : (xs : List ℕ) (x : ℕ) → contains xs x ≡ true → Parts xs x
contains-Parts [] x i = ground arith
contains-Parts (y ∷ ys) x i = elim (Bool-cases (y == x)) [
  | inl e ↦ record { before = []; after = ys; whole = ground arith; others = rw e refl }
  | inr e ↦
      let p = contains-Parts ys x (ground arith) in
      record {
        before = y ∷ p.before;
        after = p.after;
        whole = ap (λ l. y ∷ l) p.whole;
        others = rw e (ap (λ l. y ∷ l) p.others);
      }
]

-- A list without repetition, in two parts.
record Halves (xs ys : List ℕ) : Type 0 where
  pub left : Distinct xs
  pub right : Distinct ys
  pub apart : (q : ℕ) → contains xs q ≡ true → contains ys q ≡ false

Distinct-Halves : (xs ys : List ℕ) → Distinct (xs ++ ys) → Halves xs ys
Distinct-Halves [] ys d = record { left = tt; right = d; apart = λ q i. ground arith }
Distinct-Halves (x ∷ xs) ys d =
    let r = Distinct-Halves xs ys d.1 in
    record {
      left = (ground (arith, d.0, contains-append xs ys x), r.left);
      right = r.right;
      apart = λ q i. ground (arith, d.0, contains-append xs ys x, r.apart q);
    }

bypass-Chain :
    (s : Links) (h x : ℕ) (before after : List ℕ)
    → Distinct (h ∷ (before ++ (x ∷ after)))
    → Chain s h (before ++ (x ∷ after)) h
    → Chain (bypass x s) h (before ++ after) h
unfolding bypass
bypass-Chain s h x before [] d c =
    let (c1, (n, p)) = Chain-split s h before x [] h c in
    let r = Distinct-Halves (h ∷ before) (x ∷ []) d in
    let apart = r.apart h (ground arith) in
    subst (λ l. Chain (bypass x s) h l h) (sym (append-nil before))
      (Chain-redirect s (bypass x s) h before x h r.left (λ q i e. ground arith)
        (λ q i. ground (arith, r.left.0)) (ground arith) (ground arith) c1)
bypass-Chain s h x before (b ∷ bs) d c =
    let (c1, (n, p, c2)) = Chain-split s h before x (b ∷ bs) h c in
    let r = Distinct-Halves (h ∷ before) (x ∷ b ∷ bs) d in
    let last = Chain-last s h before x c1 in
    let apart = r.apart h (ground arith) in
    let after_last = r.apart (s.prev x) last in
    Chain-join (bypass x s) h before b bs h
      (Chain-redirect s (bypass x s) h before x b r.left (λ q i e. ground (arith, r.right.0))
        (λ q i. ground (arith, r.apart q)) (ground (arith, r.right.0)) (ground (arith, r.right.0))
        c1)
      (Chain-frame s (bypass x s) b bs h (λ q i. ground (arith, r.right.0))
        (λ q i. ground (arith, r.right.0, r.right.1.0)) c2)

-- The neighbours of an entry are joined, whatever its own links then hold.
pub bypass-IsRing :
    (s : Links) (h x : ℕ) (xs : List ℕ)
    → contains xs x ≡ true
    → IsRing s h xs
    → IsRing (bypass x s) h (remove xs x)
bypass-IsRing s h x xs i (c, d) =
    let p = contains-Parts xs x i in
    (
      subst (λ l. Chain (bypass x s) h l h) (sym p.others)
          (bypass-Chain s h x p.before p.after (subst (λ l. Distinct (h ∷ l)) p.whole d)
            (subst (λ l. Chain s h l h) p.whole c)),
      (contains-remove-le xs x h d.0, remove-Distinct xs x d.1),
    )

pub list_del-IsRing :
    (s : Links) (h x : ℕ) (xs : List ℕ)
    → contains xs x ≡ true
    → IsRing s h xs
    → IsRing (list_del x s) h (remove xs x)
unfolding list_del
list_del-IsRing s h x xs i r =
    let b = bypass-IsRing s h x xs i r in
    let gone = contains-remove xs x x r.1.1 in
    (
      Chain-frame (bypass x s) (list_del x s) h (remove xs x) h (λ q m. ground (arith, r.1.0))
          (λ q m. ground (arith, r.1.0)) b.0,
      b.1,
    )
