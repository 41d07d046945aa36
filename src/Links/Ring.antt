-- ===== src/Links/Ring.antt =====
-- What the links of a list stand for, and what a change of a few links leaves of it.
use kcp_mux.Base.{ℕ, ◌≡◌, refl, sym, ◌∙◌, arith, true, List, [], ◌∷◌, ◌++◌, contains, Distinct}
use kcp_mux.Links.{Links}

-- From `a` the links lead through `xs` to `b`, and back.
abbrev pub Chain : Links → ℕ → List ℕ → ℕ → Type 0
Chain s a [] b = (s.next a ≡ b) × (s.prev b ≡ a)
Chain s a (x ∷ xs) b = (s.next a ≡ x) × (s.prev x ≡ a) × Chain s x xs b

-- The links of the list at `head` lead through `xs` and back to `head`, without a repetition.
abbrev pub IsRing : Links → ℕ → List ℕ → Type 0
IsRing s head xs = Chain s head xs head × Distinct (head ∷ xs)

-- Links that a change spares stay a chain.
pub Chain-frame :
    (s t : Links) (a : ℕ) (xs : List ℕ) (b : ℕ)
    → ((q : ℕ) → contains (a ∷ xs) q ≡ true → t.next q ≡ s.next q)
    → ((q : ℕ) → contains (b ∷ xs) q ≡ true → t.prev q ≡ s.prev q)
    → Chain s a xs b
    → Chain t a xs b
Chain-frame s t a [] b next prev c = (ground (arith, next a), ground (arith, prev b))
Chain-frame s t a (x ∷ xs) b next prev (n, p, c) = (
  ground (arith, next a),
  ground (arith, prev x),
  Chain-frame s t x xs b (λ q i. next q (ground arith)) (λ q i. prev q (ground arith)) c,
)

pub Chain-split :
    (s : Links) (a : ℕ) (xs : List ℕ) (y : ℕ) (ys : List ℕ) (b : ℕ)
    → Chain s a (xs ++ (y ∷ ys)) b
    → Chain s a xs y × Chain s y ys b
Chain-split s a [] y ys b (n, p, c) = ((n, p), c)
Chain-split s a (x ∷ xs) y ys b (n, p, c) =
    let r = Chain-split s x xs y ys b c in ((n, p, r.0), r.1)

pub Chain-join :
    (s : Links) (a : ℕ) (xs : List ℕ) (y : ℕ) (ys : List ℕ) (b : ℕ)
    → Chain s a xs y
    → Chain s y ys b
    → Chain s a (xs ++ (y ∷ ys)) b
Chain-join s a [] y ys b (n, p) d = (n, p, d)
Chain-join s a (x ∷ xs) y ys b (n, p, c) d = (n, p, Chain-join s x xs y ys b c d)

-- The last entry stands before the end.
pub Chain-last :
    (s : Links) (a : ℕ) (xs : List ℕ) (b : ℕ) → Chain s a xs b → contains (a ∷ xs) (s.prev b) ≡ true
Chain-last s a [] b (n, p) = ground arith
Chain-last s a (x ∷ xs) b (n, p, c) = ground (arith, Chain-last s x xs b c)

-- A chain whose last entry is turned to another end.
pub Chain-redirect :
    (s t : Links) (a : ℕ) (xs : List ℕ) (b c : ℕ)
    → Distinct (a ∷ xs)
    → ((q : ℕ) → contains (a ∷ xs) q ≡ true → ¬ (q ≡ s.prev b) → t.next q ≡ s.next q)
    → ((q : ℕ) → contains xs q ≡ true → t.prev q ≡ s.prev q)
    → t.next (s.prev b) ≡ c
    → t.prev c ≡ s.prev b
    → Chain s a xs b
    → Chain t a xs c
Chain-redirect s t a [] b c d next prev n p h = (rw (sym h.1, n) refl, p ∙ h.1)
Chain-redirect s t a (x ∷ xs) b c d next prev n p (hn, hp, h) =
    let last = Chain-last s x xs b h in
    (
      ground (arith, next a, d.0),
      ground (arith, prev x),
      Chain-redirect s t x xs b c d.1 (λ q i. next q (ground arith)) (λ q i. prev q (ground arith))
          n p h,
    )
