-- ===== src/Vectored/Bytes.antt =====
-- The copy of a chunk of src/kcpmux_stream.c against the fragments as one sequence of bytes.
use kcp_mux.Base.{
  ℕ, zero, suc, ◌+◌, ◌-◌, ◌≤◌, ◌<◌, ◌≡◌, refl, arith, List, [], ◌∷◌, ◌++◌, length, get_or, take,
  drop, ltb, ◌==◌, if◌then◌else◌, Bool-cases, inl, inr, false, length-drop, length-append,
}
use kcp_mux.Types.{Iovec, dangling}
use kcp_mux.Vectored.{Cursor, item, iov_bytes, copy_loop, vectored_copy}

-- The bytes of the fragments, one after the other.
abbrev pub flat : List Iovec → List ℕ
flat [] = []
flat (x ∷ xs) = iov_bytes x ++ flat xs

-- The bytes from the cursor on.
abbrev pub ahead : List Iovec → Cursor → List ℕ
ahead iov c = drop c.offset (flat (drop c.index iov))

-- The cursor stands in a fragment or at its end.
abbrev pub IsCursor : List Iovec → Cursor → Type 0
IsCursor iov c = (c.index ≤ length iov) × (c.offset ≤ length (item iov c.index))

-- The cursor after `n` bytes of the fragment under it.
abbrev pub stepped : List Iovec → Cursor → ℕ → Cursor
stepped iov c n =
    if c.offset + n == length (item iov c.index)
    then record { index = c.index + 1; offset = 0 }
    else record c { offset = c.offset + n }

module _ {ℓ} {A : Type ℓ} where
  pub take-append :
      (n : ℕ) (xs ys : List A) → take n (xs ++ ys) ≡ take n xs ++ take (n - length xs) ys
  take-append zero xs ys = ground arith
  take-append (suc n) [] ys = ground arith
  take-append (suc n) (x ∷ xs) ys = ground (arith, take-append n xs ys)

  pub drop-append :
      (n : ℕ) (xs ys : List A) → drop n (xs ++ ys) ≡ drop n xs ++ drop (n - length xs) ys
  drop-append zero xs ys = ground arith
  drop-append (suc n) [] ys = ground arith
  drop-append (suc n) (x ∷ xs) ys = ground (arith, drop-append n xs ys)

  pub drop-nil : (n : ℕ) → drop {A = A} n [] ≡ []
  drop-nil zero = refl
  drop-nil (suc n) = refl

  pub drop-drop : (m n : ℕ) (xs : List A) → drop m (drop n xs) ≡ drop (n + m) xs
  drop-drop m zero xs = ground arith
  drop-drop m (suc n) [] = ground (arith, drop-nil m, drop-nil (suc n + m))
  drop-drop m (suc n) (x ∷ xs) =
      let e : suc n + m ≡ suc (n + m) = omega arith in rw e (drop-drop m n xs)

  pub drop-get_or :
      (xs : List A) (i : ℕ) (d : A) → i < length xs → drop i xs ≡ get_or xs i d ∷ drop (i + 1) xs
  drop-get_or [] i d h = absurd (omega arith)
  drop-get_or (x ∷ xs) zero d h = ground arith
  drop-get_or (x ∷ xs) (suc i) d h = ground (arith, drop-get_or xs i d)

  pub drop-all : (n : ℕ) (xs : List A) → length xs ≤ n → drop n xs ≡ []
  drop-all n xs h = ground (arith, length-drop n xs)

  pub take-all : (n : ℕ) (xs : List A) → length xs ≤ n → take n xs ≡ xs
  take-all zero [] h = refl
  take-all zero (x ∷ xs) h = absurd (omega arith)
  take-all (suc n) [] h = refl
  take-all (suc n) (x ∷ xs) h = ground (arith, take-all n xs)

-- The fragment under the cursor, and the fragments after it.
pub ahead_split :
    (iov : List Iovec) (c : Cursor)
    → IsCursor iov c
    → c.index < length iov
    → ahead iov c ≡ drop c.offset (item iov c.index) ++ flat (drop (c.index + 1) iov)
ahead_split iov c v lt =
    let split = drop-get_or iov c.index (dangling 0) lt in
    rw (split, drop-append c.offset (item iov c.index) (flat (drop (c.index + 1) iov)))
      (ground arith)

copy_loop-zero : (fuel : ℕ) (iov : List Iovec) (c : Cursor) → copy_loop fuel iov c 0 ≡ []
unfolding copy_loop
copy_loop-zero zero iov c = refl
copy_loop-zero (suc fuel) iov c = refl

-- The bytes that a round takes from the fragment under the cursor.
abbrev pub round_size : List Iovec → Cursor → ℕ → ℕ
round_size iov c size =
    let available = length (item iov c.index) - c.offset in
    if ltb available size then available else size

copy_round :
    (fuel : ℕ) (iov : List Iovec) (c : Cursor) (size : ℕ)
    → 0 < size
    → copy_loop (suc fuel) iov c size
      ≡ take (round_size iov c size) (drop c.offset (item iov c.index))
        ++ copy_loop fuel iov (stepped iov c (round_size iov c size)) (size - round_size iov c size)
unfolding copy_loop
copy_round fuel iov c size pos = let nonzero : (size == 0) ≡ false = ground arith in rw nonzero refl

-- A chunk that is there has a fragment under the cursor.
pub ahead_inside : (iov : List Iovec) (c : Cursor) → 0 < length (ahead iov c) → c.index < length iov
ahead_inside iov c h = ground (arith, drop-all c.index iov, drop-nil {A = ℕ} c.offset)

copy_loop_lem :
    (fuel : ℕ) (iov : List Iovec) (c : Cursor) (size : ℕ)
    → IsCursor iov c
    → length iov < fuel + c.index
    → size ≤ length (ahead iov c)
    → copy_loop fuel iov c size ≡ take size (ahead iov c)
copy_loop_lem zero iov c size v f h = absurd (omega arith)
copy_loop_lem (suc fuel) iov c zero v f h = copy_loop-zero (suc fuel) iov c
copy_loop_lem (suc fuel) iov c (suc size) v f h =
    let s = suc size in
    let lt = ahead_inside iov c (omega arith) in
    let d = drop c.offset (item iov c.index) in
    let r = flat (drop (c.index + 1) iov) in
    let split = ahead_split iov c v lt in
    let d_size = length-drop c.offset (item iov c.index) in
    let n = round_size iov c s in
    let total : length (ahead iov c) ≡ length d + length r = rw split (length-append d r) in
    rw (copy_round fuel iov c s (omega arith), split, take-append s d r)
      (elim (Bool-cases (c.offset + n == length (item iov c.index))) [
        | inl done ↦
            let next : Cursor = record { index = c.index + 1; offset = 0 } in
            rw done (
              ground (
                arith,
                copy_loop_lem fuel iov next (s - n) (omega arith, omega arith) (omega arith)
                    (ground arith),
                take-all s d,
                take-all n d,
              ))
        | inr more ↦ ground (arith, copy_loop-zero fuel iov (stepped iov c n))
      ])

-- kcpmux_vectored_copy of a chunk that is there copies exactly the next `size` bytes of the
-- fragments, seen as one sequence, from any cursor in a fragment or at its end.
pub vectored_copy_correct :
    (iov : List Iovec) (c : Cursor) (size : ℕ)
    → IsCursor iov c
    → size ≤ length (ahead iov c)
    → vectored_copy iov c size ≡ take size (ahead iov c)
unfolding vectored_copy
vectored_copy_correct iov c size v h = copy_loop_lem (length iov + 1) iov c size v (omega arith) h
