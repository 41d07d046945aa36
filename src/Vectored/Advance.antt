-- ===== src/Vectored/Advance.antt =====
-- The advance of the cursor of src/kcpmux_stream.c, against the bytes that are left.
use kcp_mux.Base.{
  ℕ, ◌&&◌, zero, suc, ◌+◌, ◌-◌, ◌≤◌, ◌<◌, ◌≡◌, refl, sym, ◌∙◌, ap, arith, List, ◌++◌, length, drop,
  ltb, ◌==◌, Bool-cases, inl, inr, ◌⊎◌, length-drop, length-append, false,
}
use kcp_mux.Types.{Iovec}
use kcp_mux.Vectored.{Cursor, item, advance_loop, skip_empty, vectored_advance}
use kcp_mux.Vectored.Bytes.{
  flat, ahead, IsCursor, stepped, round_size, ahead_split, ahead_inside, drop-append, drop-all,
  drop-drop,
}

advance_loop-zero : (fuel : ℕ) (iov : List Iovec) (c : Cursor) → advance_loop fuel iov c 0 ≡ c
unfolding advance_loop
advance_loop-zero zero iov c = refl
advance_loop-zero (suc fuel) iov c = refl

advance_round :
    (fuel : ℕ) (iov : List Iovec) (c : Cursor) (size : ℕ)
    → 0 < size
    → advance_loop (suc fuel) iov c size
      ≡ advance_loop fuel iov (stepped iov c (round_size iov c size)) (size - round_size iov c size)
unfolding advance_loop
advance_round fuel iov c size pos =
    let nonzero : (size == 0) ≡ false = ground arith in rw nonzero refl

-- The cursor `d` stands after the next `size` bytes.
abbrev pub Advanced : List Iovec → Cursor → ℕ → Cursor → Type 0
Advanced iov c size d = IsCursor iov d × (ahead iov d ≡ drop size (ahead iov c))

advance_loop_lem :
    (fuel : ℕ) (iov : List Iovec) (c : Cursor) (size : ℕ)
    → IsCursor iov c
    → length iov < fuel + c.index
    → size ≤ length (ahead iov c)
    → Advanced iov c size (advance_loop fuel iov c size)
advance_loop_lem zero iov c size v f h = absurd (omega arith)
advance_loop_lem (suc fuel) iov c zero v f h = rw (advance_loop-zero (suc fuel) iov c) (v, refl)
advance_loop_lem (suc fuel) iov c (suc size) v f h =
    let s = suc size in
    let lt = ahead_inside iov c (omega arith) in
    let d = drop c.offset (item iov c.index) in
    let r = flat (drop (c.index + 1) iov) in
    let split = ahead_split iov c v lt in
    let d_size = length-drop c.offset (item iov c.index) in
    let n = round_size iov c s in
    let total : length (ahead iov c) ≡ length d + length r = rw split (length-append d r) in
    rw (advance_round fuel iov c s (omega arith), split, drop-append s d r)
      (elim (Bool-cases (c.offset + n == length (item iov c.index))) [
        | inl done ↦
            let next : Cursor = record { index = c.index + 1; offset = 0 } in
            let (w, e) =
              advance_loop_lem fuel iov next (s - n) (omega arith, omega arith) (omega arith)
                (ground arith) in
            rw done (w, ground (arith, drop-all s d))
        | inr more ↦
            let here : stepped iov c n ≡ (record c { offset = c.offset + n }) = rw more refl in
            let still : IsCursor iov (record c { offset = c.offset + n }) = ground arith in
            let rest = ahead_split iov (record c { offset = c.offset + n }) still lt in
            let none_left : s - n ≡ 0 = ground arith in
            let all : n ≡ s = ground arith in
            rw (here, none_left, advance_loop-zero fuel iov (record c { offset = c.offset + n }))
              (still, ground (arith, rest, drop-drop s c.offset (item iov c.index)))
      ])

-- The cursor stands past the last fragment, or in one that has bytes.
abbrev pub AtBytes : List Iovec → Cursor → Type 0
AtBytes iov c = (c.index ≡ length iov) ⊎ (0 < length (item iov c.index))

skip_empty_lem :
    (fuel : ℕ) (iov : List Iovec) (c : Cursor)
    → IsCursor iov c
    → length iov ≤ fuel + c.index
    → Advanced iov c 0 (skip_empty fuel iov c) × AtBytes iov (skip_empty fuel iov c)
unfolding skip_empty
skip_empty_lem zero iov c v f = ((v, refl), inl (omega arith))
skip_empty_lem (suc fuel) iov c v f =
    elim (Bool-cases (ltb c.index (length iov) && length (item iov c.index) == 0)) [
      | inl empty ↦
          let next : Cursor = record c { index = c.index + 1 } in
          let lt : c.index < length iov = ground arith in
          let nothing : length (item iov c.index) ≡ 0 = ground arith in
          let start : c.offset ≡ 0 = omega arith in
          let ((w, e), at) =
            skip_empty_lem fuel iov next (omega arith, ground arith) (omega arith) in
          let same : ahead iov next ≡ ahead iov c =
            ap (λ o. drop o (flat (drop (c.index + 1) iov))) start
            ∙ sym (
                ahead_split iov c v lt
                ∙ ap (λ l. l ++ flat (drop (c.index + 1) iov))
                    (drop-all c.offset (item iov c.index) (omega arith))) in
          rw empty ((w, e ∙ same), at)
      | inr stays ↦ rw stays ((v, refl), ground arith)
    ]

-- kcpmux_vectored_advance from a cursor in a fragment or at its end past a chunk that is there
-- leaves exactly the bytes after the chunk ahead of the cursor, which ends behind the last fragment
-- or in one that has bytes.
pub vectored_advance_correct :
    (iov : List Iovec) (c : Cursor) (size : ℕ)
    → IsCursor iov c
    → size ≤ length (ahead iov c)
    → Advanced iov c size (vectored_advance iov c size) × AtBytes iov (vectored_advance iov c size)
unfolding vectored_advance
vectored_advance_correct iov c size v h =
    let d = advance_loop (length iov + 1) iov c size in
    let (w, e) = advance_loop_lem (length iov + 1) iov c size v (omega arith) h in
    let ((w', e'), at) = skip_empty_lem (length iov) iov d w (omega arith) in ((w', e' ∙ e), at)
