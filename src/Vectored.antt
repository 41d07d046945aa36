-- ===== src/Vectored.antt =====
-- src/kcpmux_stream.c: the cursor over the fragments of a vectored send, and the copy of a chunk
-- that starts at the cursor. A round of each loop finishes a fragment or the chunk, so the number
-- of fragments and one is enough fuel.
pub mod Bytes
pub mod Advance
mod Examples
use kcp_mux.Base.{
  ℕ, zero, suc, ◌+◌, ◌-◌, ◌==◌, ltb, if◌then◌else◌, ◌&&◌, List, [], ◌++◌, length, get_or, take,
  drop,
}
use kcp_mux.Types.{Iovec, fragment, dangling}

-- The position in kcpmux_vectored_send_context_t.
pub record Cursor : Type 0 where
  pub index : ℕ
  pub offset : ℕ

-- A fragment with a NULL pointer that passed the checks has no bytes.
abbrev pub iov_bytes : Iovec → List ℕ
iov_bytes (fragment bytes) = bytes
iov_bytes (dangling len) = []

-- `&iov[index]`
abbrev pub item : List Iovec → ℕ → List ℕ
item iov index = iov_bytes (get_or iov index (dangling 0))

unfoldable pub advance_loop : ℕ → List Iovec → Cursor → ℕ → Cursor
advance_loop zero iov c size = c
advance_loop (suc fuel) iov c size =
    let len = length (item iov c.index) in
    let available = len - c.offset in
    let n = if ltb available size then available else size in
    let next : Cursor =
      if c.offset + n == len
      then record { index = c.index + 1; offset = 0 }
      else record c { offset = c.offset + n } in
    let rest = advance_loop fuel iov next (size - n) in if size == 0 then c else rest

-- The loop over empty fragments at the cursor.
unfoldable pub skip_empty : ℕ → List Iovec → Cursor → Cursor
skip_empty zero iov c = c
skip_empty (suc fuel) iov c =
    let rest = skip_empty fuel iov (record c { index = c.index + 1 }) in
    if ltb c.index (length iov) && length (item iov c.index) == 0 then rest else c

unfoldable pub vectored_advance : List Iovec → Cursor → ℕ → Cursor
unfolding advance_loop skip_empty
vectored_advance iov c size = skip_empty (length iov) iov (advance_loop (length iov + 1) iov c size)

unfoldable pub copy_loop : ℕ → List Iovec → Cursor → ℕ → List ℕ
copy_loop zero iov c size = []
copy_loop (suc fuel) iov c size =
    let bytes = item iov c.index in
    let available = length bytes - c.offset in
    let n = if ltb available size then available else size in
    let next : Cursor =
      if c.offset + n == length bytes
      then record { index = c.index + 1; offset = 0 }
      else record c { offset = c.offset + n } in
    let rest = take n (drop c.offset bytes) ++ copy_loop fuel iov next (size - n) in
    if size == 0 then [] else rest

unfoldable pub vectored_copy : List Iovec → Cursor → ℕ → List ℕ
unfolding copy_loop
vectored_copy iov c size = copy_loop (length iov + 1) iov c size
