-- ===== src/Hash.antt =====
-- src/internal/kcpmux_hash.c: MurmurHash3 x86_32 with seed 0. `^` is `bit_xor`, `|` is `bit_or`,
-- and each 32-bit product or sum is cut to 32 bits.
mod Examples
use Prim.Native.Nat.{bit_or, bit_xor}
use kcp_mux.Base.{
  ℕ, zero, suc, ◌+◌, ◌-◌, ◌*◌, ◌/◌, ◌%◌, ◌^◌, List, [], ◌∷◌, length, get_or, drop, u32,
}

unfoldable pub rotl32 : ℕ → ℕ → ℕ
rotl32 x r = bit_or (u32 (x * 2 ^ r)) (x / 2 ^ (32 - r))

unfoldable pub load_le32 : List ℕ → ℕ
load_le32 p =
    bit_or
      (bit_or (bit_or (get_or p 0 0) (u32 (get_or p 1 0 * 2 ^ 8))) (u32 (get_or p 2 0 * 2 ^ 16)))
      (u32 (get_or p 3 0 * 2 ^ 24))

abbrev pub c1 : ℕ
c1 = 0xcc9e2d51

abbrev pub c2 : ℕ
c2 = 0x1b873593

-- k *= c1; k = rotl32(k, 15); k *= c2;
unfoldable pub scramble : ℕ → ℕ
unfolding rotl32
scramble k = u32 (rotl32 (u32 (k * c1)) 15 * c2)

-- The body loop, with the blocks left and the bytes left.
unfoldable pub body : ℕ → ℕ → List ℕ → ℕ
unfolding rotl32 load_le32 scramble
body zero hash rest = hash
body (suc nblocks) hash rest =
    body nblocks (u32 (rotl32 (bit_xor hash (scramble (load_le32 rest))) 13 * 5 + 0xe6546b64))
      (drop 4 rest)

-- The `switch` on the bytes after the last block, which falls through.
unfoldable pub tail_bytes : ℕ → List ℕ → ℕ
unfolding scramble
tail_bytes hash (a ∷ b ∷ c ∷ []) =
    bit_xor hash (scramble (bit_xor (bit_xor (c * 2 ^ 16) (b * 2 ^ 8)) a))
tail_bytes hash (a ∷ b ∷ []) = bit_xor hash (scramble (bit_xor (b * 2 ^ 8) a))
tail_bytes hash (a ∷ []) = bit_xor hash (scramble a)
tail_bytes hash _ = hash

unfoldable pub finalization : ℕ → ℕ
finalization h =
    let h1 = bit_xor h (h / 2 ^ 16) in
    let h2 = u32 (h1 * 0x85ebca6b) in
    let h3 = bit_xor h2 (h2 / 2 ^ 13) in let h4 = u32 (h3 * 0xc2b2ae35) in bit_xor h4 (h4 / 2 ^ 16)

unfoldable pub hash32 : List ℕ → ℕ
unfolding body tail_bytes finalization
hash32 p =
    let nblocks = length p / 4 in
    finalization (bit_xor (tail_bytes (body nblocks 0 p) (drop (nblocks * 4) p)) (u32 (length p)))

-- The bytes of an integer of `width` bytes in memory; the machine is little-endian.
unfoldable pub memory_bytes : ℕ → ℕ → List ℕ
memory_bytes zero value = []
memory_bytes (suc width) value = (value % 256) ∷ memory_bytes width (value / 256)
