-- ===== src/Wire/RoundTrip.antt =====
-- What is written is read back, whatever follows it.
use Prim.Native.Nat.{bit_or}
use kcp_mux.Base.{ℕ, ◌+◌, ◌*◌, ◌/◌, ◌%◌, ◌^◌, ◌<◌, ◌≡◌, List, ◌++◌, arith, u8, u64}
use kcp_mux.Base.Bits.{bit_or-shift}
use kcp_mux.Wire.{write_u16, write_u32, write_u64, read_u16, read_u32, read_u64}

-- A 16-bit word survives __write_u16 and __read_u16.
pub read_u16-write_u16 : (v : ℕ) (rest : List ℕ) → v < 2 ^ 16 → read_u16 (write_u16 v ++ rest) ≡ v
unfolding read_u16 write_u16
read_u16-write_u16 v rest h =
    omega (arith, bit_or-shift 8 (v / 2 ^ 8 % 256) (v % 256 % 256) (omega arith))

pub or_bytes :
    (a b c d : ℕ)
    → b < 256
    → c < 256
    → d < 256
    → bit_or (bit_or (bit_or (a * 2 ^ 24) (b * 2 ^ 16)) (c * 2 ^ 8)) d
      ≡ a * 2 ^ 24 + b * 2 ^ 16 + c * 2 ^ 8 + d
or_bytes a b c d hb hc hd =
    let e : a * 2 ^ 24 + b * 2 ^ 16 ≡ (a * 256 + b) * 2 ^ 16 = omega arith in
    let f : (a * 256 + b) * 2 ^ 16 + c * 2 ^ 8 ≡ ((a * 256 + b) * 256 + c) * 2 ^ 8 = omega arith in
    rw
      (
        bit_or-shift 24 a (b * 2 ^ 16) (omega arith),
        e,
        bit_or-shift 16 (a * 256 + b) (c * 2 ^ 8) (omega arith),
        f,
        bit_or-shift 8 ((a * 256 + b) * 256 + c) d hd,
      )
      (omega arith)

-- A 32-bit word survives __write_u32 and __read_u32.
pub read_u32-write_u32 : (v : ℕ) (rest : List ℕ) → v < 2 ^ 32 → read_u32 (write_u32 v ++ rest) ≡ v
unfolding read_u32 write_u32
read_u32-write_u32 v rest h = omega (
  arith,
  or_bytes (v / 2 ^ 24 % 256) (v / 2 ^ 16 % 256 % 256) (v / 2 ^ 8 % 256 % 256) (v % 256 % 256)
      (omega arith) (omega arith) (omega arith),
)

-- One round of the reading loop: `hi` has been read, and the next byte completes `w`.
u64_round : (hi w : ℕ) → hi ≡ w / 256 → w < 2 ^ 64 → bit_or (u64 (hi * 256)) (u8 w) ≡ w
u64_round hi w e h =
    let fits : hi * 256 % 2 ^ 64 ≡ hi * 2 ^ 8 = omega arith in
    rw (fits, bit_or-shift 8 hi (w % 256) (omega arith)) (omega arith)

-- A 64-bit word survives __write_u64 and __read_u64.
pub read_u64-write_u64 : (v : ℕ) (rest : List ℕ) → v < 2 ^ 64 → read_u64 (write_u64 v ++ rest) ≡ v
unfolding read_u64 write_u64
read_u64-write_u64 v rest h =
    rw
      (
        u64_round 0 (v / 2 ^ 56) (omega arith) (omega arith),
        u64_round (v / 2 ^ 56) (v / 2 ^ 48) (omega arith) (omega arith),
        u64_round (v / 2 ^ 48) (v / 2 ^ 40) (omega arith) (omega arith),
        u64_round (v / 2 ^ 40) (v / 2 ^ 32) (omega arith) (omega arith),
        u64_round (v / 2 ^ 32) (v / 2 ^ 24) (omega arith) (omega arith),
        u64_round (v / 2 ^ 24) (v / 2 ^ 16) (omega arith) (omega arith),
        u64_round (v / 2 ^ 16) (v / 2 ^ 8) (omega arith) (omega arith),
        u64_round (v / 2 ^ 8) (v / 1) (omega arith) (omega arith),
      )
      (omega arith)
