-- ===== src/Hash/Examples.antt =====
-- Published values of MurmurHash3 x86_32 with seed 0.
use kcp_mux.Base.{[], ◌∷◌, ◌≡◌, refl}
use kcp_mux.Hash.{hash32}

hash32-empty : hash32 [] ≡ 0
unfolding hash32
hash32-empty = refl

-- "test"
hash32_test : hash32 (b't' ∷ b'e' ∷ b's' ∷ b't' ∷ []) ≡ 0xba6bd213
unfolding hash32
hash32_test = refl

-- "Hello, world!"
hash32_hello :
    hash32 (
      b'H' ∷ b'e' ∷ b'l' ∷ b'l' ∷ b'o' ∷ b',' ∷ b' ' ∷ b'w' ∷ b'o' ∷ b'r' ∷ b'l' ∷ b'd' ∷ b'!' ∷ [])
    ≡ 0xc0363e43
unfolding hash32
hash32_hello = refl
