-- ===== src/Demo/Address.antt =====
-- The two conversions of addresses in demo/demo_common.c.
use kcp_mux.Base.{
  ◌∙◌, ℕ, ◌+◌, ◌*◌, ◌/◌, ◌%◌, ◌^◌, ◌<◌, ◌≡◌, refl, arith, ap, true, some, List, [], ◌∷◌,
}
use kcp_mux.Base.Bits.{bit_or-shift}
use kcp_mux.Wire.RoundTrip.{or_bytes}
use kcp_mux.Demo.{SockAddr, sockaddr_to_kcpmux_addr, kcpmux_addr_to_sockaddr}

abbrev pub inet : ℕ → ℕ → SockAddr
inet ip port = record { is_inet = true; ip = ip; port = port }

abbrev pub six_bytes : ℕ → ℕ → ℕ → ℕ → ℕ → ℕ → List ℕ
six_bytes a b c d e f = a ∷ b ∷ c ∷ d ∷ e ∷ f ∷ []

-- Six bytes are read as an address in host order.
read_lem :
    (a b c d e f : ℕ)
    → b < 256
    → c < 256
    → d < 256
    → f < 256
    → kcpmux_addr_to_sockaddr (six_bytes a b c d e f)
      ≡ some (inet (a * 2 ^ 24 + b * 2 ^ 16 + c * 2 ^ 8 + d) (e * 2 ^ 8 + f))
unfolding kcpmux_addr_to_sockaddr
read_lem a b c d e f hb hc hd hf = rw (or_bytes a b c d hb hc hd, bit_or-shift 8 e f hf) refl

-- The address of a peer and its key in the engine's maps determine each other: an IPv4 address and
-- port are what the reader makes of the six bytes written for them, and six bytes are what the
-- writer makes of the address read from them, so that an answer goes to the sender of a packet.
pub address_correct :
    (ip port a b c d e f : ℕ)
    → ip < 2 ^ 32
    → port < 2 ^ 16
    → a < 256
    → b < 256
    → c < 256
    → d < 256
    → e < 256
    → f < 256
    → ((bytes : List ℕ) × (sockaddr_to_kcpmux_addr (inet ip port) ≡ some bytes)
        × (kcpmux_addr_to_sockaddr bytes ≡ some (inet ip port)))
      × ((addr : SockAddr) × (kcpmux_addr_to_sockaddr (six_bytes a b c d e f) ≡ some addr)
          × (sockaddr_to_kcpmux_addr addr ≡ some (six_bytes a b c d e f)))
unfolding sockaddr_to_kcpmux_addr
address_correct ip port a b c d e f hi hp ha hb hc hd he hf =
    let x = a * 2 ^ 24 + b * 2 ^ 16 + c * 2 ^ 8 + d in
    let y = e * 2 ^ 8 + f in
    let whole : ip / 2 ^ 24 % 256 * 2 ^ 24
          + ip / 2 ^ 16 % 256 * 2 ^ 16
          + ip / 2 ^ 8 % 256 * 2 ^ 8
          + ip % 256
        ≡ ip =
      omega arith in
    let halves : port / 2 ^ 8 % 256 * 2 ^ 8 + port % 256 ≡ port = omega arith in
    let x1 : x / 2 ^ 24 % 256 ≡ a = omega arith in
    let x2 : x / 2 ^ 16 % 256 ≡ b = omega arith in
    let x3 : x / 2 ^ 8 % 256 ≡ c = omega arith in
    let x4 : x % 256 ≡ d = omega arith in
    let y1 : y / 2 ^ 8 % 256 ≡ e = omega arith in
    let y2 : y % 256 ≡ f = omega arith in
    (
      (
        six_bytes (ip / 2 ^ 24 % 256) (ip / 2 ^ 16 % 256) (ip / 2 ^ 8 % 256) (ip % 256)
            (port / 2 ^ 8 % 256) (port % 256),
        refl,
        read_lem (ip / 2 ^ 24 % 256) (ip / 2 ^ 16 % 256) (ip / 2 ^ 8 % 256) (ip % 256)
              (port / 2 ^ 8 % 256) (port % 256) (omega arith) (omega arith) (omega arith)
              (omega arith)
            ∙ ap some (
                ap (λ i. inet i (port / 2 ^ 8 % 256 * 2 ^ 8 + port % 256)) whole
                ∙ ap (inet ip) halves),
      ),
      (inet x y, read_lem a b c d e f hb hc hd hf, rw (x1, x2, x3, x4, y1, y2) refl),
    )
