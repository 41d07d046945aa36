-- ===== src/Protocol/Refusal.antt =====
-- The packets that kcpmux_protocol_input in src/kcpmux_protocol.c refuses.
use kcp_mux.Base.{
  ℕ, ◌≡◌, ◌≢◌, ◌⊎◌, inl, inr, refl, arith, List, length, get_or, drop, Bool-cases, false, ◌==◌, ltb,
  ◌||◌,
}
use kcp_mux.Types.{Ret, err, Status, addr_max_len}
use kcp_mux.Wire.{read_u64, msg_conn_connect, common_len}
use kcp_mux.World.{World}
use kcp_mux.Route.{get_conn_by_id}
use kcp_mux.Protocol.{protocol_input, input_routed, input_found}

found_none :
    (buf : List ℕ) (t destination_id : ℕ) (w : World)
    → (input_found buf t destination_id 0 w ≡ (err Status.invalid_format, w))
      ⊎ (input_found buf t destination_id 0 w ≡ (err Status.not_found, w))
unfolding input_found
found_none buf t destination_id w = elim (Bool-cases (destination_id == 0)) [
  | inl e ↦ inl (rw e refl)
  | inr e ↦ inr (rw e refl)
]

routed :
    (buf peer_addr : List ℕ) (t : ℕ) (w : World)
    → let destination_id = read_u64 (drop 1 buf) in
      input_routed buf peer_addr t w
      ≡ input_found buf t destination_id (get_conn_by_id w peer_addr destination_id) w
unfolding input_routed
routed buf peer_addr t w = refl

-- An outcome that leaves the world as it was, with an error.
abbrev pub Refused : World → Ret × World → Type 0
Refused w r = (e : Status) × (r ≡ (err e, w))

-- kcpmux_protocol_input refuses every packet that is not a CONNECT and names no connection of the
-- receiver at its sender's address, whatever its bytes are, and nothing changes: no object, no
-- counter, no timer, and no packet is sent.
pub unknown_connection-Refused :
    (buf peer_addr : List ℕ) (t : ℕ) (w : World)
    → get_or buf 0 0 ≢ msg_conn_connect
    → get_conn_by_id w peer_addr (read_u64 (drop 1 buf)) ≡ 0
    → Refused w (protocol_input buf peer_addr t w)
unfolding protocol_input
unknown_connection-Refused buf peer_addr t w ne h =
    let destination_id = read_u64 (drop 1 buf) in
    let other : (get_or buf 0 0 == msg_conn_connect) ≡ false = ground arith in
    elim (Bool-cases
      (length buf == 0 || (length peer_addr == 0 || ltb addr_max_len (length peer_addr)))) [
        | inl bad ↦ rw bad (Status.invalid_param, refl)
        | inr good ↦ rw good (elim (Bool-cases (ltb (length buf) common_len)) [
          | inl short ↦ rw short (Status.invalid_format, refl)
          | inr long ↦
              rw (long, other, routed buf peer_addr t w, h)
                (elim (found_none buf t destination_id w) [
                  | inl e ↦ (Status.invalid_format, e)
                  | inr e ↦ (Status.not_found, e)
                ])
        ])
      ]
