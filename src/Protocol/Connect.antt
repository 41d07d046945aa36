-- ===== src/Protocol/Connect.antt =====
-- A CONNECT of a peer that runs the same program, in src/kcpmux_protocol.c: from the bytes that
-- kcpmux_protocol_send_conn_connect builds to the branch that handles them.
use kcp_mux.Base.{
  ℕ, Bool-cases, inl, inr, subst, sym, ◌+◌, ◌^◌, ◌≤◌, ◌<◌, ◌≡◌, ◌≢◌, refl, ◌∙◌, arith, List, length,
  get_or, drop, take, true, false, not, ◌==◌, ltb, ◌||◌, if◌then◌else◌,
}
use kcp_mux.Types.{Ret, version, addr_max_len, proto_ext_max_len}
use kcp_mux.Wire.{read_u16, read_u64, msg_conn_connect, common_len, connect_len, connect_message}
use kcp_mux.Wire.Messages.{connect_message_correct}
use kcp_mux.World.{World, M}
use native.Mathlib.Nat.{le_refl}
use kcp_mux.Vectored.Bytes.{take-all}
use kcp_mux.Route.{get_passive_conn}
use kcp_mux.Protocol.{protocol_input}
use kcp_mux.Protocol.Answers.{
  Routed, pick_first, pick_second, accept_connect-Routed, repeat_connect-Routed,
}
use kcp_mux.ConnMessages.{input_connect, connect_found, accept_connect, repeat_connect}

-- A new connection for an unknown initiator, an answer again for a known one.
abbrev accept_or_repeat : List ℕ → ℕ → List ℕ → ℕ → ℕ → ℕ → M Ret
accept_or_repeat peer_addr source_id ext size t c =
    if c == 0 then accept_connect peer_addr source_id ext t else repeat_connect c size t

module _ (buf peer_addr : List ℕ) (t : ℕ) (w : World) (source_id : ℕ) (ext : List ℕ)
    (size : length buf ≡ connect_len + length ext) (destination : read_u64 (drop 1 buf) ≡ 0)
    (source : read_u64 (drop common_len buf) ≡ source_id)
    (versions : get_or buf (common_len + 8) 0 ≡ version)
    (ext_len : read_u16 (drop (common_len + 9) buf) ≡ length ext)
    (exts : drop connect_len buf ≡ ext) (source_pos : source_id ≢ 0)
    (ext_fits : length ext ≤ proto_ext_max_len) where
  connect_found_lem :
      (c : ℕ)
      → connect_found buf peer_addr t source_id c w
        ≡ accept_or_repeat peer_addr source_id ext (length buf) t c w
  unfolding connect_found
  connect_found_lem c =
      let same : (get_or buf (common_len + 8) 0 == version) ≡ true = ground arith in
      let whole : take (length ext) ext ≡ ext = take-all (length ext) ext (le_refl _) in
      rw (same, ext_len, exts, whole) refl

  input_connect_lem :
      input_connect buf peer_addr t w
      ≡ connect_found buf peer_addr t source_id (get_passive_conn w peer_addr source_id) w
  unfolding input_connect
  input_connect_lem =
      let long : (ltb (length buf) connect_len || not (read_u64 (drop 1 buf) == 0)) ≡ false =
        ground arith in
      let good : (source_id == 0
            || (ltb proto_ext_max_len (length ext) || ltb (length buf) (connect_len + length ext)))
          ≡ false =
        ground arith in
      rw (long, source, ext_len, good) refl

  connect_lem :
      0 < length peer_addr
      → length peer_addr ≤ addr_max_len
      → get_or buf 0 0 ≡ msg_conn_connect
      → protocol_input buf peer_addr t w
        ≡ accept_or_repeat peer_addr source_id ext
            (length buf)
            t
            (get_passive_conn w peer_addr source_id)
            w
  unfolding protocol_input
  connect_lem p q first =
      let valid : (length buf == 0
            || (length peer_addr == 0 || ltb addr_max_len (length peer_addr)))
          ≡ false =
        ground arith in
      let long : ltb (length buf) common_len ≡ false = ground arith in
      let type : (get_or buf 0 0 == msg_conn_connect) ≡ true = ground arith in
      rw (valid, long, type)
        (input_connect_lem ∙ connect_found_lem (get_passive_conn w peer_addr source_id))

accept_or_repeat-Routed :
    (peer_addr : List ℕ) (source_id : ℕ) (ext : List ℕ) (size t : ℕ) (w : World)
    → Routed peer_addr source_id ext size t w
        (accept_or_repeat peer_addr source_id ext size t (get_passive_conn w peer_addr source_id) w)
accept_or_repeat-Routed peer_addr source_id ext size t w =
    let c = get_passive_conn w peer_addr source_id in
    let routed = Routed peer_addr source_id ext size t w in
    elim (Bool-cases (c == 0)) [
      | inl e ↦
          subst routed (sym (pick_first (c == 0) _ _ w e))
            (accept_connect-Routed peer_addr source_id ext size t w (ground arith))
      | inr e ↦
          subst routed (sym (pick_second (c == 0) _ _ w e))
            (repeat_connect-Routed peer_addr source_id ext size t w c refl (ground arith))
    ]

-- A CONNECT that the program builds, with any nonzero 64-bit sender and any extension of at most
-- 512 bytes, from an address of 1 to 64 bytes, passes the checks of the message's format and
-- version in kcpmux_protocol_input at the receiver, and has one of six outcomes. A sender known at
-- its address, by a connection that is not CONNECTED, is refused with STATE and nothing changes;
-- by a CONNECTED one, the packet is counted and noted, and the OK answer is sent again, once. For
-- an unknown sender a connection is created, or the result is OOM; the new one gets exactly the
-- ID and the extension of the message, is noted and added to the maps, and the host is asked. If
-- the host accepts, with an extension of at most 512 bytes, it becomes CONNECTED and then the OK
-- answer is sent; if the host declines, or accepts with a longer extension, the rejection is
-- counted, the host's result or ERROR is sent, and the connection closes without callbacks.
pub connect_message-Routed :
    (peer_id local_id : ℕ) (ext peer_addr : List ℕ) (t : ℕ) (w : World)
    → local_id < 2 ^ 64
    → local_id ≢ 0
    → length ext ≤ proto_ext_max_len
    → 0 < length peer_addr
    → length peer_addr ≤ addr_max_len
    → Routed peer_addr local_id ext
        (length (connect_message peer_id local_id ext))
        t
        w
        (protocol_input (connect_message peer_id local_id ext) peer_addr t w)
connect_message-Routed peer_id local_id ext peer_addr t w fits pos l p q =
    let buf = connect_message peer_id local_id ext in
    let (size, first, destination, source, versions, ext_len, exts) =
      connect_message_correct peer_id local_id ext fits l in
    let routed =
      connect_lem buf peer_addr t w local_id ext size destination source versions ext_len exts pos l
        p q first in
    subst (Routed peer_addr local_id ext (length buf) t w) (sym routed)
      (accept_or_repeat-Routed peer_addr local_id ext (length buf) t w)
