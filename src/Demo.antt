-- ===== src/Demo.antt =====
-- demo/demo_common.c: the addresses and the wake-up time of an endpoint. A socket address is its
-- fields in host order, what `ntohl` and `ntohs` read from them.
pub mod Address
mod Examples
use Prim.Native.Nat.{bit_or}
use kcp_mux.Base.{
  ℕ, ◌+◌, ◌-◌, ◌*◌, ◌/◌, ◌%◌, ◌^◌, ltb, Bool, true, if◌then◌else◌, Option, none, some, List, [],
  ◌∷◌, length, get_or,
}
use kcp_mux.Types.{int64_max}

-- struct sockaddr_in; `is_inet` says that `sin_family` is AF_INET.
pub record SockAddr : Type 0 where
  pub is_inet : Bool
  pub ip : ℕ
  pub port : ℕ

-- `none` is the result -1.
unfoldable pub sockaddr_to_kcpmux_addr : SockAddr → Option (List ℕ)
sockaddr_to_kcpmux_addr addr =
    if addr.is_inet
    then some (
        addr.ip / 2 ^ 24 % 256
        ∷ addr.ip / 2 ^ 16 % 256
        ∷ addr.ip / 2 ^ 8 % 256
        ∷ addr.ip % 256
        ∷ addr.port / 2 ^ 8 % 256
        ∷ addr.port % 256
        ∷ [])
    else none

unfoldable pub kcpmux_addr_to_sockaddr : List ℕ → Option SockAddr
kcpmux_addr_to_sockaddr addr =
    if ltb (length addr) 6
    then none
    else some (record {
      is_inet = true;
      ip =
          bit_or
            (bit_or (bit_or (get_or addr 0 0 * 2 ^ 24) (get_or addr 1 0 * 2 ^ 16))
              (get_or addr 2 0 * 2 ^ 8))
            (get_or addr 3 0);
      port = bit_or (get_or addr 4 0 * 2 ^ 8) (get_or addr 5 0);
    })

-- `next_wakeup_ms` after demo_set_timer at the time `now`.
unfoldable pub set_timer_at : ℕ → ℕ → ℕ
set_timer_at now wake_after_ms =
    if ltb (int64_max - now) wake_after_ms then int64_max else now + wake_after_ms
