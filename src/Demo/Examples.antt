-- ===== src/Demo/Examples.antt =====
-- The address 127.0.0.1, port 8443.
use kcp_mux.Base.{ℕ, ◌≡◌, refl, arith, some, List}
use kcp_mux.Demo.{SockAddr, sockaddr_to_kcpmux_addr, kcpmux_addr_to_sockaddr}
use kcp_mux.Demo.Address.{inet, six_bytes, address_correct}

address_correct_example :
    ((bytes : List ℕ) × (sockaddr_to_kcpmux_addr (inet 2130706433 8443) ≡ some bytes)
      × (kcpmux_addr_to_sockaddr bytes ≡ some (inet 2130706433 8443)))
    × ((addr : SockAddr) × (kcpmux_addr_to_sockaddr (six_bytes 10 0 0 255 0 7) ≡ some addr)
        × (sockaddr_to_kcpmux_addr addr ≡ some (six_bytes 10 0 0 255 0 7)))
address_correct_example =
    address_correct 2130706433 8443 10 0 0 255 0 7 (omega arith) (omega arith) (omega arith)
      (omega arith) (omega arith) (omega arith) (omega arith) (omega arith)

localhost : sockaddr_to_kcpmux_addr (inet 2130706433 8443) ≡ some (six_bytes 127 0 0 1 32 251)
unfolding sockaddr_to_kcpmux_addr
localhost = refl
