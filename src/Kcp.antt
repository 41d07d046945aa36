-- ===== src/Kcp.antt =====
-- src/kcpmux_kcp.c: the default table of KCP operations, of include/kcpmux/kcpmux_kcp.h. The KCP
-- library (third_party/kcp) is the parameter `Ikcp`: its functions on an instance of any type `K`.
-- A function that changes an instance answers the new one; a result is a number, or the negative
-- number of an error.
pub mod Sizes
mod Examples
use kcp_mux.Base.{ℕ, ◌+◌, ◌-◌, Bool, Option, none, some, List}
use kcp_mux.Types.{Iovec}
use kcp_mux.Config.{ikcp_overhead}
use kcp_mux.World.{KcpRet}

-- KCPMUX_KCP_NODELAY and its companions.
abbrev pub nodelay : ℕ
nodelay = 0

abbrev pub nodelay_interval : ℕ
nodelay_interval = 10

abbrev pub nodelay_fastack : ℕ
nodelay_fastack = 3

abbrev pub nodelay_flowctrl : ℕ
nodelay_flowctrl = 1

-- ikcp.h, as far as the table calls it.
pub record Ikcp (K : Type 0) : Type 0 where
  pub ikcp_create : ℕ → ℕ → Option K
  pub ikcp_nodelay : K → ℕ → ℕ → ℕ → ℕ → K
  pub ikcp_setmtu : K → ℕ → K
  pub ikcp_send : K → List ℕ → K × KcpRet
  pub ikcp_sendv : K → List Iovec → ℕ → ℕ → K × KcpRet
  pub ikcp_input : K → List ℕ → K × KcpRet
  pub ikcp_recv : K → ℕ → K × KcpRet × List ℕ
  pub ikcp_peeksize : K → KcpRet
  pub ikcp_waitsnd : K → ℕ
  pub ikcp_update : K → ℕ → K × List (List ℕ)
  pub ikcp_check : K → ℕ → ℕ
  pub ikcp_current : K → ℕ
  pub ikcp_current_update : K → ℕ → K

-- kcpmux_kcp_ops_t. The packets that the output callback is given are in the result of `update`.
-- `release` and `setoutput` only hand on a pointer.
pub record KcpOps (K : Type 0) : Type 0 where
  pub create : ℕ → ℕ → ℕ → Option K
  pub setmss : K → ℕ → K
  pub send : K → List ℕ → K × KcpRet
  pub input : K → List ℕ → K × KcpRet
  pub recv : K → ℕ → K × KcpRet × List ℕ
  pub peeksize : K → KcpRet
  pub waitsnd : K → ℕ
  pub update : K → ℕ → K × List (List ℕ)
  pub check : K → ℕ → ℕ
  pub current : K → ℕ
  pub current_update : K → ℕ → K
  pub sendv : K → List Iovec → ℕ → ℕ → K × KcpRet

module _ {K : Type 0} (kcp : Ikcp K) where
  unfoldable pub default_ikcp_create : ℕ → ℕ → ℕ → Option K
  default_ikcp_create kcp_conv kcp_user engine_user = elim (kcp.ikcp_create kcp_conv kcp_user) [
    | none ↦ none
    | some made ↦
        some (kcp.ikcp_nodelay made nodelay nodelay_interval nodelay_fastack (1 - nodelay_flowctrl))
  ]

  unfoldable pub default_ikcp_setmss : K → ℕ → K
  default_ikcp_setmss k mss = kcp.ikcp_setmtu k (mss + ikcp_overhead)

  -- The other entries only call the library.
  unfoldable pub default_kcp_ops : KcpOps K
  unfolding default_ikcp_create default_ikcp_setmss
  default_kcp_ops = record {
    create = default_ikcp_create;
    setmss = default_ikcp_setmss;
    send = kcp.ikcp_send;
    input = kcp.ikcp_input;
    recv = kcp.ikcp_recv;
    peeksize = kcp.ikcp_peeksize;
    waitsnd = kcp.ikcp_waitsnd;
    update = kcp.ikcp_update;
    check = kcp.ikcp_check;
    current = kcp.ikcp_current;
    current_update = kcp.ikcp_current_update;
    sendv = kcp.ikcp_sendv;
  }
