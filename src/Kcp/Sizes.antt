-- ===== src/Kcp/Sizes.antt =====
-- The packets of a KCP instance of the default table, in a message of src/kcpmux_protocol.c.
use kcp_mux.Base.{
  ℕ, ◌+◌, ◌-◌, ◌≤◌, ◌≡◌, ◌⊎◌, inl, inr, refl, ◌∙◌, arith, false, ltb, ◌==◌, ◌||◌, Bool-cases,
  Option, none, some, List, [], ◌∷◌, length, subst,
}
use kcp_mux.Types.{Iovec, fragment}
use kcp_mux.Config.{
  StreamConfig, stream_config_prepare, msg_max_len, stream_header_len, ikcp_overhead,
}
use kcp_mux.Config.Prepare.{stream_config_prepare_iff}
use kcp_mux.World.{World}
use kcp_mux.Wire.{stream_header, msg_stream_payload}
use kcp_mux.Send.{write_socketv, protocol_send_stream_payload}
use kcp_mux.Kcp.{
  nodelay, nodelay_interval, nodelay_fastack, nodelay_flowctrl, Ikcp, default_kcp_ops,
  default_ikcp_create, default_ikcp_setmss,
}

-- Every packet has at most `n` bytes.
abbrev pub AreWithin : ℕ → List (List ℕ) → Type 0
AreWithin n [] = Unit {0}
AreWithin n (p ∷ packets) = (length p ≤ n) × AreWithin n packets

module _ {K : Type 0} (kcp : Ikcp K) where
  -- The maximum transmission unit of ikcp.h: IKCP_MTU_DEF of a new instance, set by `ikcp_setmtu`
  -- unless it refuses the value, left alone by the other functions, and the limit of each packet.
  pub record HasMtu (mtu : K → ℕ) : Type 0 where
    pub created : (conv user : ℕ) (k : K) → kcp.ikcp_create conv user ≡ some k → mtu k ≡ 1400
    pub tuned : (k : K) (a b c d : ℕ) → mtu (kcp.ikcp_nodelay k a b c d) ≡ mtu k
    pub set :
        (k : K) (m : ℕ) → (mtu (kcp.ikcp_setmtu k m) ≡ m) ⊎ (mtu (kcp.ikcp_setmtu k m) ≡ mtu k)
    pub sent : (k : K) (buf : List ℕ) → mtu (kcp.ikcp_send k buf).0 ≡ mtu k
    pub sent_parts :
        (k : K) (iov : List Iovec) (offset len : ℕ)
        → mtu (kcp.ikcp_sendv k iov offset len).0 ≡ mtu k
    pub got : (k : K) (buf : List ℕ) → mtu (kcp.ikcp_input k buf).0 ≡ mtu k
    pub read : (k : K) (size : ℕ) → mtu (kcp.ikcp_recv k size).0 ≡ mtu k
    pub updated : (k : K) (t : ℕ) → mtu (kcp.ikcp_update k t).0 ≡ mtu k
    pub timed : (k : K) (t : ℕ) → mtu (kcp.ikcp_current_update k t) ≡ mtu k
    pub output : (k : K) (t : ℕ) → AreWithin (mtu k) (kcp.ikcp_update k t).1

  -- The instances of a stream: kcpmux_stream_new makes one and sets the segment size of the
  -- configuration, and the stream then calls the other operations in any order.
  pub data InUse (config : StreamConfig) : K → Type 0 where
    made :
        (conv user engine_user : ℕ) (k : K)
        → (default_kcp_ops kcp).create conv user engine_user ≡ some k
        → InUse config ((default_kcp_ops kcp).setmss k config.kcp_mss)
    sends :
        {k : K}
        → InUse config k
        → (buf : List ℕ) → InUse config ((default_kcp_ops kcp).send k buf).0
    sends_parts :
        {k : K}
        → InUse config k
        → (iov : List Iovec) (offset len : ℕ)
        → InUse config ((default_kcp_ops kcp).sendv k iov offset len).0
    gets :
        {k : K}
        → InUse config k
        → (buf : List ℕ) → InUse config ((default_kcp_ops kcp).input k buf).0
    reads :
        {k : K} → InUse config k → (size : ℕ) → InUse config ((default_kcp_ops kcp).recv k size).0
    updates : {k : K} → InUse config k → (t : ℕ) → InUse config ((default_kcp_ops kcp).update k t).0
    tells :
        {k : K} → InUse config k → (t : ℕ) → InUse config ((default_kcp_ops kcp).current_update k t)

  module _ (mtu : K → ℕ) (law : HasMtu mtu) where
    tuned-mtu :
        (made : Option K) (a b c d : ℕ) (k : K)
        → ((k0 : K) → made ≡ some k0 → mtu k0 ≡ 1400)
        → (elim made as (λ m. Option K) [
          | none ↦ none
          | some k0 ↦ some (kcp.ikcp_nodelay k0 a b c d)
        ])
          ≡ some k
        → mtu k ≡ 1400
    tuned-mtu none a b c d k h e = ground (arith)
    tuned-mtu (some k0) a b c d k h e =
        let f : kcp.ikcp_nodelay k0 a b c d ≡ k = ground arith in
        subst (λ x. mtu x ≡ 1400) f (law.tuned k0 a b c d ∙ h k0 refl)

    create-mtu :
        (conv user engine_user : ℕ) (k : K)
        → default_ikcp_create kcp conv user engine_user ≡ some k
        → mtu k ≡ 1400
    unfolding default_ikcp_create
    create-mtu conv user engine_user k e =
        tuned-mtu (kcp.ikcp_create conv user) nodelay nodelay_interval nodelay_fastack
          (1 - nodelay_flowctrl) k (law.created conv user) e

    setmss-mtu :
        (k : K) (mss : ℕ)
        → mtu k ≡ 1400
        → stream_header_len + ikcp_overhead + mss ≤ msg_max_len
        → stream_header_len + mtu (default_ikcp_setmss kcp k mss) ≤ msg_max_len
    unfolding default_ikcp_setmss
    setmss-mtu k mss e fits = elim (law.set k (mss + ikcp_overhead)) [
      | inl h ↦ omega (arith, h)
      | inr h ↦ omega (arith, h)
    ]

    in_use-mtu :
        (config : StreamConfig) (k : K)
        → stream_header_len + ikcp_overhead + config.kcp_mss ≤ msg_max_len
        → InUse config k
        → stream_header_len + mtu k ≤ msg_max_len
    unfolding default_kcp_ops
    in_use-mtu config k fits (made conv user engine_user k0 e) =
        setmss-mtu k0 config.kcp_mss (create-mtu conv user engine_user k0 e) fits
    in_use-mtu config k fits (sends {k = k0} u buf) =
        omega (arith, law.sent k0 buf, in_use-mtu config k0 fits u)
    in_use-mtu config k fits (sends_parts {k = k0} u iov offset len) =
        omega (arith, law.sent_parts k0 iov offset len, in_use-mtu config k0 fits u)
    in_use-mtu config k fits (gets {k = k0} u buf) =
        omega (arith, law.got k0 buf, in_use-mtu config k0 fits u)
    in_use-mtu config k fits (reads {k = k0} u size) =
        omega (arith, law.read k0 size, in_use-mtu config k0 fits u)
    in_use-mtu config k fits (updates {k = k0} u t) =
        omega (arith, law.updated k0 t, in_use-mtu config k0 fits u)
    in_use-mtu config k fits (tells {k = k0} u t) =
        omega (arith, law.timed k0 t, in_use-mtu config k0 fits u)

-- The two fragments of a payload.
abbrev payload : World → ℕ → List ℕ → List Iovec
payload w s packet =
    let stream = w.streams s in
    fragment
      (stream_header msg_stream_payload (w.conns stream.conn).peer_connection_id stream.stream_id)
    ∷ fragment packet
    ∷ []

-- The sender of payloads hands each packet on to the connection, but for an empty one.
abbrev pub AreSent : World → ℕ → List (List ℕ) → Type 0
AreSent w s [] = Unit {0}
AreSent w s (p ∷ packets) =
    ((length p ≡ 0)
      ⊎ (protocol_send_stream_payload s p w ≡ write_socketv (w.streams s).conn (payload w s p) w))
    × AreSent w s packets

sent_payload :
    (w : World) (s : ℕ) (p : List ℕ)
    → stream_header_len + length p ≤ msg_max_len
    → (length p ≡ 0)
      ⊎ (protocol_send_stream_payload s p w ≡ write_socketv (w.streams s).conn (payload w s p) w)
unfolding protocol_send_stream_payload
sent_payload w s p fits = elim (Bool-cases (length p == 0)) [
  | inl e ↦ inl (ground arith)
  | inr e ↦
      let f : (length p == 0 || ltb msg_max_len (stream_header_len + length p)) ≡ false =
        ground arith in
      inr (rw f refl)
]

within-AreSent :
    (w : World) (s n : ℕ) (packets : List (List ℕ))
    → stream_header_len + n ≤ msg_max_len
    → AreWithin n packets
    → AreSent w s packets
within-AreSent w s n [] fits h = tt
within-AreSent w s n (p ∷ packets) fits h =
    (sent_payload w s p (omega (arith, h.0)), within-AreSent w s n packets fits h.1)

-- If a KCP library keeps to its MTU, then no packet of a stream is ever lost to the limit of a
-- message: for a configuration that kcpmux_stream_config_prepare accepts, whatever a stream does
-- with its instance, kcpmux_protocol_send_stream_payload hands every packet of the instance that
-- is not empty on to kcpmux_conn_write_socketv.
pub in_use-AreSent :
    {K : Type 0} (kcp : Ikcp K) (mtu : K → ℕ)
    → HasMtu kcp mtu
    → (source config : StreamConfig) (k : K) → stream_config_prepare source ≡ some config
    → InUse kcp config k
    → (w : World) (s t : ℕ) → AreSent w s ((default_kcp_ops kcp).update k t).1
unfolding default_kcp_ops
in_use-AreSent kcp mtu law source config k e u w s t =
    let (ranges, same) = (stream_config_prepare_iff source config).0 e in
    within-AreSent w s (mtu k) (kcp.ikcp_update k t).1
      (in_use-mtu kcp mtu law config k (rw same ranges.mss_fits) u) (law.output k t)
