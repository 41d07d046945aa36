-- ===== src/Kcp/Examples.antt =====
-- A library whose instance is its MTU, and which sends one byte at each update.
use kcp_mux.Base.{
  ◌⊎◌, ℕ, ◌≡◌, ◌==◌, refl, inl, inr, arith, if◌then◌else◌, Bool-cases, ltb, List, [], ◌∷◌, some,
}
use kcp_mux.Config.{stream_config_init, stream_config_prepare}
use kcp_mux.World.{done}
use kcp_mux.Scenarios.{fresh}
use kcp_mux.Kcp.{Ikcp, default_kcp_ops, default_ikcp_create}
use kcp_mux.Kcp.Sizes.{HasMtu, InUse, AreSent, AreWithin, made, sends, in_use-AreSent}

abbrev byte_packets : ℕ → List (List ℕ)
byte_packets k = if k == 0 then [] else (7 ∷ []) ∷ []

abbrev toy : Ikcp ℕ
toy = record {
  ikcp_create = λ conv user. some 1400;
  ikcp_nodelay = λ k a b c d. k;
  ikcp_setmtu = λ k m. if ltb m 50 then k else m;
  ikcp_send = λ k buf. (k, done 0);
  ikcp_sendv = λ k iov offset len. (k, done 0);
  ikcp_input = λ k buf. (k, done 0);
  ikcp_recv = λ k size. (k, done 0, []);
  ikcp_peeksize = λ k. done 0;
  ikcp_waitsnd = λ k. 1;
  ikcp_update = λ k t. (k, byte_packets k);
  ikcp_check = λ k t. t;
  ikcp_current = λ k. 0;
  ikcp_current_update = λ k t. k;
}

byte_packets-AreWithin : (k : ℕ) → AreWithin k (byte_packets k)
byte_packets-AreWithin k = elim (Bool-cases (k == 0)) [
  | inl e ↦ rw e tt
  | inr e ↦ rw e (ground arith, tt)
]

toy_sets : (k m : ℕ) → ((if ltb m 50 then k else m) ≡ m) ⊎ ((if ltb m 50 then k else m) ≡ k)
toy_sets k m = ground arith

toy-HasMtu : HasMtu toy (λ k. k)
toy-HasMtu = record {
  created = λ conv user k e. ground arith;
  tuned = λ k a b c d. refl;
  set = toy_sets;
  sent = λ k buf. refl;
  sent_parts = λ k iov offset len. refl;
  got = λ k buf. refl;
  read = λ k size. refl;
  updated = λ k t. refl;
  timed = λ k t. refl;
  output = λ k t. byte_packets-AreWithin k;
}

-- The default configuration, after a send.
prepared : stream_config_prepare stream_config_init ≡ some stream_config_init
unfolding stream_config_prepare stream_config_init
prepared = refl

abbrev instance_of : ℕ
instance_of = (default_kcp_ops toy).setmss 1400 stream_config_init.kcp_mss

creates : (default_kcp_ops toy).create 1 2 3 ≡ some 1400
unfolding default_kcp_ops default_ikcp_create
creates = refl

in_use : InUse toy stream_config_init ((default_kcp_ops toy).send instance_of (5 ∷ [])).0
in_use = sends (made 1 2 3 1400 creates) (5 ∷ [])

in_use-AreSent_example :
    AreSent fresh 1
      ((default_kcp_ops toy).update ((default_kcp_ops toy).send instance_of (5 ∷ [])).0 9).1
in_use-AreSent_example =
    in_use-AreSent toy (λ k. k) toy-HasMtu stream_config_init stream_config_init
      ((default_kcp_ops toy).send instance_of (5 ∷ [])).0 prepared in_use fresh 1 9
