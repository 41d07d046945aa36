-- ===== src/Protocol/Answers.antt =====
-- What kcpmux_protocol_input in src/kcpmux_protocol.c does with a CONNECT that it can read: the
-- outcomes for a known and for an unknown initiator.
use kcp_mux.Base.{
  ℕ, ◌≡◌, ◌≢◌, ◌≤◌, ◌<◌, ◌==◌, ◌⊎◌, ◌&&◌, Bool, if◌then◌else◌, refl, sym, subst, ap, ◌∙◌, ltb,
  arith, List, [], length, true, false, none, u8, update, Bool-cases, inl, inr,
}
use kcp_mux.Types.{
  Ret, ok, err, Status, ConnState, conn_is, proto_ext_max_len, ack_ok, ack_error, reason_rejected,
}
use kcp_mux.World.{World, M}
use kcp_mux.World.Stats.{plus}
use kcp_mux.Route.{add_conn, get_passive_conn}
use kcp_mux.Conn.{note_receive, conn_set_state, conn_send_connect_ack}
use kcp_mux.ConnLife.{conn_new, conn_close_internal, no_conn_callbacks}
use kcp_mux.ConnMessages.{
  repeat_connect, accept_connect, count_received, notify_connect, answer_connect,
}

-- The connection `c` counted a packet of `size` bytes.
abbrev pub packet_counted : World → ℕ → ℕ → World
packet_counted w c size = record w {
  conns = update w.conns c (record (w.conns c) {
    stats = record ((w.conns c).stats) {
      rx_packets = plus (w.conns c).stats.rx_packets 1;
      rx_bytes = plus (w.conns c).stats.rx_bytes size;
    };
  });
}

-- The connection that is created for an unknown initiator, once it has the initiator's ID and
-- extension, is noted, and is in the maps, without an extension of its own.
abbrev pub introduced : List ℕ → ℕ → List ℕ → ℕ → World → World
introduced peer_addr source_id ext t w =
    let c = (conn_new peer_addr none 0 w).0 in
    let created = (conn_new peer_addr none 0 w).1 in
    let named : World = record created {
      conns =
          update created.conns c
            (record (created.conns c) { peer_connection_id = source_id; peer_proto_ext = ext });
    } in
    let added = (add_conn c (note_receive c t false named).1).1 in
    record added { conns = update added.conns c (record (added.conns c) { self_proto_ext = [] }) }

-- A new connection after it is rejected with a result: its own extension is dropped, the
-- rejection is counted, the result is sent, and it is closed without callbacks.
abbrev pub turned_away : World → ℕ → ℕ → World
turned_away w c result =
    let counted : World = record w {
      conns = update w.conns c (record (w.conns c) { self_proto_ext = [] });
      engine = record (w.engine) {
        stats = record (w.engine.stats) {
          conn_rejected_total = plus w.engine.stats.conn_rejected_total 1;
        };
      };
    } in
    let told = (conn_send_connect_ack c (u8 result) counted).1 in
    let silent : World = record told {
      conns =
          update told.conns c
            (record (told.conns c) { callbacks = no_conn_callbacks; user_data = 0 });
    } in
    (conn_close_internal c reason_rejected silent).1

equal_cases : (a b : ℕ) → (a ≡ b) ⊎ (a ≢ b)
equal_cases a b = elim (Bool-cases (a == b)) [
  | inl e ↦ inl (ground arith)
  | inr e ↦ inr (ground arith)
]

fits_cases : (a b : ℕ) → (a ≤ b) ⊎ (b < a)
fits_cases a b = elim (Bool-cases (ltb b a)) [
  | inl e ↦ inr (ground arith)
  | inr e ↦ inl (ground arith)
]

pub pick_first :
    {A : Type 0} (b : Bool) (f g : M A) (w : World) → b ≡ true → (if b then f else g) w ≡ f w
pick_first b f g w e = rw e refl

pub pick_second :
    {A : Type 0} (b : Bool) (f g : M A) (w : World) → b ≡ false → (if b then f else g) w ≡ g w
pick_second b f g w e = rw e refl

module _ (c r : ℕ) (w : World) where
  answer_accepted :
      r ≡ ack_ok
      → length (w.conns c).self_proto_ext ≤ proto_ext_max_len
      → (answer_connect c r w).1
        ≡ (conn_send_connect_ack c ack_ok (conn_set_state c ConnState.connected w).1).1
  unfolding answer_connect
  answer_accepted e l =
      let short : (r == ack_ok && ltb proto_ext_max_len (length (w.conns c).self_proto_ext))
          ≡ false =
        ground arith in
      let good : (r == ack_ok) ≡ true = ground arith in rw (short, good) refl

  answer_rejected : r ≢ ack_ok → (answer_connect c r w).1 ≡ turned_away w c r
  unfolding answer_connect
  answer_rejected e =
      let short : (r == ack_ok && ltb proto_ext_max_len (length (w.conns c).self_proto_ext))
          ≡ false =
        ground arith in
      let bad : (r == ack_ok) ≡ false = ground arith in rw (short, bad) refl

  answer_too_long :
      r ≡ ack_ok
      → proto_ext_max_len < length (w.conns c).self_proto_ext
      → (answer_connect c r w).1 ≡ turned_away w c ack_error
  unfolding answer_connect
  answer_too_long e l =
      let long : (r == ack_ok && ltb proto_ext_max_len (length (w.conns c).self_proto_ext)) ≡ true =
        ground arith in
      rw long refl

module _ (peer_addr : List ℕ) (source_id : ℕ) (ext : List ℕ) (size t : ℕ) (w : World) where
  abbrev pub created_conn : ℕ
  created_conn = (conn_new peer_addr none 0 w).0

  -- The result of `conn_connect_notify`, and the world after it.
  abbrev pub host_answer : ℕ × World
  host_answer = notify_connect created_conn (introduced peer_addr source_id ext t w)

  abbrev pub answered_ext : List ℕ
  answered_ext = (host_answer.1.conns created_conn).self_proto_ext

  -- The result and the world that a CONNECT leads to.
  pub data Routed : Ret × World → Type 0 where
    not_connected :
        (c : ℕ)
        → get_passive_conn w peer_addr source_id ≡ c
        → c ≢ 0
        → conn_is (w.conns c).state ConnState.connected ≡ false
        → Routed (err Status.state, w)
    answered_again :
        (c : ℕ)
        → get_passive_conn w peer_addr source_id ≡ c
        → c ≢ 0
        → conn_is (w.conns c).state ConnState.connected ≡ true
        → Routed (
          ok 0,
          (conn_send_connect_ack c ack_ok (note_receive c t false (packet_counted w c size)).1).1,
        )
    out_of_memory :
        get_passive_conn w peer_addr source_id ≡ 0
        → created_conn ≡ 0
        → Routed (err Status.oom, (conn_new peer_addr none 0 w).1)
    accepted :
        get_passive_conn w peer_addr source_id ≡ 0
        → created_conn ≢ 0
        → host_answer.0 ≡ ack_ok
        → length answered_ext ≤ proto_ext_max_len
        → Routed (
          ok 0,
          (conn_send_connect_ack created_conn ack_ok
              (conn_set_state created_conn ConnState.connected host_answer.1).1).1,
        )
    rejected :
        get_passive_conn w peer_addr source_id ≡ 0
        → created_conn ≢ 0
        → host_answer.0 ≢ ack_ok
        → Routed (ok 0, turned_away host_answer.1 created_conn host_answer.0)
    too_long :
        get_passive_conn w peer_addr source_id ≡ 0
        → created_conn ≢ 0
        → host_answer.0 ≡ ack_ok
        → proto_ext_max_len < length answered_ext
        → Routed (ok 0, turned_away host_answer.1 created_conn ack_error)

  pub repeat_connect-Routed :
      (c : ℕ)
      → get_passive_conn w peer_addr source_id ≡ c
      → c ≢ 0
      → Routed (repeat_connect c size t w)
  unfolding repeat_connect count_received
  repeat_connect-Routed c e pos =
      elim (Bool-cases (conn_is (w.conns c).state ConnState.connected)) [
        | inl b ↦ rw b (answered_again c e pos b)
        | inr b ↦ rw b (not_connected c e pos b)
      ]

  accept_created :
      created_conn ≢ 0
      → accept_connect peer_addr source_id ext t w
        ≡ (ok 0, (answer_connect created_conn host_answer.0 host_answer.1).1)
  unfolding accept_connect
  accept_created pos = pick_second (created_conn == 0) _ _ _ (ground arith)

  accept_failed :
      created_conn ≡ 0
      → accept_connect peer_addr source_id ext t w
        ≡ (err Status.oom, (conn_new peer_addr none 0 w).1)
  unfolding accept_connect
  accept_failed z = pick_first (created_conn == 0) _ _ _ (ground arith)

  answered-Routed :
      (v : World)
      → (answer_connect created_conn host_answer.0 host_answer.1).1 ≡ v
      → Routed (ok 0, v)
      → created_conn ≢ 0
      → Routed (accept_connect peer_addr source_id ext t w)
  answered-Routed v e routed pos =
      subst Routed (sym (accept_created pos ∙ ap (λ x. (ok 0, x)) e)) routed

  pub accept_connect-Routed :
      get_passive_conn w peer_addr source_id ≡ 0
      → Routed (accept_connect peer_addr source_id ext t w)
  accept_connect-Routed e = elim (equal_cases created_conn 0) [
    | inl z ↦ subst Routed (sym (accept_failed z)) (out_of_memory e z)
    | inr pos ↦ elim (equal_cases host_answer.0 ack_ok) [
      | inl r ↦ elim (fits_cases (length answered_ext) proto_ext_max_len) [
        | inl l ↦
            answered-Routed _ (answer_accepted created_conn host_answer.0 host_answer.1 r l)
              (accepted e pos r l) pos
        | inr l ↦
            answered-Routed _ (answer_too_long created_conn host_answer.0 host_answer.1 r l)
              (too_long e pos r l) pos
      ]
      | inr r ↦
          answered-Routed _ (answer_rejected created_conn host_answer.0 host_answer.1 r)
            (rejected e pos r) pos
    ]
  ]
