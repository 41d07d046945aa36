-- ===== src/Life/Forward.antt =====
-- The order in which the states of src/kcpmux_conn.c and src/kcpmux_stream.c come.
use kcp_mux.Base.{ℕ, ◌≤◌, ◌≡◌, ◌∙◌, refl, arith, true}
use kcp_mux.Types.{ConnState, StreamState, ClosePhase}
use kcp_mux.World.{Conn, Stream}
use kcp_mux.Life.Relation.{Rel, IsQuietConn, IsQuietStream}

abbrev pub conn_stage : ConnState → ℕ
conn_stage ConnState.init = 0
conn_stage ConnState.connecting = 1
conn_stage ConnState.connected = 2
conn_stage ConnState.closing = 3
conn_stage ConnState.closed = 4
conn_stage ConnState.error = 4

-- Of a closing stream, by its close phase.
abbrev pub phase_stage : ClosePhase → ℕ
phase_stage ClosePhase.none = 1
phase_stage ClosePhase.local_drain = 2
phase_stage ClosePhase.remote_drain = 2
phase_stage ClosePhase.wait_ack = 3
phase_stage ClosePhase.finalize = 4

abbrev pub stream_stage : StreamState → ClosePhase → ℕ
stream_stage StreamState.open_state phase = 0
stream_stage StreamState.closing phase = phase_stage phase
stream_stage StreamState.closed phase = 5
stream_stage StreamState.error phase = 5

-- The connection went on, or stayed: no state comes back, CLOSED and ERROR are final, a closed
-- connection stays closed, and what names it stays.
pub record IsForwardConn (x y : Conn) : Type 0 where
  pub stage : conn_stage x.state ≤ conn_stage y.state
  pub final : conn_stage x.state ≡ 4 → y.state ≡ x.state
  pub closed : x.internal_closed ≡ true → y.internal_closed ≡ true
  pub id : y.local_connection_id ≡ x.local_connection_id
  pub initiator : y.is_initiator ≡ x.is_initiator
  pub addr : y.peer_addr ≡ x.peer_addr

pub record IsForwardStream (x y : Stream) : Type 0 where
  pub stage : stream_stage x.state x.close_phase ≤ stream_stage y.state y.close_phase
  pub final : stream_stage x.state x.close_phase ≡ 5 → y.state ≡ x.state
  pub closed : x.internal_closed ≡ true → y.internal_closed ≡ true
  pub id : y.stream_id ≡ x.stream_id
  pub initiator : y.is_initiator ≡ x.is_initiator
  pub conn : y.conn ≡ x.conn

pub quiet-IsForwardConn : (x y : Conn) → IsQuietConn x y → IsForwardConn x y
quiet-IsForwardConn x y q = record {
  stage = rw q.state (omega arith);
  final = λ e. q.state;
  closed = λ e. q.closed ∙ e;
  id = q.id;
  initiator = q.initiator;
  addr = q.addr;
}

pub quiet-IsForwardStream : (x y : Stream) → IsQuietStream x y → IsForwardStream x y
quiet-IsForwardStream x y q = record {
  stage = rw (q.state, q.phase) (omega arith);
  final = λ e. q.state;
  closed = λ e. q.closed ∙ e;
  id = q.id;
  initiator = q.initiator;
  conn = q.conn;
}

pub IsForwardConn-trans : (x y z : Conn) → IsForwardConn x y → IsForwardConn y z → IsForwardConn x z
IsForwardConn-trans x y z p q = record {
  stage = omega (arith, p.stage, q.stage);
  final = λ e. q.final (rw (p.final e) e) ∙ p.final e;
  closed = λ e. q.closed (p.closed e);
  id = q.id ∙ p.id;
  initiator = q.initiator ∙ p.initiator;
  addr = q.addr ∙ p.addr;
}

stream_final :
    (s t : StreamState) (p q : ClosePhase) → stream_stage s p ≡ 5 → t ≡ s → stream_stage t q ≡ 5
stream_final StreamState.closed t p q h e = rw e refl
stream_final StreamState.error t p q h e = rw e refl
stream_final StreamState.open_state t p q h e = absurd (omega arith)
stream_final StreamState.closing t p q h e = ground arith

pub IsForwardStream-trans :
    (x y z : Stream) → IsForwardStream x y → IsForwardStream y z → IsForwardStream x z
IsForwardStream-trans x y z p q = record {
  stage = omega (arith, p.stage, q.stage);
  final = λ e.
      q.final (stream_final x.state y.state x.close_phase y.close_phase e (p.final e)) ∙ p.final e;
  closed = λ e. q.closed (p.closed e);
  id = q.id ∙ p.id;
  initiator = q.initiator ∙ p.initiator;
  conn = q.conn ∙ p.conn;
}

-- No state changes at all.
abbrev pub quiet : Rel
quiet = record {
  OfConn = IsQuietConn;
  OfStream = IsQuietStream;
  quiet_conn = λ x y q. q;
  quiet_stream = λ x y q. q;
  trans_conn = λ x y z p q. record {
    state = q.state ∙ p.state;
    closed = q.closed ∙ p.closed;
    id = q.id ∙ p.id;
    initiator = q.initiator ∙ p.initiator;
    addr = q.addr ∙ p.addr;
    retries = q.retries ∙ p.retries;
  };
  trans_stream = λ x y z p q. record {
    state = q.state ∙ p.state;
    phase = q.phase ∙ p.phase;
    closed = q.closed ∙ p.closed;
    id = q.id ∙ p.id;
    initiator = q.initiator ∙ p.initiator;
    conn = q.conn ∙ p.conn;
    retries = q.retries ∙ p.retries;
  };
}

-- Every change of a state goes forward.
abbrev pub forward : Rel
forward = record {
  OfConn = IsForwardConn;
  OfStream = IsForwardStream;
  quiet_conn = quiet-IsForwardConn;
  quiet_stream = quiet-IsForwardStream;
  trans_conn = IsForwardConn-trans;
  trans_stream = IsForwardStream-trans;
}
