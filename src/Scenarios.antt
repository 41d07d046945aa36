-- ===== src/Scenarios.antt =====
-- A client and a server engine on small inputs: a handshake, a stream, a close.
use kcp_mux.Base.{ℕ, ◌+◌, ◌≡◌, refl, true, false, [], ◌∷◌, Option, none, some, List}
use kcp_mux.World.{World, M, Event, wrote, Host, ConnectReply, done}
use kcp_mux.Htb.{Htb}
use kcp_mux.Config.{conn_config_init, stream_config_init}
use kcp_mux.ConnMessages.{accept_connect, notify_connect, answer_connect}
use kcp_mux.Protocol.{dispatch}
use kcp_mux.Loop.{
  draw_connection_id, input_packet, blank_world, Tables, engine_create, engine_input,
}
use kcp_mux.Vectored.Bytes.{flat}
use mathlib.Core.List.{foldr}
use kcp_mux.Hash.{hash32, memory_bytes}
use kcp_mux.Types.{ConnState}
use kcp_mux.ConnLife.{conn_connect}

abbrev pub accept : ConnectReply
accept = record {
  result = 0;
  resp_proto_ext = [];
  config = none;
  callbacks = some (
    record { conn_state_changed = true; conn_close_notify = true; stream_create_notify = true },
    7,
  );
}

-- A host whose clock ticks at every call, and whose calls all succeed.
abbrev pub calm : Host
calm = record {
  monotonic_time_ms = λ n. 1000 + n;
  random_bits = λ n. 41;
  malloc_ok = λ n. true;
  write_socketv = λ n. true;
  connect_reply = λ n. accept;
  create_reply = λ n. record { accepted = 0; config = none; callbacks = none };
  kcp_create = λ n. true;
  kcp_send = λ n. done 0;
  kcp_input = λ n. done 0;
  kcp_recv = λ n. done 0;
  kcp_peeksize = λ n. done 0;
  kcp_waitsnd = λ n. 0;
  kcp_check = λ n. 5000;
  kcp_output = λ n. [];
}

abbrev pub tables : Tables
tables = record {
  set_timer = true;
  write_socketv = true;
  monotonic_time_ms = true;
  conn_connect_notify = true;
  random_u64 = true;
  kcp_ops = true;
  sendv = false;
}

abbrev pub started : Option World
started = engine_create calm tables none none none true

-- An engine before its first operation.
abbrev pub fresh : World
fresh =
    let table : Htb = record { hashtable = [] ∷ []; num = 0 } in
    blank_world calm tables conn_config_init stream_config_init table table

-- The engine with its first connection ID.
abbrev pub ready : World
ready = (draw_connection_id fresh).1

-- The world after a step, if there is one before it.
abbrev pub then_run : {A : Type 0} → M A → Option World → Option World
then_run m none = none
then_run m (some w) = some (m w).1

abbrev pub written : Event → List ℕ → List ℕ
written (wrote iov addr) rest = flat iov
written _ rest = rest

-- The packet written last.
abbrev pub last_packet : Option World → List ℕ
last_packet none = []
last_packet (some w) = foldr written [] w.trace

abbrev pub state_of : ℕ → Option World → Option ConnState
state_of c none = none
state_of c (some w) = some (w.conns c).state

abbrev pub client_addr : List ℕ
client_addr = 10 ∷ 0 ∷ []

abbrev pub server_addr : List ℕ
server_addr = 10 ∷ 1 ∷ []

-- The client asks, the server answers, and the client reads the answer. An object's address is
-- the first one of its engine.
abbrev pub asking : Option World
asking = then_run (conn_connect server_addr none (1 ∷ 2 ∷ []) none 0) started

abbrev pub serving : Option World
serving = then_run (engine_input (last_packet asking) client_addr) started

abbrev pub connected : Option World
connected = then_run (engine_input (last_packet serving) server_addr) asking

client_asks : state_of 1 asking ≡ some ConnState.connecting
unfolding engine_create conn_connect
client_asks = refl

server_accepts : state_of 1 serving ≡ some ConnState.connected
unfolding engine_create conn_connect engine_input input_packet hash32 memory_bytes accept_connect
    notify_connect answer_connect dispatch
server_accepts = refl

client_connected : state_of 1 connected ≡ some ConnState.connected
unfolding engine_create conn_connect engine_input input_packet hash32 memory_bytes accept_connect
    notify_connect answer_connect dispatch
client_connected = refl
