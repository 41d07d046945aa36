-- ===== src/World/Monad.antt =====
-- The state, the host that answers calls, and state passing.
-- What is outside the program (the host's callbacks, the allocator, the KCP operations) answers by
-- functions of the number of calls made so far, so a call may answer anything at any time.
use kcp_mux.Base.{ℕ, suc, Bool, List, ◌∷◌, Option, none, some, if◌then◌else◌, update}
use kcp_mux.Types.{Ret, Status, ConnState, StreamState, Iovec}
use kcp_mux.Config.{ConnConfig, StreamConfig}
use kcp_mux.Timer.{Timers}
use kcp_mux.World.Objects.{ConnCallbacks, StreamCallbacks, Conn, Stream, Engine}

-- An `int` of a KCP operation: not negative, or -(n + 1).
pub data KcpRet : Type 0 where
  done : ℕ → KcpRet
  failed : ℕ → KcpRet

-- What `conn_connect_notify` does with a remote connection: its result, the extension that it
-- writes, and what it sets through kcpmux_conn_set_config and kcpmux_conn_set_callbacks.
pub record ConnectReply : Type 0 where
  pub result : ℕ
  pub resp_proto_ext : List ℕ
  pub config : Option ConnConfig
  pub callbacks : Option (ConnCallbacks × ℕ)

-- What `stream_create_notify` does with a remote stream.
pub record CreateReply : Type 0 where
  pub accepted : ℕ
  pub config : Option StreamConfig
  pub callbacks : Option (StreamCallbacks × ℕ)

-- `kcp_output` lists the packets that the KCP operation hands to the output callback.
pub record Host : Type 0 where
  pub monotonic_time_ms : ℕ → ℕ
  pub random_bits : ℕ → ℕ
  pub malloc_ok : ℕ → Bool
  pub write_socketv : ℕ → Bool
  pub connect_reply : ℕ → ConnectReply
  pub create_reply : ℕ → CreateReply
  pub kcp_create : ℕ → Bool
  pub kcp_send : ℕ → KcpRet
  pub kcp_input : ℕ → KcpRet
  pub kcp_recv : ℕ → KcpRet
  pub kcp_peeksize : ℕ → KcpRet
  pub kcp_waitsnd : ℕ → ℕ
  pub kcp_check : ℕ → ℕ
  pub kcp_output : ℕ → List (List ℕ)

-- The calls that the program makes to the outside and that pass data there, newest first.
pub data Event : Type 0 where
  set_timer : ℕ → Event
  wrote : List Iovec → List ℕ → Event
  conn_state_changed : ℕ → ConnState → ConnState → Event
  conn_close_notify : ℕ → ℕ → Event
  conn_connect_notify : ℕ → Event
  stream_create_notify : ℕ → Event
  stream_state_changed : ℕ → StreamState → StreamState → Event
  stream_read_notify : ℕ → Event
  stream_write_notify : ℕ → Event
  stream_close_notify : ℕ → ℕ → Event
  kcp_created : ℕ → ℕ → Event
  kcp_released : ℕ → Event
  kcp_setmss : ℕ → ℕ → Event
  kcp_sent : ℕ → List ℕ → Event
  kcp_sent_vectored : ℕ → List Iovec → ℕ → ℕ → Event
  kcp_received : ℕ → List ℕ → Event
  kcp_read : ℕ → ℕ → Event
  kcp_updated : ℕ → ℕ → Event
  kcp_current_updated : ℕ → ℕ → Event
  freed : ℕ → Event

pub record World : Type 0 where
  pub host : Host
  pub calls : ℕ
  pub trace : List Event
  pub next_address : ℕ
  pub engine : Engine
  pub timers : Timers
  pub conns : ℕ → Conn
  pub streams : ℕ → Stream

abbrev pub M : Type 0 → Type 0
M A = World → A × World

infixl 5 ◌>>=◌ ◌>>◌
abbrev pub ◌>>=◌ : {A B : Type 0} → M A → (A → M B) → M B
◌>>=◌ m f w = let r = m w in f r.0 r.1

abbrev pub ◌>>◌ : {A B : Type 0} → M A → M B → M B
◌>>◌ m k w = k (m w).1

abbrev pub return : {A : Type 0} → A → M A
return a w = (a, w)

abbrev pub skip : M (Unit {0})
skip w = (tt, w)

abbrev pub when : Bool → M (Unit {0}) → M (Unit {0})
when b m = if b then m else skip

-- The branches on a result.
abbrev pub from_option : {A X : Type 0} → Option X → M A → (X → M A) → M A
from_option none m f = m
from_option (some x) m f = f x

abbrev pub from_kcp : {A : Type 0} → KcpRet → (ℕ → M A) → (ℕ → M A) → M A
from_kcp (failed n) f g = f n
from_kcp (done n) f g = g n

abbrev pub from_ret : {A : Type 0} → Ret → (Status → M A) → (ℕ → M A) → M A
from_ret (Ret.err e) f g = f e
from_ret (Ret.ok n) f g = g n

-- Reads.
abbrev pub gets : {A : Type 0} → (World → A) → M A
gets f w = (f w, w)

abbrev pub get_conn : ℕ → M Conn
get_conn c w = (w.conns c, w)

abbrev pub get_stream : ℕ → M Stream
get_stream s w = (w.streams s, w)

abbrev pub get_engine : M Engine
get_engine w = (w.engine, w)

-- Writes.
abbrev pub mod_engine : (Engine → Engine) → M (Unit {0})
mod_engine f w = (tt, record w { engine = f w.engine })

abbrev pub mod_conn : ℕ → (Conn → Conn) → M (Unit {0})
mod_conn c f w = (tt, record w { conns = update w.conns c (f (w.conns c)) })

abbrev pub mod_stream : ℕ → (Stream → Stream) → M (Unit {0})
mod_stream s f w = (tt, record w { streams = update w.streams s (f (w.streams s)) })

abbrev pub mod_timers : (Timers → Timers) → M (Unit {0})
mod_timers f w = (tt, record w { timers = f w.timers })

abbrev pub emit : Event → M (Unit {0})
emit e w = (tt, record w { trace = e ∷ w.trace })

-- A call to the outside, answered by the host.
abbrev pub ask : {A : Type 0} → (Host → ℕ → A) → M A
ask f w = (f w.host w.calls, record w { calls = suc w.calls })
