-- ===== src/Run.antt =====
-- The calls of include/kcpmux/kcpmux.h that a host makes, one after another, as a step relation.
pub mod Operation
pub mod Due
pub mod Batches
pub mod Forward
pub mod Overdue
pub mod Closing
pub mod Deferred
mod Examples
use kcp_mux.Base.{ℕ, Bool, Option, List}
use kcp_mux.Types.{Iovec}
use kcp_mux.Config.{EngineConfig, ConnConfig, StreamConfig}
use kcp_mux.World.{World, ConnCallbacks, StreamCallbacks}
use kcp_mux.Transfer.{stream_send, stream_sendv, stream_finish_batch, stream_recv}
use kcp_mux.StreamLife.{stream_create, stream_close, stream_set_config, stream_set_callbacks}
use kcp_mux.ConnLife.{conn_connect, conn_close, conn_set_config, conn_set_callbacks}
use kcp_mux.Loop.{engine_set_config, engine_update, engine_input, engine_finish_batch}

-- A call of the host, with what it passes.
pub data Call : Type 0 where
  update_engine finish_batch : Call
  configure_engine : EngineConfig → Call
  input : List ℕ → List ℕ → Call
  connect : List ℕ → Option ConnConfig → List ℕ → Option ConnCallbacks → ℕ → Call
  close_conn : ℕ → Call
  configure_conn : ℕ → ConnConfig → Call
  set_conn_callbacks : ℕ → Option ConnCallbacks → ℕ → Call
  create_stream : ℕ → Option StreamConfig → Option StreamCallbacks → ℕ → Call
  close_stream : ℕ → Call
  configure_stream : ℕ → StreamConfig → Call
  set_stream_callbacks : ℕ → Option StreamCallbacks → ℕ → Call
  send : ℕ → List ℕ → Bool → Call
  sendv : ℕ → List Iovec → Bool → Call
  recv : ℕ → ℕ → Call
  finish_stream_batch : ℕ → Call

-- The world after a call.
unfoldable pub after : Call → World → World
unfolding engine_update engine_set_config engine_finish_batch engine_input conn_connect conn_close
    conn_set_config conn_set_callbacks stream_create stream_close stream_set_config
    stream_set_callbacks stream_send stream_sendv stream_recv stream_finish_batch
after Call.update_engine w = (engine_update w).1
after Call.finish_batch w = (engine_finish_batch w).1
after (Call.configure_engine config) w = (engine_set_config config w).1
after (Call.input buf peer_addr) w = (engine_input buf peer_addr w).1
after (Call.connect peer_addr config proto_ext callbacks user_data) w =
    (conn_connect peer_addr config proto_ext callbacks user_data w).1
after (Call.close_conn c) w = (conn_close c w).1
after (Call.configure_conn c config) w = (conn_set_config c config w).1
after (Call.set_conn_callbacks c callbacks user_data) w =
    (conn_set_callbacks c callbacks user_data w).1
after (Call.create_stream c config callbacks user_data) w =
    (stream_create c config callbacks user_data w).1
after (Call.close_stream s) w = (stream_close s w).1
after (Call.configure_stream s config) w = (stream_set_config s config w).1
after (Call.set_stream_callbacks s callbacks user_data) w =
    (stream_set_callbacks s callbacks user_data w).1
after (Call.send s buf flush) w = (stream_send s buf flush w).1
after (Call.sendv s iov flush) w = (stream_sendv s iov flush w).1
after (Call.recv s size) w = (stream_recv s size w).1
after (Call.finish_stream_batch s) w = (stream_finish_batch s w).1

-- The worlds that calls lead to, one after another.
pub data Reach (w : World) : World → Type 0 where
  here : Reach w w
  next : {v : World} → Reach w v → (call : Call) → Reach w (after call v)
