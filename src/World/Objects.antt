-- ===== src/World/Objects.antt =====
-- The structures of src/kcpmux_engine.h, src/kcpmux_conn.h and src/kcpmux_stream.h. A stream map
-- holds addresses of streams and the engine's maps hold addresses of connections. Each `pending_release`
-- and each list link is the object itself; the timer nodes are in `Timers`.
use kcp_mux.Base.{ℕ, Bool, List}
use kcp_mux.Types.{ConnState, StreamState, ClosePhase}
use kcp_mux.Config.{EngineConfig, ConnConfig, StreamConfig}
use kcp_mux.Htb.{Htb}
use kcp_mux.World.Stats.{EngineStats, ConnStats, StreamStats}

-- Which callbacks are not NULL.
pub record ConnCallbacks : Type 0 where
  pub conn_state_changed : Bool
  pub conn_close_notify : Bool
  pub stream_create_notify : Bool

pub record StreamCallbacks : Type 0 where
  pub stream_state_changed : Bool
  pub stream_read_notify : Bool
  pub stream_write_notify : Bool
  pub stream_close_notify : Bool

pub record Conn : Type 0 where
  pub state : ConnState
  pub is_initiator : ℕ
  pub internal_closed : Bool
  pub in_engine_map : Bool
  pub peer_stream_id_initialized : Bool
  pub local_connection_id : ℕ
  pub peer_connection_id : ℕ
  pub config : ConnConfig
  pub callbacks : ConnCallbacks
  pub user_data : ℕ
  pub peer_proto_ext : List ℕ
  pub self_proto_ext : List ℕ
  pub peer_addr : List ℕ
  pub stream_map : Htb
  pub stream_count : ℕ
  pub next_stream_id : ℕ
  pub latest_peer_stream_id : ℕ
  pub last_recv_ts : ℕ
  pub last_keepalive_ts : ℕ
  pub keepalive_seq : ℕ
  pub created_ts : ℕ
  pub last_payload_ts : ℕ
  pub last_ctrl_ts : ℕ
  pub retry_count : ℕ
  pub close_reason : ℕ
  pub stats : ConnStats

-- `kcp` says that the KCP instance is not NULL; `pending_batch` that the batch link is in a list.
pub record Stream : Type 0 where
  pub stream_id : ℕ
  pub state : StreamState
  pub is_initiator : Bool
  pub internal_closed : Bool
  pub in_stream_map : Bool
  pub conn : ℕ
  pub config : StreamConfig
  pub callbacks : StreamCallbacks
  pub user_data : ℕ
  pub kcp : Bool
  pub last_ctrl_ts : ℕ
  pub retry_count : ℕ
  pub close_reason : ℕ
  pub close_phase : ClosePhase
  pub drain_started_ts : ℕ
  pub read_blocked : Bool
  pub write_blocked : Bool
  pub pending_count : ℕ
  pub read_block_start_ts : ℕ
  pub write_block_start_ts : ℕ
  pub stats : StreamStats

-- A queued release: its callback, and the object.
pub data Release : Type 0 where
  conn_release : ℕ → Release
  stream_free : ℕ → Release

-- The callback pointers that are checked for NULL after creation are `conn_connect_notify` and
-- `random_u64`; `sendv` is the optional KCP operation.
pub record Engine : Type 0 where
  pub conn_connect_notify : Bool
  pub random_u64 : Bool
  pub sendv : Bool
  pub config : EngineConfig
  pub default_conn_config : ConnConfig
  pub default_stream_config : StreamConfig
  pub conn_map : Htb
  pub handshake_map : Htb
  pub next_connection_id : ℕ
  pub conn_count : ℕ
  pub stats : EngineStats
  pub timer_node_count : ℕ
  pub external_timer_armed : Bool
  pub external_timer_deadline_ms : ℕ
  pub timer_dispatch_count : ℕ
  pub destroying : Bool
  pub pending_batch_streams : List ℕ
  pub operation_depth : ℕ
  pub pending_release_list : List Release
