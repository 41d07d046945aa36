-- ===== src/Query.antt =====
-- The queries of src/kcpmux_conn.c, src/kcpmux_stream.c and src/kcpmux_engine.c. A handle is the
-- address of its object, 0 for NULL, and so is the handle that a query answers; `none` is a NULL
-- extension. The statistics are copied into memory of the caller that is not NULL.
use kcp_mux.Base.{ℕ, ◌==◌, Bool, false, not, if◌then◌else◌, List, length, Option, none, some}
use kcp_mux.Types.{ConnState, StreamState}
use kcp_mux.World.{World}
use kcp_mux.World.Stats.{EngineStats, ConnStats, StreamStats, conn_stats_zero, stream_stats_zero}

unfoldable pub conn_get_id : ℕ → World → ℕ
conn_get_id c w = if c == 0 then 0 else (w.conns c).local_connection_id

unfoldable pub conn_get_peer_id : ℕ → World → ℕ
conn_get_peer_id c w = if c == 0 then 0 else (w.conns c).peer_connection_id

unfoldable pub conn_get_state : ℕ → World → ConnState
conn_get_state c w = if c == 0 then ConnState.error else (w.conns c).state

-- Whether the answer is the engine, not NULL.
unfoldable pub conn_get_engine : ℕ → World → Bool
conn_get_engine c w = not (c == 0)

unfoldable pub conn_get_peer_addr : ℕ → World → Option (List ℕ)
conn_get_peer_addr c w = if c == 0 then none else some (w.conns c).peer_addr

unfoldable pub conn_get_user_data : ℕ → World → ℕ
conn_get_user_data c w = if c == 0 then 0 else (w.conns c).user_data

abbrev ext_or_null : List ℕ → Option (List ℕ)
ext_or_null ext = if length ext == 0 then none else some ext

unfoldable pub conn_get_peer_proto_ext : ℕ → World → Option (List ℕ)
conn_get_peer_proto_ext c w = if c == 0 then none else ext_or_null (w.conns c).peer_proto_ext

unfoldable pub conn_get_self_proto_ext : ℕ → World → Option (List ℕ)
conn_get_self_proto_ext c w = if c == 0 then none else ext_or_null (w.conns c).self_proto_ext

unfoldable pub conn_get_stats : ℕ → World → ConnStats
conn_get_stats c w = if c == 0 then conn_stats_zero else (w.conns c).stats

-- kcpmux_stream_id
unfoldable pub stream_get_id : ℕ → World → ℕ
stream_get_id s w = if s == 0 then 0 else (w.streams s).stream_id

unfoldable pub stream_get_state : ℕ → World → StreamState
stream_get_state s w = if s == 0 then StreamState.error else (w.streams s).state

-- Whether the instance is not NULL.
unfoldable pub stream_get_kcp : ℕ → World → Bool
stream_get_kcp s w = if s == 0 then false else (w.streams s).kcp

unfoldable pub stream_get_conn : ℕ → World → ℕ
stream_get_conn s w = if s == 0 then 0 else (w.streams s).conn

unfoldable pub stream_get_user_data : ℕ → World → ℕ
stream_get_user_data s w = if s == 0 then 0 else (w.streams s).user_data

unfoldable pub stream_get_stats : ℕ → World → StreamStats
stream_get_stats s w = if s == 0 then stream_stats_zero else (w.streams s).stats

-- The engine is not NULL.
unfoldable pub engine_get_stats : World → EngineStats
engine_get_stats w = w.engine.stats
