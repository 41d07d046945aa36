-- ===== src/ConnLife.antt =====
-- src/kcpmux_conn.c: creation, close and configuration of a connection.
pub mod Closing
mod Examples
use Prim.Native.Nat.{bit_or}
use kcp_mux.Base.{
  ℕ, ◌+◌, ◌-◌, ◌%◌, ◌==◌, ltb, if◌then◌else◌, Bool, true, false, not, ◌&&◌, ◌||◌, Option, none,
  some, List, [], ◌∷◌, length, take, u32, u64,
}
use kcp_mux.Types.{
  Ret, ok, err, Status, is_ok, ConnState, conn_is, addr_max_len, proto_ext_max_len, reason_normal,
}
use kcp_mux.Config.{ConnConfig, conn_config_prepare}
use kcp_mux.Timer.{TimerCb}
use kcp_mux.Htb.{Htb, all_nodes}
use kcp_mux.Htb
use kcp_mux.World.{
  from_option, M, ◌>>=◌, ◌>>◌, return, skip, when, ask, Host, get_conn, get_engine, mod_conn,
  mod_engine, emit, Conn, ConnCallbacks, conn_release, conn_close_notify,
}
use kcp_mux.World.Stats.{plus, conn_stats_zero}
use kcp_mux.Engine.{
  now, random_u64, operation_enter, operation_leave, queue_release, register_timer_node,
  unregister_timer_node,
}
use kcp_mux.Route.{add_conn, remove_conn}
use kcp_mux.Conn.{conn_refresh_timer, conn_set_state, conn_send_connect, conn_send_close}
use kcp_mux.Stream.{stream_close_internal}
use kcp_mux.StreamLife.{alloc_address, discard}

abbrev pub no_conn_callbacks : ConnCallbacks
no_conn_callbacks = record {
  conn_state_changed = false;
  conn_close_notify = false;
  stream_create_notify = false;
}

-- The start of a connection's own stream IDs: odd for an initiator, even and not 0 otherwise.
unfoldable pub first_stream_id : ℕ → ℕ → ℕ
first_stream_id is_initiator random =
    let even = random - random % 2 in
    if is_initiator == 0 then (if even == 0 then 2 else even) else bit_or random 1

-- The object that kcpmux_conn_new fills in.
unfoldable pub blank_conn : List ℕ → ℕ → ℕ → ConnConfig → ℕ → Htb → Conn
blank_conn peer_addr is_initiator id config next_stream_id stream_map = record {
  state = ConnState.init;
  is_initiator = is_initiator;
  internal_closed = false;
  in_engine_map = false;
  peer_stream_id_initialized = false;
  local_connection_id = id;
  peer_connection_id = 0;
  config = config;
  callbacks = no_conn_callbacks;
  user_data = 0;
  peer_proto_ext = [];
  self_proto_ext = [];
  peer_addr = peer_addr;
  stream_map = stream_map;
  stream_count = 0;
  next_stream_id = next_stream_id;
  latest_peer_stream_id = 0;
  last_recv_ts = 0;
  last_keepalive_ts = 0;
  keepalive_seq = 0;
  created_ts = 0;
  last_payload_ts = 0;
  last_ctrl_ts = 0;
  retry_count = 0;
  close_reason = 0;
  stats = conn_stats_zero;
}

-- The last part of kcpmux_conn_new, once the timer node is registered.
unfoldable pub start_conn : ℕ → M ℕ
unfolding now
start_conn c = do
  t ← now
  mod_conn c (λ x. record x {
    created_ts = t;
    last_recv_ts = t;
    last_keepalive_ts = t;
    last_payload_ts = t;
  })
  mod_engine (λ e. record e {
    stats = record (e.stats) { conn_created_total = plus e.stats.conn_created_total 1 };
  })
  return c

-- From the first stream ID on. The table takes two allocations.
unfoldable pub init_conn : ℕ → List ℕ → ℕ → ℕ → ConnConfig → M ℕ
unfolding random_u64 first_stream_id Htb.new blank_conn register_timer_node start_conn
init_conn c peer_addr is_initiator id config = do
  random ← random_u64
  table_ok ← ask Host.malloc_ok
  buckets_ok ← ask Host.malloc_ok
  from_option (Htb.new (table_ok && buckets_ok) 32) (discard c) (λ stream_map. do
    mod_conn c (λ x.
        blank_conn peer_addr is_initiator id config (first_stream_id is_initiator (u32 random))
          stream_map)
    ret ← register_timer_node c TimerCb.conn_timer_callback
    if is_ok ret then start_conn c else discard c)

-- kcpmux_conn_new. An ID that was taken is not given back when a later step fails.
unfoldable pub conn_new : List ℕ → Option ConnConfig → ℕ → M ℕ
unfolding alloc_address conn_config_prepare init_conn
conn_new peer_addr config is_initiator =
    if length peer_addr == 0 || ltb addr_max_len (length peer_addr) then return 0 else (do
      c ← alloc_address
      engine ← get_engine
      if c == 0 then return 0 else if engine.next_connection_id == 0 then discard c else (do
        mod_engine (λ e. record e { next_connection_id = u64 (e.next_connection_id + 1) })
        from_option
            (conn_config_prepare
              (elim config [ none ↦ engine.default_conn_config | some given ↦ given ]))
            (discard c)
            (λ prepared. init_conn c peer_addr is_initiator engine.next_connection_id prepared)))

-- The walk over the stream map; each stream leaves the map on its own.
unfoldable pub close_streams : List ℕ → ℕ → M (Unit {0})
unfolding stream_close_internal
close_streams [] reason w = (tt, w)
close_streams (s ∷ rest) reason w = close_streams rest reason (stream_close_internal s reason w).1

-- The last part of kcpmux_conn_close_internal, once the streams are closed; `conn` is what the
-- connection was before.
unfoldable pub end_conn : ℕ → ℕ → Conn → M (Unit {0})
unfolding queue_release
end_conn c reason conn = do
  mod_conn c (λ x. record x {
    state = if conn_is x.state ConnState.error then x.state else ConnState.closed;
  })
  when conn.callbacks.conn_close_notify (emit (conn_close_notify c reason))
  queue_release (conn_release c)

-- kcpmux_conn_close_internal
unfoldable pub conn_close_internal : ℕ → ℕ → M (Unit {0})
unfolding unregister_timer_node remove_conn close_streams end_conn
conn_close_internal c reason = do
  conn ← get_conn c
  when (not conn.internal_closed) (do
    mod_conn c (λ x. record x { internal_closed = true })
    unregister_timer_node c
    remove_conn c
    mod_engine (λ e. record e {
      stats = record (e.stats) { conn_closed_total = plus e.stats.conn_closed_total 1 };
    })
    close_streams (all_nodes conn.stream_map.hashtable) reason
    end_conn c reason conn)

-- The new connection of kcpmux_conn_connect. The extension is cut to KCPMUX_PROTO_EXT_MAX_LEN bytes.
unfoldable pub start_connect : ℕ → List ℕ → Option ConnCallbacks → ℕ → M (Unit {0})
unfolding add_conn now conn_refresh_timer conn_send_connect
start_connect c proto_ext callbacks user_data = do
  mod_conn c (λ x. record x {
    callbacks = elim callbacks [ none ↦ x.callbacks | some given ↦ given ];
    user_data = user_data;
    self_proto_ext = take proto_ext_max_len proto_ext;
  })
  add_conn c
  t ← now
  mod_conn c (λ x. record x { last_ctrl_ts = t; state = ConnState.connecting })
  conn_refresh_timer c t
  _ ← conn_send_connect c
  skip

-- What kcpmux_conn_connect does inside its operation.
unfoldable pub open_conn : List ℕ → Option ConnConfig → List ℕ → Option ConnCallbacks → ℕ → M ℕ
unfolding conn_new start_connect
open_conn peer_addr config proto_ext callbacks user_data = do
  mod_engine (λ e. record e {
    stats = record (e.stats) { api_conn_connect_calls = plus e.stats.api_conn_connect_calls 1 };
  })
  c ← conn_new peer_addr config 1
  if c == 0 then return 0 else (do start_connect c proto_ext callbacks user_data; return c)

unfoldable pub conn_connect : List ℕ → Option ConnConfig → List ℕ → Option ConnCallbacks → ℕ → M ℕ
unfolding operation_enter operation_leave open_conn
conn_connect peer_addr config proto_ext callbacks user_data = do
  operation_enter
  c ← open_conn peer_addr config proto_ext callbacks user_data
  operation_leave
  return c

-- The close message of a closing connection, which without retries is the end.
unfoldable pub send_first_close : ℕ → M (Unit {0})
unfolding conn_send_close conn_close_internal
send_first_close c = do
  _ ← conn_send_close c reason_normal
  conn ← get_conn c
  when (conn.config.close_retries == 0) (conn_close_internal c reason_normal)

abbrev pub close_started : ℕ → Conn → Conn
close_started t x = record x { last_ctrl_ts = t; close_reason = reason_normal; retry_count = 0 }

-- The first close of a connection that is not yet closing.
unfoldable pub begin_close : ℕ → M (Unit {0})
unfolding now conn_set_state send_first_close
begin_close c = do
  t ← now
  mod_conn c (close_started t)
  conn_set_state c ConnState.closing
  send_first_close c

abbrev pub is_closing : ConnState → Bool
is_closing s =
    conn_is s ConnState.closing || (conn_is s ConnState.closed || conn_is s ConnState.error)

-- What kcpmux_conn_close does inside its operation.
unfoldable pub close_conn : ℕ → M (Unit {0})
unfolding begin_close
close_conn c = do
  mod_engine (λ e. record e {
    stats = record (e.stats) { api_conn_close_calls = plus e.stats.api_conn_close_calls 1 };
  })
  conn ← get_conn c
  when (not (conn.internal_closed || is_closing conn.state)) (begin_close c)

unfoldable pub conn_close : ℕ → M Ret
unfolding operation_enter operation_leave close_conn
conn_close c =
    if c == 0
    then return (err Status.invalid_param)
    else (do operation_enter; close_conn c; operation_leave; return (ok 0))

unfoldable pub conn_set_config : ℕ → ConnConfig → M (Unit {0})
unfolding conn_config_prepare conn_refresh_timer now
conn_set_config c config = do
  conn ← get_conn c
  when (not (c == 0 || conn.internal_closed)) (
      from_option (conn_config_prepare config) skip (λ prepared. do
        mod_conn c (λ x. record x { config = prepared })
        t ← now
        conn_refresh_timer c t))

unfoldable pub conn_set_callbacks : ℕ → Option ConnCallbacks → ℕ → M (Unit {0})
conn_set_callbacks c callbacks user_data = do
  conn ← get_conn c
  when (not (c == 0 || conn.internal_closed)) (
      mod_conn c (λ x. record x {
        callbacks = elim callbacks [ none ↦ no_conn_callbacks | some given ↦ given ];
        user_data = user_data;
      }))
