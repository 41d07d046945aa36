-- ===== src/Loop.antt =====
-- src/kcpmux_engine.c: the entry points that drive the engine, and its creation and destruction.
use kcp_mux.Base.{
  ℕ, zero, suc, ◌%◌, ◌^◌, ◌==◌, if◌then◌else◌, Bool, true, false, not, ◌&&◌, ◌||◌, Option, none,
  some, List, [], ◌∷◌, length,
}
use kcp_mux.Types.{Ret, err, Status, reason_normal}
use kcp_mux.Config.{
  EngineConfig, engine_config_init, ConnConfig, StreamConfig, conn_config_init, stream_config_init,
  conn_config_prepare, stream_config_prepare,
}
use kcp_mux.Timer.{Timers, TimerState, TimerCb, collect_due, set_timer_state, manager_init}
use kcp_mux.Htb.{Htb, all_nodes, flush}
use kcp_mux.Htb
use kcp_mux.World.{
  World, M, ◌>>=◌, ◌>>◌, return, skip, gets, Host, get_engine, mod_engine, mod_timers,
}
use kcp_mux.World.Stats.{plus, engine_stats_zero}
use kcp_mux.Engine.{now, random_u64, operation_enter, operation_leave}
use kcp_mux.Transfer.{finish_batch_at}
use kcp_mux.StreamUpdate.{stream_update}
use kcp_mux.StreamLife.{blank_stream}
use kcp_mux.ConnUpdate.{conn_update}
use kcp_mux.ConnLife.{conn_close_internal, blank_conn}
use kcp_mux.Protocol.{protocol_input}

-- The callback of a node: kcpmux_conn_timer_callback or kcpmux_stream_timer_callback.
unfoldable pub timeout : Option TimerCb → ℕ → ℕ → M (Unit {0})
unfolding conn_update stream_update
timeout none node now_ms = skip
timeout (some TimerCb.conn_timer_callback) node now_ms = conn_update node now_ms
timeout (some TimerCb.stream_timer_callback) node now_ms = stream_update node now_ms

abbrev pub after_timeout : TimerState → Timers → ℕ → Timers
after_timeout TimerState.running t node = set_timer_state t node TimerState.idle
after_timeout _ t node = t

-- A round of the loop of kcpmux_engine_update, for the first due node.
unfoldable pub run_timer : ℕ → ℕ → M (Unit {0})
unfolding timeout
run_timer node now_ms = do
  mod_timers (λ t. set_timer_state t node TimerState.running)
  mod_engine (λ e. record e { timer_dispatch_count = plus e.timer_dispatch_count 1 })
  cb ← gets (λ w. (w.timers.nodes node).timeout_cb)
  timeout cb node now_ms
  mod_timers (λ t. after_timeout (t.nodes node).state t node)

-- Nodes only leave the list of due nodes, so as many rounds as it has nodes are enough.
unfoldable pub run_due : ℕ → ℕ → M (Unit {0})
unfolding run_timer
run_due zero now_ms w = (tt, w)
run_due (suc fuel) now_ms w = elim w.timers.due [
  | [] ↦ (tt, w)
  | node ∷ rest ↦
      run_due fuel now_ms
        (run_timer node now_ms (record w { timers = record (w.timers) { due = rest } })).1
]

unfoldable pub engine_set_config : EngineConfig → M (Unit {0})
engine_set_config config = mod_engine (λ e. record e { config = config })

unfoldable pub engine_update : M (Unit {0})
unfolding now collect_due operation_enter operation_leave run_due
engine_update = do
  t ← now
  mod_engine (λ e. record e { external_timer_armed = false })
  mod_timers (λ x. collect_due x t)
  operation_enter
  due ← gets (λ w. length w.timers.due)
  run_due due t
  operation_leave

-- What kcpmux_engine_input does inside its operation.
unfoldable pub input_packet : List ℕ → List ℕ → M Ret
unfolding now protocol_input
input_packet buf peer_addr = do
  mod_engine (λ e. record e {
    stats = record (e.stats) {
      rx_packets = plus e.stats.rx_packets 1;
      rx_bytes = plus e.stats.rx_bytes (length buf);
    };
  })
  t ← now
  protocol_input buf peer_addr t

unfoldable pub engine_input : List ℕ → List ℕ → M Ret
unfolding operation_enter operation_leave
engine_input buf peer_addr =
    if length buf == 0
    then return (err Status.invalid_param)
    else (do operation_enter; ret ← input_packet buf peer_addr; operation_leave; return ret)

-- A stream leaves the list before its batch is finished, so the list bounds the rounds.
unfoldable pub finish_batches : ℕ → ℕ → M (Unit {0})
unfolding finish_batch_at
finish_batches zero t w = (tt, w)
finish_batches (suc fuel) t w = elim w.engine.pending_batch_streams [
  | [] ↦ (tt, w)
  | s ∷ rest ↦
      finish_batches fuel t
        (finish_batch_at s t
          (record w { engine = record (w.engine) { pending_batch_streams = rest } })).1
]

unfoldable pub engine_finish_batch : M (Unit {0})
unfolding now operation_enter operation_leave finish_batches
engine_finish_batch = do
  t ← now
  operation_enter
  e ← get_engine
  finish_batches (length e.pending_batch_streams) t
  operation_leave

-- Every round closes a connection and takes it out of the map, so the count bounds the rounds.
unfoldable pub close_all : ℕ → M (Unit {0})
unfolding conn_close_internal
close_all zero w = (tt, w)
close_all (suc fuel) w =
    if w.engine.conn_count == 0 then (tt, w) else elim (all_nodes w.engine.conn_map.hashtable) [
      | [] ↦ (tt, w)
      | c ∷ rest ↦ close_all fuel (conn_close_internal c reason_normal w).1
    ]

-- What kcpmux_engine_destroy does to the engine before its memory is freed.
unfoldable pub engine_destroy : M (Unit {0})
unfolding operation_enter operation_leave close_all flush
engine_destroy = do
  mod_engine (λ e. record e { destroying = true })
  operation_enter
  e ← get_engine
  close_all e.conn_count
  operation_leave
  mod_engine (λ x. record x { handshake_map = flush x.handshake_map; conn_map = flush x.conn_map })
  mod_timers (λ t. record t { heap = []; capacity = 0; next_sequence = 0 })

-- Which pointers of the callback tables are not NULL; `kcp_ops` is for the thirteen operations
-- that kcpmux_kcp_ops_valid asks for.
pub record Tables : Type 0 where
  pub set_timer : Bool
  pub write_socketv : Bool
  pub monotonic_time_ms : Bool
  pub conn_connect_notify : Bool
  pub random_u64 : Bool
  pub kcp_ops : Bool
  pub sendv : Bool

unfoldable pub callbacks_valid : Tables → Bool
callbacks_valid x = x.set_timer && (x.write_socketv && x.monotonic_time_ms)

-- A NULL configuration takes the defaults.
abbrev prepared_conn : Option ConnConfig → Option ConnConfig
prepared_conn none = some conn_config_init
prepared_conn (some config) = conn_config_prepare config

abbrev prepared_stream : Option StreamConfig → Option StreamConfig
prepared_stream none = some stream_config_init
prepared_stream (some config) = stream_config_prepare config

-- The engine before its first connection ID is drawn, in fresh memory.
unfoldable pub blank_world : Host → Tables → ConnConfig → StreamConfig → Htb → Htb → World
unfolding engine_config_init manager_init blank_conn blank_stream
blank_world host x conn_config stream_config conn_map handshake_map = record {
  host = host;
  calls = 0;
  trace = [];
  next_address = 1;
  engine = record {
    conn_connect_notify = x.conn_connect_notify;
    random_u64 = x.random_u64;
    sendv = x.sendv;
    config = engine_config_init;
    default_conn_config = conn_config;
    default_stream_config = stream_config;
    conn_map = conn_map;
    handshake_map = handshake_map;
    next_connection_id = 0;
    conn_count = 0;
    stats = engine_stats_zero;
    timer_node_count = 0;
    external_timer_armed = false;
    external_timer_deadline_ms = 0;
    timer_dispatch_count = 0;
    destroying = false;
    pending_batch_streams = [];
    operation_depth = 0;
    pending_release_list = [];
  };
  timers = manager_init;
  conns = λ c. blank_conn [] 0 0 conn_config 0 (record { hashtable = []; num = 0 });
  streams = λ s. blank_stream 0 0 false stream_config;
}

-- `engine->next_connection_id = random & (UINT64_MAX >> 1)`, and 1 for 0.
unfoldable pub draw_connection_id : M (Unit {0})
unfolding random_u64
draw_connection_id = do
  random ← random_u64
  let id = random % 2 ^ 63
  mod_engine (λ e. record e { next_connection_id = if id == 0 then 1 else id })

-- A NULL configuration of the engine leaves the initial one.
abbrev configured : Option EngineConfig → World → World
configured none w = w
configured (some config) w = record w { engine = record (w.engine) { config = config } }

-- `allocated` is what the allocations of the engine and of its two tables answer; `none` is NULL.
unfoldable pub engine_create :
    Host
    → Tables
    → Option EngineConfig
    → Option ConnConfig
    → Option StreamConfig
    → Bool
    → Option World
unfolding callbacks_valid conn_config_init stream_config_init conn_config_prepare
    stream_config_prepare Htb.new blank_world draw_connection_id
engine_create host x config conn_config stream_config allocated =
    if not (callbacks_valid x) || not x.kcp_ops then none else elim (prepared_conn conn_config) [
      | none ↦ none
      | some conn ↦ elim (prepared_stream stream_config) [
        | none ↦ none
        | some stream ↦ elim (Htb.new allocated 64) [
          | none ↦ none
          | some map ↦
              some
                (draw_connection_id (configured config (blank_world host x conn stream map map))).1
        ]
      ]
    ]
