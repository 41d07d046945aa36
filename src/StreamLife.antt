-- ===== src/StreamLife.antt =====
-- src/kcpmux_stream.c: creation, close and configuration of a stream.
use kcp_mux.Base.{
  ℕ, suc, ◌==◌, if◌then◌else◌, Bool, true, false, not, ◌&&◌, ◌||◌, Option, none, some,
}
use kcp_mux.Types.{
  Ret, ok, err, Status, is_ok, StreamState, ClosePhase, ConnState, conn_is, phase_is, reason_normal,
}
use kcp_mux.Config.{StreamConfig, stream_config_prepare}
use kcp_mux.Timer.{TimerCb}
use kcp_mux.World.{
  from_option, M, ◌>>=◌, ◌>>◌, return, skip, when, ask, Host, get_conn, get_stream, get_engine,
  mod_stream, mod_engine, emit, Stream, StreamCallbacks, kcp_created, kcp_released, freed,
  kcp_setmss,
}
use kcp_mux.World.Stats.{plus, stream_stats_zero}
use kcp_mux.Engine.{now, operation_enter, operation_leave, register_timer_node, schedule_timer_node}
use kcp_mux.Route.{add_stream, alloc_stream_id}
use kcp_mux.Stream.{
  mark_read_blocked, clear_pending, schedule_finalize, stream_refresh_timer, stream_set_state,
  stream_close_internal, advance_local_close,
}

abbrev pub no_stream_callbacks : StreamCallbacks
no_stream_callbacks = record {
  stream_state_changed = false;
  stream_read_notify = false;
  stream_write_notify = false;
  stream_close_notify = false;
}

-- The object after `memset` and the first assignments of kcpmux_stream_new.
unfoldable pub blank_stream : ℕ → ℕ → Bool → StreamConfig → Stream
blank_stream c stream_id is_initiator config = record {
  stream_id = stream_id;
  state = StreamState.open_state;
  is_initiator = is_initiator;
  internal_closed = false;
  in_stream_map = false;
  conn = c;
  config = config;
  callbacks = no_stream_callbacks;
  user_data = 0;
  kcp = true;
  last_ctrl_ts = 0;
  retry_count = 0;
  close_reason = 0;
  close_phase = ClosePhase.none;
  drain_started_ts = 0;
  read_blocked = false;
  write_blocked = false;
  pending_count = 0;
  read_block_start_ts = 0;
  write_block_start_ts = 0;
  stats = stream_stats_zero;
}

-- `malloc` of an object: a new address, or 0.
unfoldable pub alloc_address : M ℕ
alloc_address w =
    if w.host.malloc_ok w.calls
    then (w.next_address, record w { calls = suc w.calls; next_address = suc w.next_address })
    else (0, record w { calls = suc w.calls })

-- `free` of an object whose creation fails, which then answers NULL.
abbrev pub discard : ℕ → M ℕ
discard a = do emit (freed a); return 0

-- The last part of kcpmux_stream_new, once the timer node is registered.
unfoldable pub open_stream : ℕ → M ℕ
unfolding now mark_read_blocked stream_refresh_timer
open_stream s = do
  t ← now
  mark_read_blocked s t
  mod_engine (λ e. record e {
    stats = record (e.stats) {
      stream_opened_total = plus e.stats.stream_opened_total 1;
      stream_created_total = plus e.stats.stream_created_total 1;
    };
  })
  mod_stream s (λ x. record x { state = StreamState.open_state })
  stream ← get_stream s
  stream_refresh_timer s stream.read_block_start_ts
  return s

-- kcpmux_stream_new, once the object is allocated; a failure frees it again.
unfoldable pub init_stream : ℕ → ℕ → ℕ → StreamConfig → Bool → M ℕ
unfolding stream_config_prepare blank_stream register_timer_node open_stream
init_stream s c stream_id source is_initiator =
    from_option (stream_config_prepare source) (discard s) (λ config. do
      mod_stream s (λ x. blank_stream c stream_id is_initiator config)
      created ← ask Host.kcp_create
      if not created then discard s else (do
        emit (kcp_created s stream_id)
        emit (kcp_setmss s config.kcp_mss)
        ret ← register_timer_node s TimerCb.stream_timer_callback
        if is_ok ret then open_stream s else (do emit (kcp_released s); discard s)))

unfoldable pub stream_new : ℕ → ℕ → Option StreamConfig → Bool → M ℕ
unfolding alloc_address init_stream
stream_new c stream_id config is_initiator = do
  engine ← get_engine
  if c == 0 || stream_id == 0 then return 0 else (do
    s ← alloc_address
    if s == 0
        then return 0
        else init_stream s c stream_id
            (elim config [ none ↦ engine.default_stream_config | some given ↦ given ]) is_initiator)

-- `callbacks` is none for a NULL pointer, which leaves the callbacks as they are here.
unfoldable pub create_checked : ℕ → Option StreamConfig → Option StreamCallbacks → ℕ → M ℕ
unfolding alloc_stream_id stream_new add_stream
create_checked c config callbacks user_data = do
  conn ← get_conn c
  if not (conn_is conn.state ConnState.connected) then return 0 else (do
    stream_id ← alloc_stream_id c
    if stream_id == 0 then return 0 else (do
      s ← stream_new c stream_id config true
      if s == 0 then return 0 else (do
        mod_stream s (λ x. record x {
          callbacks = elim callbacks [ none ↦ x.callbacks | some given ↦ given ];
          user_data = user_data;
        })
        add_stream c s
        return s)))

unfoldable pub stream_create : ℕ → Option StreamConfig → Option StreamCallbacks → ℕ → M ℕ
unfolding operation_enter operation_leave create_checked
stream_create c config callbacks user_data = do
  conn ← get_conn c
  if c == 0 || conn.internal_closed then return 0 else (do
    operation_enter
    mod_engine (λ e. record e {
      stats = record (e.stats) { api_stream_create_calls = plus e.stats.api_stream_create_calls 1 };
    })
    s ← create_checked c config callbacks user_data
    operation_leave
    return s)

-- The stream at the start of a local close.
abbrev pub draining : ℕ → Stream → Stream
draining t x = record x {
  last_ctrl_ts = t;
  drain_started_ts = t;
  close_reason = reason_normal;
  retry_count = 0;
  close_phase = ClosePhase.local_drain;
}

-- A stream of this end that sent nothing ends at once.
unfoldable pub drain_or_end : ℕ → ℕ → M (Unit {0})
unfolding stream_close_internal schedule_timer_node advance_local_close
drain_or_end s t = do
  stream ← get_stream s
  if stream.is_initiator && stream.stats.up_sent_bytes == 0
      then stream_close_internal s reason_normal
      else (do _ ← schedule_timer_node s t t; advance_local_close s)

-- The first close of an open stream.
unfoldable pub begin_local_close : ℕ → M (Unit {0})
unfolding now stream_set_state drain_or_end
begin_local_close s = do
  t ← now
  mod_stream s (draining t)
  stream_set_state s StreamState.closing
  drain_or_end s t

-- What kcpmux_stream_close does in each state.
unfoldable pub close_by_state : StreamState → ℕ → M (Unit {0})
unfolding begin_local_close schedule_finalize now
close_by_state StreamState.closing s = do
  stream ← get_stream s
  when (phase_is stream.close_phase ClosePhase.remote_drain)
      (do t ← now; schedule_finalize s reason_normal t)
close_by_state StreamState.open_state s = begin_local_close s
close_by_state _ s = skip

unfoldable pub stream_close : ℕ → M Ret
unfolding operation_enter operation_leave close_by_state
stream_close s = if s == 0 then return (err Status.invalid_param) else (do
  operation_enter
  mod_engine (λ e. record e {
    stats = record (e.stats) { api_stream_close_calls = plus e.stats.api_stream_close_calls 1 };
  })
  stream ← get_stream s
  close_by_state stream.state s
  operation_leave
  return (ok 0))

-- The MSS of a stream does not change.
unfoldable pub stream_set_config : ℕ → StreamConfig → M (Unit {0})
unfolding stream_config_prepare clear_pending stream_refresh_timer now
stream_set_config s config = do
  stream ← get_stream s
  when (not (s == 0 || stream.internal_closed)) (
      from_option (stream_config_prepare config) skip (λ prepared. do
        mod_stream s (λ x. record x { config = record prepared { kcp_mss = x.config.kcp_mss } })
        clear_pending s
        t ← now
        stream_refresh_timer s t))

unfoldable pub stream_set_callbacks : ℕ → Option StreamCallbacks → ℕ → M (Unit {0})
stream_set_callbacks s callbacks user_data = do
  stream ← get_stream s
  when (not (s == 0 || stream.internal_closed)) (
      mod_stream s (λ x. record x {
        callbacks = elim callbacks [ none ↦ no_stream_callbacks | some given ↦ given ];
        user_data = user_data;
      }))
