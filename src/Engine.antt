-- ===== src/Engine.antt =====
-- src/kcpmux_engine.c: time, randomness, operations with deferred releases, timer nodes, the
-- external one-shot timer, and the transport. There is one engine and it is not NULL.
pub mod Operations
pub mod Aside
mod Examples
use kcp_mux.Base.{
  ℕ, ◌+◌, ◌-◌, ◌*◌, ◌^◌, ◌==◌, ltb, leb, if◌then◌else◌, Bool, true, false, not, ◌&&◌, ◌||◌, none,
  some, List, [], ◌∷◌, ◌++◌, length, u32, u64, update,
}
use Prim.Native.Nat.{bit_or}
use kcp_mux.Types.{Ret, ok, err, Status, is_ok, Iovec, fragment, dangling}
use kcp_mux.Timer.{Timers, TimerCb, manager_reserve, node_init, schedule, cancel, peek, size_max}
use kcp_mux.World.{
  World, M, ◌>>=◌, ◌>>◌, return, skip, when, gets, get_engine, mod_engine, mod_timers, mod_conn,
  emit, ask, Host, Release, conn_release, stream_free, set_timer, wrote, freed,
}
use kcp_mux.World.Stats.{plus}
use kcp_mux.Htb.{flush}

unfoldable pub now : M ℕ
now = ask Host.monotonic_time_ms

-- Without a host source two results of `rand()` are joined.
unfoldable pub random_u64 : M ℕ
random_u64 = do
  e ← get_engine
  if e.random_u64 then (do r ← ask Host.random_bits; return (u64 r)) else (do
    high ← ask Host.random_bits
    low ← ask Host.random_bits
    return (bit_or (u64 (u32 high * 2 ^ 32)) (u32 low)))

unfoldable pub operation_enter : M (Unit {0})
operation_enter = mod_engine (λ e. record e { operation_depth = u32 (e.operation_depth + 1) })

-- kcpmux_engine_rearm_timer
unfoldable pub rearm_timer : ℕ → M (Unit {0})
unfolding peek
rearm_timer now_ms w = if ltb 0 w.engine.operation_depth then (tt, w) else elim (peek w.timers) [
  | none ↦ (tt, w)
  | some root ↦
      let deadline_ms = (w.timers.nodes root).deadline_ms in
      if w.engine.external_timer_armed && w.engine.external_timer_deadline_ms == deadline_ms
      then (tt, w)
      else (
        tt,
        record w {
          engine = record (w.engine) {
            external_timer_armed = true;
            external_timer_deadline_ms = deadline_ms;
          };
          trace = set_timer (if leb deadline_ms now_ms then 0 else deadline_ms - now_ms) ∷ w.trace;
        },
      )
]

-- The callbacks kcpmux_conn_release and kcpmux_stream_free.
unfoldable pub release_object : Release → M (Unit {0})
unfolding flush
release_object (conn_release c) =
    mod_conn c (λ x. record x { stream_map = flush x.stream_map }) >> emit (freed c)
release_object (stream_free s) = emit (freed s)

-- The loop of kcpmux_engine_drain_pending_release: a release queues nothing, so the list that is
-- there at the start is what is drained.
unfoldable pub drain_releases : List Release → M (Unit {0})
unfolding release_object
drain_releases [] w = (tt, w)
drain_releases (item ∷ rest) w =
    let w1 : World = record w { engine = record (w.engine) { pending_release_list = rest } } in
    drain_releases rest (release_object item w1).1

unfoldable pub operation_leave : M (Unit {0})
unfolding drain_releases rearm_timer now
operation_leave = do
  e ← get_engine
  if e.operation_depth == 0
      then skip
      else if not (e.operation_depth == 1)
      then mod_engine (λ x. record x { operation_depth = x.operation_depth - 1 })
      else (do
        mod_engine (λ x. record x { operation_depth = 1 })
        drain_releases e.pending_release_list
        mod_engine (λ x. record x { operation_depth = 0 })
        t ← now
        rearm_timer t)

unfoldable pub queue_release : Release → M (Unit {0})
queue_release item =
    mod_engine (λ e. record e { pending_release_list = e.pending_release_list ++ (item ∷ []) })

-- kcpmux_timer_manager_reserve on the engine's timers; the answer of `realloc` is asked for here.
abbrev timers_reserve : ℕ → M Ret
timers_reserve capacity = do
  realloc_ok ← ask Host.malloc_ok
  t ← gets World.timers
  mod_timers (λ x. (manager_reserve realloc_ok x capacity).0)
  return (manager_reserve realloc_ok t capacity).1

unfoldable pub register_timer_node : ℕ → TimerCb → M Ret
unfolding manager_reserve node_init
register_timer_node owner timeout_cb = do
  e ← get_engine
  if ltb (size_max - 2) e.timer_node_count then return (err Status.oom) else (do
    ret ← timers_reserve (e.timer_node_count + 1)
    if is_ok ret
        then (do
          mod_timers (λ t. node_init t owner timeout_cb)
          mod_engine (λ x. record x { timer_node_count = x.timer_node_count + 1 })
          return (ok 0))
        else return ret)

abbrev has_owner : ℕ → M Bool
has_owner node w = ((w.timers.nodes node).owner, w)

abbrev pub forget_owner : Timers → ℕ → Timers
forget_owner t node = record t {
  nodes = update t.nodes node (record (t.nodes node) { owner = false; timeout_cb = none });
}

unfoldable pub unregister_timer_node : ℕ → M (Unit {0})
unfolding now cancel rearm_timer
unregister_timer_node node = do
  owned ← has_owner node
  when owned (do
    t ← now
    mod_timers (λ x. forget_owner (cancel x node) node)
    mod_engine (λ x. record x { timer_node_count = x.timer_node_count - 1 })
    rearm_timer t)

unfoldable pub schedule_timer_node : ℕ → ℕ → ℕ → M Ret
unfolding schedule rearm_timer
schedule_timer_node node deadline_ms now_ms = do
  owned ← has_owner node
  if not owned then return (err Status.invalid_param) else (do
    realloc_ok ← ask Host.malloc_ok
    t ← gets World.timers
    let r = schedule realloc_ok t node (if ltb deadline_ms now_ms then now_ms else deadline_ms)
    mod_timers (λ x. r.0)
    when (is_ok r.1) (rearm_timer now_ms)
    return r.1)

unfoldable pub cancel_timer_node : ℕ → ℕ → M (Unit {0})
unfolding cancel rearm_timer
cancel_timer_node node now_ms = do mod_timers (λ x. cancel x node); rearm_timer now_ms

abbrev pub iov_len : Iovec → ℕ
iov_len (fragment bytes) = length bytes
iov_len (dangling len) = len

-- `iov[i].len > 0 && !iov[i].data` for some fragment.
unfoldable pub any_dangling : List Iovec → Bool
any_dangling [] = false
any_dangling (fragment bytes ∷ iov) = any_dangling iov
any_dangling (dangling len ∷ iov) = ltb 0 len || any_dangling iov

unfoldable pub total_len : List Iovec → ℕ
total_len [] = 0
total_len (x ∷ iov) = iov_len x + total_len iov

-- kcpmux_engine_write_socketv
unfoldable pub engine_write_socketv : List Iovec → List ℕ → M Ret
unfolding any_dangling total_len
engine_write_socketv iov addr =
    if length iov == 0 || any_dangling iov then return (err Status.invalid_param) else (do
      sent ← ask Host.write_socketv
      emit (wrote iov addr)
      if sent
          then (do
            mod_engine (λ e. record e {
              stats = record (e.stats) {
                tx_packets = plus e.stats.tx_packets 1;
                tx_bytes = plus e.stats.tx_bytes (total_len iov);
              };
            })
            return (ok 0))
          else (do
            mod_engine (λ e. record e {
              stats = record (e.stats) { tx_error_packets = plus e.stats.tx_error_packets 1 };
            })
            return (err Status.network)))
