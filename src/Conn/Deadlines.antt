-- ===== src/Conn/Deadlines.antt =====
-- The deadline of a connection of src/kcpmux_conn.c against what kcpmux_conn_update does at it.
use kcp_mux.Base.{ℕ, ◌+◌, ◌≤◌, ◌<◌, ◌≡◌, ◌↔◌, ◌⊎◌, arith, true, false, min}
use kcp_mux.Types.{ConnState, int64_max}
use kcp_mux.World.{Conn}
use kcp_mux.Timer.{deadline_after}
use kcp_mux.Conn.{calculate_deadline, state_deadline}
use kcp_mux.ConnUpdate.{is_due}

-- kcpmux_timer_deadline_after adds the interval, and stops at INT64_MAX.
pub deadline_after_lem :
    (anchor_ms interval_ms : ℕ)
    → interval_ms ≤ int64_max
    → deadline_after anchor_ms interval_ms ≡ min (anchor_ms + interval_ms) int64_max
unfolding deadline_after
deadline_after_lem anchor_ms interval_ms h = ground arith

-- The time since `anchor_ms` has reached the interval.
abbrev pub Elapsed : ℕ → ℕ → ℕ → Type 0
Elapsed anchor_ms interval_ms t = deadline_after anchor_ms interval_ms ≤ t

-- What kcpmux_conn_update acts on, in each state.
abbrev pub HasWork : ConnState → Conn → ℕ → Type 0
HasWork ConnState.connecting c t = Elapsed c.last_ctrl_ts c.config.ctrl_timeout_ms t
HasWork ConnState.closing c t = Elapsed c.last_ctrl_ts c.config.ctrl_timeout_ms t
HasWork ConnState.connected c t =
    Elapsed c.last_recv_ts c.config.keepalive_timeout_ms t
    ⊎ ((0 < c.config.idle_timeout_ms) × Elapsed c.last_payload_ts c.config.idle_timeout_ms t)
    ⊎ ((0 < c.config.keepalive_interval_ms)
        × Elapsed c.last_keepalive_ts c.config.keepalive_interval_ms t)
HasWork _ c t = ⊥

state_work :
    (s : ConnState) (c : Conn) (t : ℕ) → t < int64_max → (state_deadline s c ≤ t) ↔ HasWork s c t
unfolding state_deadline
state_work ConnState.init c t h = (λ e. ground arith, λ e. ground arith)
state_work ConnState.connecting c t h = (λ e. ground arith, λ e. ground arith)
state_work ConnState.connected c t h = (λ e. ground arith, λ e. ground arith)
state_work ConnState.closing c t h = (λ e. ground arith, λ e. ground arith)
state_work ConnState.closed c t h = (λ e. ground arith, λ e. ground arith)
state_work ConnState.error c t h = (λ e. ground arith, λ e. ground arith)

-- The timer of a connection that is not closed is due exactly when kcpmux_conn_update has
-- something to do: in CONNECTING and CLOSING the control timeout has passed, and in CONNECTED the
-- keepalive timeout, or the idle timeout or the keepalive interval where they are not zero. So no
-- timeout is missed and no wake-up is for nothing, at all times before INT64_MAX.
pub calculate_deadline_iff :
    (c : Conn) (t : ℕ)
    → c.internal_closed ≡ false
    → t < int64_max
    → (is_due (calculate_deadline c) t ≡ true) ↔ HasWork c.state c t
unfolding calculate_deadline
calculate_deadline_iff c t closed h =
    let deadline = state_deadline c.state c in
    let work = state_work c.state c t h in
    let due : (is_due (calculate_deadline c) t ≡ true) ↔ (deadline ≤ t) =
      (λ e. ground arith, λ e. ground arith) in
    (λ e. work.0 (due.0 e), λ e. due.1 (work.1 e))
