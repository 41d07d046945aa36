-- ===== src/Types.antt =====
-- include/kcpmux/kcpmux_types.h and src/kcpmux_stream.h: constants, status codes, states.
use kcp_mux.Base.{ℕ, ◌+◌, ◌-◌, Bool, true, false, List, ◌^◌}

abbrev pub version : ℕ
version = 4

abbrev pub addr_max_len : ℕ
addr_max_len = 64

abbrev pub proto_ext_max_len : ℕ
proto_ext_max_len = 512

abbrev pub int64_max : ℕ
int64_max = 2 ^ 63 - 1

-- KCPMUX_ERR_*. `kcp_ret n` is KCPMUX_ERR_KCPRET at the KCP result -(n + 1).
pub data Status : Type 0 where
  nok oom not_found network invalid_format invalid_param state closed buffer_too_small : Status
  kcp_ret : ℕ → Status

unfoldable pub code : Status → ℕ
code Status.nok = 1
code Status.oom = 8
code Status.not_found = 10
code Status.network = 19
code Status.invalid_format = 41
code Status.invalid_param = 42
code Status.state = 200
code Status.closed = 201
code Status.buffer_too_small = 202
code (Status.kcp_ret n) = 301 + n

-- A result of the API: a count (0 is KCPMUX_ERR_OK), or a negated status code.
pub data Ret : Type 0 where
  ok : ℕ → Ret
  err : Status → Ret

abbrev pub is_ok : Ret → Bool
is_ok (Ret.ok n) = true
is_ok (Ret.err e) = false

-- KCPMUX_ACK_RESULT_*
abbrev pub ack_ok : ℕ
ack_ok = 0

abbrev pub ack_error : ℕ
ack_error = 1

abbrev pub ack_version : ℕ
ack_version = 2

-- KCPMUX_CLOSE_REASON_*
abbrev pub reason_normal : ℕ
reason_normal = 0

abbrev pub reason_error : ℕ
reason_error = 1

abbrev pub reason_version : ℕ
reason_version = 2

abbrev pub reason_rejected : ℕ
reason_rejected = 3

abbrev pub reason_idle : ℕ
reason_idle = 4

abbrev pub reason_timeout : ℕ
reason_timeout = 5

pub data ConnState : Type 0 where
  init connecting connected closing closed error : ConnState

pub data StreamState : Type 0 where
  open_state closing closed error : StreamState

pub data ClosePhase : Type 0 where
  none local_drain wait_ack remote_drain finalize : ClosePhase

-- The tests `state == X` of the source.
abbrev pub conn_is : ConnState → ConnState → Bool
conn_is ConnState.init ConnState.init = true
conn_is ConnState.connecting ConnState.connecting = true
conn_is ConnState.connected ConnState.connected = true
conn_is ConnState.closing ConnState.closing = true
conn_is ConnState.closed ConnState.closed = true
conn_is ConnState.error ConnState.error = true
conn_is _ _ = false

abbrev pub stream_is : StreamState → StreamState → Bool
stream_is StreamState.open_state StreamState.open_state = true
stream_is StreamState.closing StreamState.closing = true
stream_is StreamState.closed StreamState.closed = true
stream_is StreamState.error StreamState.error = true
stream_is _ _ = false

abbrev pub phase_is : ClosePhase → ClosePhase → Bool
phase_is ClosePhase.none ClosePhase.none = true
phase_is ClosePhase.local_drain ClosePhase.local_drain = true
phase_is ClosePhase.wait_ack ClosePhase.wait_ack = true
phase_is ClosePhase.remote_drain ClosePhase.remote_drain = true
phase_is ClosePhase.finalize ClosePhase.finalize = true
phase_is _ _ = false

-- kcpmux_iovec_t: a fragment of readable bytes, or a length with a NULL pointer.
pub data Iovec : Type 0 where
  fragment : List ℕ → Iovec
  dangling : ℕ → Iovec
