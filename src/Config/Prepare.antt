-- ===== src/Config/Prepare.antt =====
-- What a configuration that passed validation satisfies.
use kcp_mux.Base.{◌+◌, ◌≤◌, ◌<◌, ◌≡◌, none, some, ◌↔◌, arith}
use kcp_mux.Config.{
  ConnConfig, StreamConfig, conn_config_prepare, stream_config_prepare, msg_max_len,
  stream_header_len, ikcp_overhead,
}

-- The ranges that the header documents for the fields of a stream configuration.
pub record IsStreamConfig (c : StreamConfig) : Type 0 where
  pub timed : 0 < c.ctrl_timeout_ms
  pub drains : 0 < c.drain_timeout_ms
  pub mss_pos : 0 < c.kcp_mss
  pub mss_fits : stream_header_len + ikcp_overhead + c.kcp_mss ≤ msg_max_len
  pub pauses : 0 < c.send_pause_threshold
  pub resumes : c.send_resume_threshold ≤ c.send_pause_threshold

-- kcpmux_stream_config_prepare accepts a configuration exactly when it is in the documented
-- ranges, and then copies it unchanged.
pub stream_config_prepare_iff :
    (c d : StreamConfig) → (stream_config_prepare c ≡ some d) ↔ (IsStreamConfig c × (d ≡ c))
unfolding stream_config_prepare
stream_config_prepare_iff c d = (λ h. (ground arith, ground arith), λ h. ground arith)

pub record IsConnConfig (c : ConnConfig) : Type 0 where
  pub timed : 0 < c.ctrl_timeout_ms
  pub alive : 0 < c.keepalive_timeout_ms

-- kcpmux_conn_config_prepare accepts a configuration exactly when its control timeout is not zero;
-- the copy has a nonzero keepalive timeout, equals the source when that was nonzero already, and
-- preparing it again changes nothing.
pub conn_config_prepare_correct :
    (c : ConnConfig)
    → ((conn_config_prepare c ≡ none) ↔ (c.ctrl_timeout_ms ≡ 0))
      × ((d : ConnConfig)
          → conn_config_prepare c ≡ some d
          → IsConnConfig d
            × (0 < c.keepalive_timeout_ms → d ≡ c)
            × (conn_config_prepare d ≡ some d))
unfolding conn_config_prepare
conn_config_prepare_correct c =
    ((ground arith, ground arith), λ d h. (ground arith, λ p. ground arith, ground arith))
