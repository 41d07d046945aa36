-- ===== src/Config.antt =====
-- src/kcpmux_engine.c: the configurations, their defaults and their validation.
pub mod Prepare
mod Examples
use kcp_mux.Base.{ℕ, ◌-◌, ◌==◌, ltb, if◌then◌else◌, ◌||◌, Option, none, some}

-- `_reserved` is the only field.
pub record EngineConfig : Type 0 where
  pub reserved : ℕ

unfoldable pub engine_config_init : EngineConfig
engine_config_init = record { reserved = 0 }

pub record ConnConfig : Type 0 where
  pub ctrl_timeout_ms : ℕ
  pub connect_retries : ℕ
  pub close_retries : ℕ
  pub keepalive_interval_ms : ℕ
  pub keepalive_timeout_ms : ℕ
  pub idle_timeout_ms : ℕ

pub record StreamConfig : Type 0 where
  pub ctrl_timeout_ms : ℕ
  pub close_retries : ℕ
  pub drain_timeout_ms : ℕ
  pub kcp_mss : ℕ
  pub send_pause_threshold : ℕ
  pub send_resume_threshold : ℕ
  pub batch_threshold : ℕ

-- Default values, of include/kcpmux/kcpmux_types.h.
abbrev pub default_keepalive_timeout_ms : ℕ
default_keepalive_timeout_ms = 30000

unfoldable pub conn_config_init : ConnConfig
conn_config_init = record {
  ctrl_timeout_ms = 400;
  connect_retries = 2;
  close_retries = 1;
  keepalive_interval_ms = 10000;
  keepalive_timeout_ms = default_keepalive_timeout_ms;
  idle_timeout_ms = 60000;
}

unfoldable pub stream_config_init : StreamConfig
stream_config_init = record {
  ctrl_timeout_ms = 600;
  close_retries = 1;
  drain_timeout_ms = 5000;
  kcp_mss = 1200;
  send_pause_threshold = 256;
  send_resume_threshold = 128;
  batch_threshold = 1;
}

-- KCPMUX_PROTO_MSG_MAX_LEN, KCPMUX_PROTO_STREAM_HEADER_LEN and KCPMUX_IKCP_OVERHEAD.
abbrev pub msg_max_len : ℕ
msg_max_len = 1500

abbrev pub stream_header_len : ℕ
stream_header_len = 13

abbrev pub ikcp_overhead : ℕ
ikcp_overhead = 24

-- `none` is the result 0.
unfoldable pub conn_config_prepare : ConnConfig → Option ConnConfig
conn_config_prepare src =
    if src.ctrl_timeout_ms == 0
    then none
    else some (
        if src.keepalive_timeout_ms == 0
        then record src { keepalive_timeout_ms = default_keepalive_timeout_ms }
        else src)

unfoldable pub stream_config_prepare : StreamConfig → Option StreamConfig
stream_config_prepare src =
    if src.ctrl_timeout_ms == 0
      || (src.drain_timeout_ms == 0
          || (src.kcp_mss == 0
              || (ltb (msg_max_len - stream_header_len - ikcp_overhead) src.kcp_mss
                  || (src.send_pause_threshold == 0
                      || ltb src.send_pause_threshold src.send_resume_threshold))))
    then none
    else some src
