-- ===== src/World/Stats.antt =====
-- include/kcpmux/kcpmux_types.h: the statistics records, and how their counters count.
use kcp_mux.Base.{ℕ, ◌+◌, u64}

pub record EngineStats : Type 0 where
  pub tx_packets : ℕ
  pub tx_bytes : ℕ
  pub rx_packets : ℕ
  pub rx_bytes : ℕ
  pub tx_error_packets : ℕ
  pub conn_count : ℕ
  pub stream_count : ℕ
  pub conn_created_total : ℕ
  pub conn_closed_total : ℕ
  pub conn_connected_total : ℕ
  pub conn_rejected_total : ℕ
  pub conn_idle_timeout_total : ℕ
  pub conn_keepalive_timeout_total : ℕ
  pub stream_created_total : ℕ
  pub stream_closed_total : ℕ
  pub stream_opened_total : ℕ
  pub api_conn_connect_calls : ℕ
  pub api_conn_close_calls : ℕ
  pub api_stream_create_calls : ℕ
  pub api_stream_close_calls : ℕ
  pub api_stream_send_calls : ℕ
  pub api_stream_sendv_calls : ℕ
  pub api_stream_recv_calls : ℕ

pub record ConnStats : Type 0 where
  pub tx_packets : ℕ
  pub tx_bytes : ℕ
  pub rx_packets : ℕ
  pub rx_bytes : ℕ
  pub handshake_time_ms : ℕ

pub record StreamStats : Type 0 where
  pub tx_packets : ℕ
  pub tx_bytes : ℕ
  pub rx_packets : ℕ
  pub rx_bytes : ℕ
  pub up_sent_bytes : ℕ
  pub up_recv_bytes : ℕ
  pub ttfb_time_ms : ℕ
  pub write_block_count : ℕ
  pub write_block_time_ms : ℕ
  pub read_block_count : ℕ
  pub read_block_time_ms : ℕ

abbrev pub engine_stats_zero : EngineStats
engine_stats_zero = record {
  tx_packets = 0;
  tx_bytes = 0;
  rx_packets = 0;
  rx_bytes = 0;
  tx_error_packets = 0;
  conn_count = 0;
  stream_count = 0;
  conn_created_total = 0;
  conn_closed_total = 0;
  conn_connected_total = 0;
  conn_rejected_total = 0;
  conn_idle_timeout_total = 0;
  conn_keepalive_timeout_total = 0;
  stream_created_total = 0;
  stream_closed_total = 0;
  stream_opened_total = 0;
  api_conn_connect_calls = 0;
  api_conn_close_calls = 0;
  api_stream_create_calls = 0;
  api_stream_close_calls = 0;
  api_stream_send_calls = 0;
  api_stream_sendv_calls = 0;
  api_stream_recv_calls = 0;
}

abbrev pub conn_stats_zero : ConnStats
conn_stats_zero = record {
  tx_packets = 0;
  tx_bytes = 0;
  rx_packets = 0;
  rx_bytes = 0;
  handshake_time_ms = 0;
}

abbrev pub stream_stats_zero : StreamStats
stream_stats_zero = record {
  tx_packets = 0;
  tx_bytes = 0;
  rx_packets = 0;
  rx_bytes = 0;
  up_sent_bytes = 0;
  up_recv_bytes = 0;
  ttfb_time_ms = 0;
  write_block_count = 0;
  write_block_time_ms = 0;
  read_block_count = 0;
  read_block_time_ms = 0;
}

-- `x++` and `x += n`
abbrev pub plus : ℕ → ℕ → ℕ
plus x n = u64 (x + n)
