-- ===== src/Config/Examples.antt =====
-- The default configurations of src/kcpmux_engine.c through their validation.
use kcp_mux.Base.{◌<◌, ◌≡◌, ◌↔◌, some, none}
use kcp_mux.Config.{
  ConnConfig, conn_config_init, stream_config_init, conn_config_prepare, stream_config_prepare,
}
use kcp_mux.Config.Prepare.{
  IsStreamConfig, IsConnConfig, stream_config_prepare_iff, conn_config_prepare_correct,
}

stream_config_prepare_iff_example :
    (stream_config_prepare stream_config_init ≡ some stream_config_init)
    ↔ (IsStreamConfig stream_config_init × (stream_config_init ≡ stream_config_init))
stream_config_prepare_iff_example = stream_config_prepare_iff stream_config_init stream_config_init

conn_config_prepare_correct_example :
    ((conn_config_prepare conn_config_init ≡ none) ↔ (conn_config_init.ctrl_timeout_ms ≡ 0))
    × ((d : ConnConfig)
        → conn_config_prepare conn_config_init ≡ some d
        → IsConnConfig d
          × (0 < conn_config_init.keepalive_timeout_ms → d ≡ conn_config_init)
          × (conn_config_prepare d ≡ some d))
conn_config_prepare_correct_example = conn_config_prepare_correct conn_config_init
