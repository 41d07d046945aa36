-- ===== src/Conn/Examples.antt =====
-- The deadline of a connected connection of src/kcpmux_conn.c.
use kcp_mux.Base.{◌≡◌, ◌↔◌, arith, refl, true, false, some}
use kcp_mux.Types.{ConnState}
use kcp_mux.Config.{conn_config_init}
use kcp_mux.World.{Conn}
use kcp_mux.Conn.{calculate_deadline}
use kcp_mux.ConnUpdate.{is_due}
use kcp_mux.Conn.Deadlines.{HasWork, calculate_deadline_iff}
use kcp_mux.Scenarios.{fresh}

abbrev quiet : Conn
quiet = record (fresh.conns 1) {
  state = ConnState.connected;
  internal_closed = false;
  config = conn_config_init;
  last_recv_ts = 1000;
  last_payload_ts = 1000;
  last_keepalive_ts = 5000;
}

next_keepalive : calculate_deadline quiet ≡ some 15000
unfolding calculate_deadline conn_config_init
next_keepalive = refl

calculate_deadline_iff_example :
    (is_due (calculate_deadline quiet) 15000 ≡ true) ↔ HasWork quiet.state quiet 15000
calculate_deadline_iff_example = calculate_deadline_iff quiet 15000 refl (omega arith)
