-- ===== src/Protocol/Examples.antt =====
-- Packets of src/kcpmux_protocol.c at an engine without connections.
use kcp_mux.Base.{ℕ, ◌≡◌, ◌≢◌, arith, refl, List, [], ◌∷◌, length, get_or, drop}
use kcp_mux.Wire.{connect_message, keepalive_message, read_u64, msg_conn_connect}
use kcp_mux.Loop.{blank_world}
use kcp_mux.Hash.{hash32, memory_bytes}
use kcp_mux.Route.{get_conn_by_id}
use kcp_mux.Scenarios.{fresh, client_addr}
use kcp_mux.Protocol.{protocol_input}
use kcp_mux.Protocol.Refusal.{Refused, unknown_connection-Refused}
use kcp_mux.Protocol.Connect.{connect_message-Routed}
use kcp_mux.Protocol.Answers.{Routed}

abbrev stray : List ℕ
stray = keepalive_message 77 500 1

stray_type : get_or stray 0 0 ≢ msg_conn_connect
unfolding keepalive_message
stray_type = λ e. ground arith

stray_unknown : get_conn_by_id fresh client_addr (read_u64 (drop 1 stray)) ≡ 0
unfolding get_conn_by_id keepalive_message blank_world read_u64 hash32 memory_bytes
stray_unknown = refl

unknown_connection-Refused_example : Refused fresh (protocol_input stray client_addr 1000 fresh)
unknown_connection-Refused_example =
    unknown_connection-Refused stray client_addr 1000 fresh stray_type stray_unknown

connect_message-Routed_example :
    Routed client_addr 77
      (1 ∷ 2 ∷ [])
      (length (connect_message 0 77 (1 ∷ 2 ∷ [])))
      1000
      fresh
      (protocol_input (connect_message 0 77 (1 ∷ 2 ∷ [])) client_addr 1000 fresh)
connect_message-Routed_example =
    connect_message-Routed 0 77 (1 ∷ 2 ∷ []) client_addr 1000 fresh (omega arith)
      (λ e. ground arith) (omega arith) (omega arith) (omega arith)
