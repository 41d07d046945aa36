-- ===== src/Run/Forward.antt =====
-- Every call of include/kcpmux/kcpmux.h, and every sequence of calls: connections and streams go
-- forward.
use kcp_mux.Base.{
  ℕ, ◌≡◌, ◌==◌, ◌||◌, ◌&&◌, true, false, not, refl, arith, length, Bool, Bool-cases, inl, inr, List,
  [], Option, ltb,
}
use kcp_mux.Types.{Ret, Iovec}
use kcp_mux.Config.{EngineConfig, ConnConfig, StreamConfig}
use kcp_mux.World.{World, M, ◌>>=◌, ◌>>◌, mod_engine, get_stream, ConnCallbacks, StreamCallbacks}
use kcp_mux.World.Stats.{plus}
use kcp_mux.Vectored.{skip_empty}
use kcp_mux.Engine.{any_dangling, total_len, now}
use kcp_mux.Loop.{engine_set_config, input_packet, engine_input}
use kcp_mux.ConnLife.{
  conn_connect, open_conn, conn_close, close_conn, conn_set_config, conn_set_callbacks,
}
use kcp_mux.StreamLife.{
  stream_create, create_checked, stream_close, close_by_state, stream_set_config,
  stream_set_callbacks,
}
use kcp_mux.Transfer.{
  Source, contiguous, vectored, int_max, send_chunks, send_checked, count_send_call, stream_send,
  stream_sendv, stream_recv, stream_finish_batch,
}
use kcp_mux.Life.Relation.{AreSized, Follows}
use kcp_mux.Life.Changes.{rules, mod_engine-Follows}
use kcp_mux.Life.Combinators.{same-Evolves}
use kcp_mux.Life.Timing.{now-Follows}
use kcp_mux.Life.At.{at_rules, At-Follows, Follows-At, next-At}
use kcp_mux.Life.Data
use kcp_mux.Life.Streams
use kcp_mux.Life.Conns
use kcp_mux.Life.Packets.{protocol_input-Follows}
use kcp_mux.Life.Forward.{IsForwardConn-trans, IsForwardStream-trans, forward}
use kcp_mux.Run.{Call, Reach, here, next, after}
use kcp_mux.Run.Operation.{Advanced, Evolves-Advanced, operation-Advanced}
use kcp_mux.Run.Batches.{engine_finish_batch-Advanced}
use kcp_mux.Run.Due.{engine_update-Advanced}

-- A call that changes nothing.
same-Advanced : (w : World) → w.engine.operation_depth ≡ 0 → Advanced w w
same-Advanced w h = Evolves-Advanced w w h (same-Evolves w)

-- The bodies of the operations.
input_packet-Follows :
    (buf peer_addr : List ℕ) (k : ℕ) → Follows forward k (input_packet buf peer_addr)
unfolding input_packet
input_packet-Follows buf peer_addr k = search (rules, now-Follows, protocol_input-Follows) depth 20

abbrev create_body : ℕ → Option StreamConfig → Option StreamCallbacks → ℕ → M ℕ
create_body c config callbacks user_data = do
  mod_engine (λ e. record e {
    stats = record (e.stats) { api_stream_create_calls = plus e.stats.api_stream_create_calls 1 };
  })
  create_checked c config callbacks user_data

create_body-Follows :
    (c : ℕ) (config : Option StreamConfig) (callbacks : Option StreamCallbacks) (user_data k : ℕ)
    → Follows forward k (create_body c config callbacks user_data)
create_body-Follows c config callbacks user_data k =
    search (rules, Streams.create_checked-Follows) depth 20

abbrev close_body : ℕ → M (Unit {0})
close_body s = do
  mod_engine (λ e. record e {
    stats = record (e.stats) { api_stream_close_calls = plus e.stats.api_stream_close_calls 1 };
  })
  stream ← get_stream s
  close_by_state stream.state s

close_body-Follows : (s k : ℕ) → Follows forward k (close_body s)
close_body-Follows s k = At-Follows (λ w.
    search
      (
        next-At, at_rules, Follows-At, mod_engine-Follows, Streams.close_by_state-At,
        Streams.read_state,
      )
      depth 20)

abbrev send_body : ℕ → ℕ → Bool → Bool → Source → ℕ → M Ret
send_body s size flush is_vectored source t = do
  count_send_call is_vectored
  send_checked s size flush source t

send_body-Follows :
    (s size : ℕ) (flush is_vectored : Bool) (source : Source) (t k : ℕ)
    → Follows forward k (send_body s size flush is_vectored source t)
send_body-Follows s size flush true source t k = search (rules, Data.send_checked-Follows) depth 20
send_body-Follows s size flush false source t k = search (rules, Data.send_checked-Follows) depth 20

-- The clock is read before the operation.
clocked-Advanced : (w v : World) → Advanced (now w).1 v → Advanced w v
unfolding now
clocked-Advanced w v a = record {
  conns = a.conns;
  streams = a.streams;
  addresses = a.addresses;
  depth = a.depth;
  sized = a.sized;
}

-- A call without an operation.
quiet_call :
    {A : Type 0} (m : M A) (w : World)
    → w.engine.operation_depth ≡ 0
    → Follows forward w.next_address m
    → Advanced w (m w).1
quiet_call m w h p = Evolves-Advanced w (m w).1 h (p.run w (omega arith))

module _ (w : World) (h : w.engine.operation_depth ≡ 0) where
  input-Advanced : (buf peer_addr : List ℕ) → Advanced w (engine_input buf peer_addr w).1
  unfolding engine_input
  input-Advanced buf peer_addr = elim (Bool-cases (length buf == 0)) [
    | inl e ↦ rw e (same-Advanced w h)
    | inr e ↦
        rw e
          (operation-Advanced (input_packet buf peer_addr) (input_packet-Follows buf peer_addr) w h)
  ]

  connect-Advanced :
      (peer_addr : List ℕ) (config : Option ConnConfig) (proto_ext : List ℕ)
      (callbacks : Option ConnCallbacks) (user_data : ℕ)
      → Advanced w (conn_connect peer_addr config proto_ext callbacks user_data w).1
  unfolding conn_connect
  connect-Advanced peer_addr config proto_ext callbacks user_data =
      operation-Advanced (open_conn peer_addr config proto_ext callbacks user_data)
        (λ k. Conns.open_conn-Follows peer_addr config proto_ext callbacks user_data) w h

  close_conn-Advanced : (c : ℕ) → Advanced w (conn_close c w).1
  unfolding conn_close
  close_conn-Advanced c = elim (Bool-cases (c == 0)) [
    | inl e ↦ rw e (same-Advanced w h)
    | inr e ↦ rw e (operation-Advanced (close_conn c) (λ k. Conns.close_conn-Follows c) w h)
  ]

  create_stream-Advanced :
      (c : ℕ) (config : Option StreamConfig) (callbacks : Option StreamCallbacks) (user_data : ℕ)
      → Advanced w (stream_create c config callbacks user_data w).1
  unfolding stream_create
  create_stream-Advanced c config callbacks user_data =
      elim (Bool-cases (c == 0 || (w.conns c).internal_closed)) [
        | inl e ↦ rw e (same-Advanced w h)
        | inr e ↦ rw e (
            operation-Advanced (create_body c config callbacks user_data)
              (create_body-Follows c config callbacks user_data) w h)
      ]

  close_stream-Advanced : (s : ℕ) → Advanced w (stream_close s w).1
  unfolding stream_close
  close_stream-Advanced s = elim (Bool-cases (s == 0)) [
    | inl e ↦ rw e (same-Advanced w h)
    | inr e ↦ rw e (operation-Advanced (close_body s) (close_body-Follows s) w h)
  ]

  send_chunks-Advanced :
      (s size : ℕ) (flush is_vectored : Bool) (source : Source)
      → Advanced w (send_chunks s size flush is_vectored source w).1
  unfolding send_chunks
  send_chunks-Advanced s size flush is_vectored source =
      clocked-Advanced w (send_chunks s size flush is_vectored source w).1 (
        operation-Advanced (send_body s size flush is_vectored source (now w).0)
          (send_body-Follows s size flush is_vectored source (now w).0) (now w).1 h)

  send-Advanced : (s : ℕ) (buf : List ℕ) (flush : Bool) → Advanced w (stream_send s buf flush w).1
  unfolding stream_send
  send-Advanced s buf flush =
      elim (Bool-cases (s == 0 || (ltb int_max (length buf) || (length buf == 0 && not flush)))) [
        | inl e ↦ rw e (same-Advanced w h)
        | inr e ↦ rw e (send_chunks-Advanced s (length buf) flush false (contiguous buf 0))
      ]

  sendv-Advanced :
      (s : ℕ) (iov : List Iovec) (flush : Bool) → Advanced w (stream_sendv s iov flush w).1
  unfolding stream_sendv
  sendv-Advanced s iov flush =
      elim (Bool-cases (
        s == 0
        || (any_dangling iov
            || (ltb int_max (total_len iov) || (total_len iov == 0 && not flush))))) [
              | inl e ↦ rw e (same-Advanced w h)
              | inr e ↦ rw e (
                  send_chunks-Advanced s (total_len iov) flush true
                    (vectored iov (skip_empty (length iov) iov (record { index = 0; offset = 0 }))))
            ]

-- A call, made from outside any operation.
engine_set_config-Follows :
    {k : ℕ} (config : EngineConfig) → Follows forward k (engine_set_config config)
unfolding engine_set_config
engine_set_config-Follows config =
    mod_engine-Follows (λ e. record e { config = config }) (λ e. refl) (λ e. refl)

after-Advanced :
    (call : Call) (w : World) → w.engine.operation_depth ≡ 0 → Advanced w (after call w)
unfolding after
after-Advanced Call.update_engine w h = engine_update-Advanced w h
after-Advanced Call.finish_batch w h = engine_finish_batch-Advanced w h
after-Advanced (Call.configure_engine config) w h =
    quiet_call (engine_set_config config) w h (engine_set_config-Follows config)
after-Advanced (Call.input buf peer_addr) w h = input-Advanced w h buf peer_addr
after-Advanced (Call.connect peer_addr config proto_ext callbacks user_data) w h =
    connect-Advanced w h peer_addr config proto_ext callbacks user_data
after-Advanced (Call.close_conn c) w h = close_conn-Advanced w h c
after-Advanced (Call.configure_conn c config) w h =
    quiet_call (conn_set_config c config) w h (Conns.conn_set_config-Follows c config)
after-Advanced (Call.set_conn_callbacks c callbacks user_data) w h =
    quiet_call (conn_set_callbacks c callbacks user_data) w h
      (Conns.conn_set_callbacks-Follows c callbacks user_data)
after-Advanced (Call.create_stream c config callbacks user_data) w h =
    create_stream-Advanced w h c config callbacks user_data
after-Advanced (Call.close_stream s) w h = close_stream-Advanced w h s
after-Advanced (Call.configure_stream s config) w h =
    quiet_call (stream_set_config s config) w h (Streams.stream_set_config-Follows s config)
after-Advanced (Call.set_stream_callbacks s callbacks user_data) w h =
    quiet_call (stream_set_callbacks s callbacks user_data) w h
      (Streams.stream_set_callbacks-Follows s callbacks user_data)
after-Advanced (Call.send s buf flush) w h = send-Advanced w h s buf flush
after-Advanced (Call.sendv s iov flush) w h = sendv-Advanced w h s iov flush
after-Advanced (Call.recv s size) w h =
    quiet_call (stream_recv s size) w h (Data.stream_recv-Follows s size)
after-Advanced (Call.finish_stream_batch s) w h =
    quiet_call (stream_finish_batch s) w h (Data.stream_finish_batch-Follows s)

Advanced-trans : (w v u : World) → Advanced w v → Advanced v u → Advanced w u
Advanced-trans w v u p q = record {
  conns = λ c below.
      IsForwardConn-trans (w.conns c) (v.conns c) (u.conns c) (p.conns c below)
        (q.conns c (omega (arith, p.addresses)));
  streams = λ s below.
      IsForwardStream-trans (w.streams s) (v.streams s) (u.streams s) (p.streams s below)
        (q.streams s (omega (arith, p.addresses)));
  addresses = omega (arith, p.addresses, q.addresses);
  depth = q.depth;
  sized = λ t. q.sized (p.sized t);
}

-- From any state outside an operation, whatever calls the host makes, in whatever order, and
-- whatever it answers: no connection and no stream that was there goes back to an earlier state or
-- close phase, a final state is kept, a closed object stays closed, and what names it stays; and
-- each call has left its operation.
pub Reach-Advanced : (w v : World) → w.engine.operation_depth ≡ 0 → Reach w v → Advanced w v
Reach-Advanced w v h here = same-Advanced w h
Reach-Advanced w v h (next {v = u} r call) =
    let a = Reach-Advanced w u h r in
    Advanced-trans w u (after call u) a (after-Advanced call u a.depth)

-- From an engine that has sent nothing, in any run of calls, every datagram that is handed to
-- `write_socketv` has at most KCPMUX_PROTO_MSG_MAX_LEN bytes: handshakes with any extension that
-- the host gives, and any packet that the KCP instance hands out.
pub Reach-AreSized :
    (w v : World) → w.engine.operation_depth ≡ 0 → w.trace ≡ [] → Reach w v → AreSized v.trace
Reach-AreSized w v h e r = (Reach-Advanced w v h r).sized (rw e tt)
