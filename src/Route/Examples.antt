-- ===== src/Route/Examples.antt =====
-- Stream IDs of src/kcpmux_conn.c around the end of the 32-bit numbers.
use kcp_mux.Base.{ℕ, ◌%◌, ◌≡◌, ◌≢◌, ◌↔◌, ◌⊎◌, arith, refl, true, false, [], update}
use kcp_mux.World.{World, Conn}
use kcp_mux.Loop.{blank_world}
use kcp_mux.Scenarios.{fresh}
use kcp_mux.Route.{alloc_stream_id, is_new_peer_stream_id, get_stream_by_id}
use kcp_mux.Route.StreamIds.{Allocated, alloc_stream_id_correct}
use kcp_mux.Route.PeerIds.{SerialAfter, is_new_peer_stream_id_iff, old_peer_stream_id_refused}

-- An acceptor that gave out all even IDs.
abbrev acceptor : Conn
acceptor = record (fresh.conns 1) {
  is_initiator = 0;
  next_stream_id = 0;
  stream_count = 0;
  latest_peer_stream_id = 0xfffffffd;
  peer_stream_id_initialized = true;
  stream_map = record { hashtable = []; num = 0 };
}

abbrev world : World
world = record fresh { conns = update fresh.conns 1 acceptor }

starts_again : (alloc_stream_id 1 world).0 ≡ 2
unfolding alloc_stream_id blank_world
starts_again = refl

no_streams : (id : ℕ) → get_stream_by_id world 1 id ≡ 0
unfolding get_stream_by_id
no_streams id = refl

alloc_stream_id_correct_example : Allocated world 1 (alloc_stream_id 1 world)
alloc_stream_id_correct_example =
    alloc_stream_id_correct world 1 [] (omega arith) (omega arith, omega arith) (omega arith)
      (omega arith) (λ id h. absurd (h (no_streams id)))

abbrev wrapped_id : ℕ
wrapped_id = 3

is_new_peer_stream_id_iff_example : (is_new_peer_stream_id acceptor wrapped_id ≡ true) ↔ (
    (wrapped_id ≢ 0)
    × (wrapped_id % 2 ≢ acceptor.is_initiator)
    × ((acceptor.peer_stream_id_initialized ≡ false)
        ⊎ SerialAfter acceptor.latest_peer_stream_id wrapped_id))
is_new_peer_stream_id_iff_example =
    is_new_peer_stream_id_iff acceptor wrapped_id (omega arith) (omega arith)

accepts_wrapped : is_new_peer_stream_id acceptor 3 ≡ true
unfolding is_new_peer_stream_id
accepts_wrapped = refl

old_peer_stream_id_refused_example :
    is_new_peer_stream_id (record acceptor { latest_peer_stream_id = 3 }) 0xfffffffd ≡ false
old_peer_stream_id_refused_example =
    old_peer_stream_id_refused acceptor 3 (omega arith) (omega arith) refl accepts_wrapped
