-- ===== src/ConnLife/Examples.antt =====
-- The end of a connection of src/kcpmux_conn.c with two streams.
use kcp_mux.Base.{ℕ, ◌≡◌, true, false, refl, [], ◌∷◌, update}
use kcp_mux.Types.{ConnState}
use kcp_mux.World.{World, conn_release, stream_free}
use kcp_mux.Loop.{blank_world}
use kcp_mux.Scenarios.{fresh}
use kcp_mux.ConnLife.{conn_close_internal}
use kcp_mux.ConnLife.Closing.{ConnEnded, conn_close_internal_correct}

abbrev connected : World
connected = record fresh {
  conns = update fresh.conns 1 (record (fresh.conns 1) {
    state = ConnState.connected;
    stream_map = record { hashtable = (3 ∷ 2 ∷ []) ∷ []; num = 2 };
  });
}

frees_streams_first :
    (conn_close_internal 1 0 connected).1.engine.pending_release_list
    ≡ stream_free 3 ∷ stream_free 2 ∷ conn_release 1 ∷ []
unfolding conn_close_internal blank_world
frees_streams_first = refl

all_open : (s : ℕ) → (connected.streams s).internal_closed ≡ false
unfolding blank_world
all_open s = refl

conn_close_internal_correct_example :
    ((connected.conns 1).internal_closed ≡ false
      → ConnEnded 1 connected (conn_close_internal 1 0 connected).1)
    × ((connected.conns 1).internal_closed ≡ true
        → (conn_close_internal 1 0 connected).1 ≡ connected)
conn_close_internal_correct_example =
    conn_close_internal_correct 1 0 connected (refl, (refl, tt)) (λ s h. all_open s)
