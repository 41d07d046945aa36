-- ===== src/Stream/Examples.antt =====
-- The end of an open stream of src/kcpmux_stream.c.
use kcp_mux.Base.{◌≡◌, true, false, refl, [], ◌∷◌, update}
use kcp_mux.Types.{StreamState}
use kcp_mux.World.{World}
use kcp_mux.Loop.{blank_world}
use kcp_mux.Scenarios.{fresh}
use kcp_mux.Stream.{stream_close_internal}
use kcp_mux.Stream.Closing.{Ended, stream_close_internal_correct}

-- Stream 2 waits in a batch.
abbrev batching : World
batching = record fresh {
  streams =
      update fresh.streams 2 (record (fresh.streams 2) {
        state = StreamState.open_state;
        kcp = true;
        pending_count = 1;
      });
  engine = record (fresh.engine) { pending_batch_streams = 2 ∷ [] };
}

leaves_batch : (stream_close_internal 2 0 batching).1.engine.pending_batch_streams ≡ []
unfolding stream_close_internal blank_world
leaves_batch = refl

stream_close_internal_correct_example :
    ((batching.streams 2).internal_closed ≡ false
      → Ended 2 batching (stream_close_internal 2 0 batching).1)
    × ((batching.streams 2).internal_closed ≡ true
        → (stream_close_internal 2 0 batching).1 ≡ batching)
stream_close_internal_correct_example = stream_close_internal_correct 2 0 batching
