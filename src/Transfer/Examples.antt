-- ===== src/Transfer/Examples.antt =====
-- A vectored send of src/kcpmux_stream.c in chunks of two bytes, and a receive.
use kcp_mux.Base.{true, update, ◌≡◌, refl, arith, [], ◌∷◌, map}
use kcp_mux.World.{World, done}
use kcp_mux.Types.{Status, StreamState, err, fragment}
use kcp_mux.Transfer.{Source, vectored, send_loop, stream_recv}
use kcp_mux.Transfer.Reads.{IsBounded, read_sizes, stream_recv-IsBounded}
use kcp_mux.Transfer.Chunks.{sent_bytes}
use kcp_mux.Transfer.Delivery.{Delivered, send_loop_correct}
use kcp_mux.Loop.{blank_world}
use kcp_mux.Scenarios.{fresh}

abbrev source : Source
source =
    vectored (fragment (1 ∷ 2 ∷ 3 ∷ []) ∷ fragment (4 ∷ 5 ∷ []) ∷ [])
      (record { index = 0; offset = 0 })

sends_chunks :
    map sent_bytes (send_loop 5 1 source 2 5 0 fresh).1.trace
    ≡ (5 ∷ []) ∷ (3 ∷ 4 ∷ []) ∷ (1 ∷ 2 ∷ []) ∷ []
unfolding send_loop blank_world
sends_chunks = refl

send_loop_correct_example : Delivered source 2 5 0 fresh (send_loop 5 1 source 2 5 0 fresh)
send_loop_correct_example =
    send_loop_correct 5 1 source 2 5 0 fresh (omega arith) (omega arith) (omega arith, omega arith)
      (omega arith)

-- A stream with a message of three bytes to read.
abbrev readable_world : World
readable_world = record fresh {
  host = record (fresh.host) { kcp_peeksize = λ n. done 3; kcp_recv = λ n. done 3 };
  streams =
      update fresh.streams 2
        (record (fresh.streams 2) { state = StreamState.open_state; kcp = true });
}

refuses_small_buffer : (stream_recv 2 2 readable_world).0 ≡ err Status.buffer_too_small
unfolding stream_recv blank_world
refuses_small_buffer = refl

reads_message : read_sizes (stream_recv 2 8 readable_world).1.trace ≡ 3 ∷ []
unfolding stream_recv blank_world
reads_message = refl

stream_recv-IsBounded_example : IsBounded 8 readable_world (stream_recv 2 8 readable_world).1
stream_recv-IsBounded_example = stream_recv-IsBounded 2 8 readable_world
