-- ===== src/Transfer/Chunks.antt =====
-- One chunk of a send of src/kcpmux_stream.c: the bytes that KCP is given.
use kcp_mux.Base.{
  ℕ, ◌≤◌, ◌≡◌, refl, sym, List, [], ◌∷◌, length, take, drop, true, Bool-cases, inl, inr,
}
use kcp_mux.World.{World, Event, KcpRet, kcp_sent, kcp_sent_vectored}
use kcp_mux.Vectored.Bytes.{flat, ahead, IsCursor, drop-drop, vectored_copy_correct}
use kcp_mux.Vectored.Advance.{vectored_advance_correct}
use kcp_mux.Transfer.{Source, contiguous, vectored, send_chunk, succeeded, vectored_copy}

-- The bytes that a send has still to take.
abbrev pub pending : Source → List ℕ
pending (contiguous buf offset) = drop offset buf
pending (vectored iov c) = ahead iov c

abbrev pub IsSource : Source → Type 0
IsSource (contiguous buf offset) = Unit {0}
IsSource (vectored iov c) = IsCursor iov c

-- The bytes that a call of `send` or `sendv` names.
abbrev pub sent_bytes : Event → List ℕ
sent_bytes (kcp_sent s bytes) = bytes
sent_bytes (kcp_sent_vectored s iov offset size) = take size (drop offset (flat iov))
sent_bytes _ = []

-- A call of `send` or `sendv` was made with the next `size` bytes, and if it succeeded, the
-- source has gone past them.
pub record ChunkSent (source : Source) (size : ℕ) (w : World) (r : (KcpRet × Source) × World)
    : Type 0 where
  pub event : Event
  pub trace : r.1.trace ≡ event ∷ w.trace
  pub bytes : sent_bytes event ≡ take size (pending source)
  pub accepted :
      succeeded r.0.0 ≡ true → IsSource r.0.1 × (pending r.0.1 ≡ drop size (pending source))

pub send_chunk_lem :
    (s : ℕ) (source : Source) (size : ℕ) (w : World)
    → IsSource source
    → size ≤ length (pending source)
    → ChunkSent source size w (send_chunk s source size w)
unfolding send_chunk
send_chunk_lem s (contiguous buf offset) size w v h = record {
  event = kcp_sent s (take size (drop offset buf));
  trace = refl;
  bytes = refl;
  accepted = λ e. (tt, rw e (sym (drop-drop size offset buf)));
}
send_chunk_lem s (vectored iov c) size w v h =
    let (advanced, _) = vectored_advance_correct iov c size v h in
    elim (Bool-cases w.engine.sendv) [
      | inl gather ↦ rw gather (record {
        event = kcp_sent_vectored s (drop c.index iov) c.offset size;
        trace = refl;
        bytes = refl;
        accepted = λ e. rw e advanced;
      })
      | inr copy ↦ rw copy (record {
        event = kcp_sent s (vectored_copy iov c size);
        trace = refl;
        bytes = vectored_copy_correct iov c size v h;
        accepted = λ e. rw e advanced;
      })
    ]
