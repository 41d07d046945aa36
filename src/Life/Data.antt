-- ===== src/Life/Data.antt =====
-- Sending, batching and receiving in src/kcpmux_stream.c: streams only go forward.
use kcp_mux.Base.{
  ℕ, zero, suc, ◌+◌, ◌-◌, ◌==◌, ltb, if◌then◌else◌, Bool, Bool-cases, inl, inr, arith,
}
use kcp_mux.Types.{Ret, ok}
use kcp_mux.World.{World, KcpRet, done, failed}
use kcp_mux.Transfer.{
  Source, contiguous, vectored, send_chunk, send_loop, send_update, send_data, send_checked,
  after_chunk, finish_batch_at, stream_finish_batch, stream_peek_size, after_recv, recv_message,
  recv_peeked, stream_recv,
}
use kcp_mux.Life.Relation.{Rel, Evolves, Evolves-trans, Follows}
use kcp_mux.Life.Changes.{rules}
use kcp_mux.Life.Combinators.{same-Evolves, if-Evolves}
use kcp_mux.Life.Timing.{schedule_timer_node-Follows}
use kcp_mux.Life.Quiet.{
  mark_read_blocked-Follows, clear_pending-Follows, accumulate_update-Follows, kcp_update-Follows,
}
use kcp_mux.Life.Moves.{schedule_finalize-Follows}
use kcp_mux.Life.Forward.{forward}

module _ {r : Rel} {k : ℕ} where
  send_chunk-Follows : (s : ℕ) (source : Source) (size : ℕ) → Follows r k (send_chunk s source size)
  unfolding send_chunk
  send_chunk-Follows s (contiguous buf offset) size = search rules depth 20
  send_chunk-Follows s (vectored iov c) size = search rules depth 20

  -- A chunk failed and the loop ends, or its next round follows.
  after_chunk-Evolves :
      (w v : World) (next : Ret × World) (ret : KcpRet) (total_sent : ℕ)
      → Evolves r k w v
      → Evolves r k w next.1
      → Evolves r k w (after_chunk ret total_sent (λ u. next) v).1
  after_chunk-Evolves w v next (done n) total_sent p q = q
  after_chunk-Evolves w v next (failed n) total_sent p q = elim (Bool-cases (total_sent == 0)) [
    | inl e ↦ rw e p
    | inr e ↦ rw e p
  ]

  send_loop-Follows :
      (fuel s : ℕ) (source : Source) (chunk_size remaining total_sent : ℕ)
      → Follows r k (send_loop fuel s source chunk_size remaining total_sent)
  unfolding send_loop
  send_loop-Follows zero s source chunk_size remaining total_sent = record {
    run = λ w h. same-Evolves w;
  }
  send_loop-Follows (suc fuel) s source chunk_size remaining total_sent = record {
    run = λ w h.
        let send_size = if ltb remaining chunk_size then remaining else chunk_size in
        let sent = send_chunk s source send_size w in
        let first = (send_chunk-Follows s source send_size).run w h in
        let next =
          send_loop fuel s sent.0.1 chunk_size (remaining - send_size) (total_sent + send_size)
            sent.1 in
        let rest =
          (send_loop-Follows fuel s sent.0.1 chunk_size (remaining - send_size)
              (total_sent + send_size)).run
            sent.1 (omega (arith, first.addresses)) in
        if-Evolves w (remaining == 0) (ok total_sent, w)
          (after_chunk sent.0.0 total_sent (λ v. next) sent.1) (same-Evolves w)
          (after_chunk-Evolves w sent.1 next sent.0.0 total_sent first
            (Evolves-trans r k w sent.1 next.1 first rest));
  }

  send_update-Follows : (s : ℕ) (flush : Bool) (t : ℕ) → Follows r k (send_update s flush t)
  unfolding send_update
  send_update-Follows s flush t =
      search
        (
          rules, clear_pending-Follows, kcp_update-Follows, schedule_timer_node-Follows,
          accumulate_update-Follows,
        )
        depth 20

  send_data-Follows :
      (s size : ℕ) (flush : Bool) (source : Source) (t : ℕ)
      → Follows r k (send_data s size flush source t)
  unfolding send_data
  send_data-Follows s size flush source t =
      search (rules, send_loop-Follows, send_update-Follows) depth 20

  pub send_checked-Follows :
      (s size : ℕ) (flush : Bool) (source : Source) (t : ℕ)
      → Follows r k (send_checked s size flush source t)
  unfolding send_checked
  send_checked-Follows s size flush source t = search (rules, send_data-Follows) depth 20

  pub finish_batch_at-Follows : (s t : ℕ) → Follows r k (finish_batch_at s t)
  unfolding finish_batch_at
  finish_batch_at-Follows s t = search (rules, schedule_timer_node-Follows) depth 20

  pub stream_finish_batch-Follows : (s : ℕ) → Follows r k (stream_finish_batch s)
  unfolding stream_finish_batch
  stream_finish_batch-Follows s = search (rules, finish_batch_at-Follows) depth 20

  pub stream_peek_size-Follows : (s : ℕ) → Follows r k (stream_peek_size s)
  unfolding stream_peek_size
  stream_peek_size-Follows s = search rules depth 20

module _ {k : ℕ} where
  after_recv-Follows : (s : ℕ) → Follows forward k (after_recv s)
  unfolding after_recv
  after_recv-Follows s =
      search (rules, schedule_finalize-Follows, mark_read_blocked-Follows) depth 20

  recv_message-Follows : (s peek_size : ℕ) → Follows forward k (recv_message s peek_size)
  unfolding recv_message
  recv_message-Follows s peek_size = search (rules, after_recv-Follows) depth 20

  recv_peeked-Follows : (s size : ℕ) (peek : Ret) → Follows forward k (recv_peeked s size peek)
  unfolding recv_peeked
  recv_peeked-Follows s size (Ret.err e) = search rules depth 20
  recv_peeked-Follows s size (Ret.ok n) =
      search (rules, recv_message-Follows, mark_read_blocked-Follows) depth 20

  pub stream_recv-Follows : (s size : ℕ) → Follows forward k (stream_recv s size)
  unfolding stream_recv
  stream_recv-Follows s size =
      search (rules, stream_peek_size-Follows, recv_peeked-Follows) depth 20
