-- ===== src/Transfer.antt =====
-- src/kcpmux_stream.c: sending, batching and receiving on a stream.
pub mod Chunks
pub mod Delivery
pub mod Reads
mod Examples
use kcp_mux.Base.{
  ℕ, zero, suc, ◌+◌, ◌-◌, ◌^◌, ◌==◌, ltb, leb, if◌then◌else◌, Bool, true, false, not, ◌&&◌, ◌||◌,
  List, length, take, drop, remove,
}
use kcp_mux.Types.{
  Ret, ok, err, Status, StreamState, ClosePhase, ConnState, conn_is, stream_is, phase_is, Iovec,
}
use kcp_mux.Vectored.{Cursor, vectored_advance, vectored_copy, skip_empty}
use kcp_mux.World.{
  Conn, from_kcp, from_ret, M, ◌>>=◌, ◌>>◌, return, skip, when, ask, Host, get_conn, get_stream,
  get_engine, mod_stream, mod_engine, emit, Stream, KcpRet, done, failed, kcp_sent,
  kcp_sent_vectored, kcp_read, kcp_current_updated,
}
use kcp_mux.World.Stats.{plus}
use kcp_mux.Engine.{
  now, operation_enter, operation_leave, schedule_timer_node, any_dangling, total_len,
}
use kcp_mux.Stream.{
  mark_read_blocked, clear_pending, schedule_finalize, accumulate_update, kcp_update, below_int,
}

-- The context of a send: where its bytes are and how far they have been taken.
pub data Source : Type 0 where
  contiguous : List ℕ → ℕ → Source
  vectored : List Iovec → Cursor → Source

abbrev pub int_max : ℕ
int_max = 2 ^ 31 - 1

abbrev pub succeeded : KcpRet → Bool
succeeded (done n) = true
succeeded (failed n) = false

-- kcpmux_stream_send_contiguous_chunk and kcpmux_stream_send_vectored_chunk
unfoldable pub send_chunk : ℕ → Source → ℕ → M (KcpRet × Source)
unfolding vectored_advance vectored_copy
send_chunk s (contiguous buf offset) size = do
  emit (kcp_sent s (take size (drop offset buf)))
  ret ← ask Host.kcp_send
  return (ret, contiguous buf (if succeeded ret then offset + size else offset))
send_chunk s (vectored iov c) size = do
  engine ← get_engine
  if engine.sendv
      then emit (kcp_sent_vectored s (drop c.index iov) c.offset size)
      else emit (kcp_sent s (vectored_copy iov c size))
  ret ← ask Host.kcp_send
  return (ret, vectored iov (if succeeded ret then vectored_advance iov c size else c))

-- What follows a chunk: the error of a first chunk, the end of the loop, or its next round.
abbrev pub after_chunk : KcpRet → ℕ → M Ret → M Ret
after_chunk (done n) total_sent next = next
after_chunk (failed n) total_sent next =
    if total_sent == 0 then return (err (Status.kcp_ret n)) else return (ok total_sent)

-- The loop over the chunks; the MSS is not 0, so `size` rounds are enough. The result is what was
-- sent, or the error of the first chunk.
unfoldable pub send_loop : ℕ → ℕ → Source → ℕ → ℕ → ℕ → M Ret
unfolding send_chunk
send_loop zero s source chunk_size remaining total_sent w = (ok total_sent, w)
send_loop (suc fuel) s source chunk_size remaining total_sent w =
    let send_size = if ltb remaining chunk_size then remaining else chunk_size in
    let r = send_chunk s source send_size w in
    let next =
      send_loop fuel s r.0.1 chunk_size (remaining - send_size) (total_sent + send_size) r.1 in
    let all = after_chunk r.0.0 total_sent (λ w'. next) r.1 in
    if remaining == 0 then (ok total_sent, w) else all

-- The update after a send: at once for a flush, and batched otherwise.
unfoldable pub send_update : ℕ → Bool → ℕ → M (Unit {0})
unfolding clear_pending kcp_update schedule_timer_node accumulate_update
send_update s flush t =
    if flush
    then (do
      clear_pending s
      kcp_update s t
      deadline_ms ← ask Host.kcp_check
      _ ← schedule_timer_node s deadline_ms t
      skip)
    else accumulate_update s t

abbrev pub count_send_call : Bool → M (Unit {0})
count_send_call is_vectored = mod_engine (λ e. record e {
  stats =
      if is_vectored
      then record (e.stats) { api_stream_sendv_calls = plus e.stats.api_stream_sendv_calls 1 }
      else record (e.stats) { api_stream_send_calls = plus e.stats.api_stream_send_calls 1 };
})

abbrev note_write_blocked : ℕ → ℕ → M (Unit {0})
note_write_blocked s t = do
  stream ← get_stream s
  when (not stream.write_blocked) (
      mod_stream s (λ x. record x {
        write_block_start_ts = t;
        write_blocked = true;
        stats = record (x.stats) { write_block_count = plus x.stats.write_block_count 1 };
      }))

-- The chunks of an open stream that is not paused, and what follows them.
unfoldable pub send_data : ℕ → ℕ → Bool → Source → ℕ → M Ret
unfolding send_loop send_update
send_data s size flush source t = do
  stream ← get_stream s
  emit (kcp_current_updated s t)
  ret ← send_loop size s source stream.config.kcp_mss size 0
  from_ret ret (λ e. return (err e))
      (λ total_sent. do
        mod_stream s (λ x. record x {
          stats = record (x.stats) { up_sent_bytes = plus x.stats.up_sent_bytes total_sent };
        })
        when (not (total_sent == 0 && not flush)) (send_update s flush t)
        return (ok total_sent))

-- `waitsnd` is asked for only if there is something to send.
abbrev ask_paused : ℕ → Stream → M Bool
ask_paused size stream = if size == 0 then return false else (do
  waitsnd ← ask Host.kcp_waitsnd
  return (not (below_int waitsnd stream.config.send_pause_threshold)))

unfoldable pub send_checked : ℕ → ℕ → Bool → Source → ℕ → M Ret
unfolding send_data below_int
send_checked s size flush source t = do
  stream ← get_stream s
  conn ← get_conn stream.conn
  if stream.internal_closed
      then return (err Status.closed)
      else if not (stream_is stream.state StreamState.open_state)
          || not (conn_is conn.state ConnState.connected)
      then return (err Status.state)
      else (do
        paused ← ask_paused size stream
        if paused
            then (do note_write_blocked s t; return (ok 0))
            else send_data s size flush source t)

-- kcpmux_stream_send_chunks; every path leaves the operation.
unfoldable pub send_chunks : ℕ → ℕ → Bool → Bool → Source → M Ret
unfolding now operation_enter operation_leave send_checked
send_chunks s size flush is_vectored source = do
  t ← now
  operation_enter
  count_send_call is_vectored
  ret ← send_checked s size flush source t
  operation_leave
  return ret

-- The buffer is not NULL, and `size` is its length.
unfoldable pub stream_send : ℕ → List ℕ → Bool → M Ret
unfolding send_chunks
stream_send s buf flush =
    let size = length buf in
    if s == 0 || (ltb int_max size || (size == 0 && not flush))
    then return (err Status.invalid_param)
    else send_chunks s size flush false (contiguous buf 0)

-- The running total is tested after each fragment, so the sum is what is tested here.
unfoldable pub stream_sendv : ℕ → List Iovec → Bool → M Ret
unfolding send_chunks any_dangling total_len skip_empty
stream_sendv s iov flush =
    let total = total_len iov in
    if s == 0 || (any_dangling iov || (ltb int_max total || (total == 0 && not flush)))
    then return (err Status.invalid_param)
    else send_chunks s total flush true
        (vectored iov (skip_empty (length iov) iov (record { index = 0; offset = 0 })))

-- An open stream has updates that were put off, and fewer than its threshold.
abbrev pub batch_waits : Conn → Stream → Bool
batch_waits conn stream =
    let threshold = stream.config.batch_threshold in
    not (
      stream.internal_closed
      || (stream.pending_count == 0
          || (not (stream_is stream.state StreamState.open_state)
              || (not (conn_is conn.state ConnState.connected)
                  || (ltb 1 threshold && leb threshold stream.pending_count)))))

-- kcpmux_stream_finish_batch_at
unfoldable pub finish_batch_at : ℕ → ℕ → M (Unit {0})
unfolding schedule_timer_node
finish_batch_at s t = do
  stream ← get_stream s
  conn ← get_conn stream.conn
  let threshold = stream.config.batch_threshold
  when (batch_waits conn stream) (do
    mod_engine (λ e. record e { pending_batch_streams = remove e.pending_batch_streams s })
    mod_stream s (λ x. record x { pending_count = if ltb 1 threshold then threshold else 0 })
    _ ← schedule_timer_node s t t
    skip)

unfoldable pub stream_finish_batch : ℕ → M (Unit {0})
unfolding finish_batch_at now
stream_finish_batch s = when (not (s == 0)) (do t ← now; finish_batch_at s t)

-- `ret > 0 ? ret : 0`
abbrev pub readable : KcpRet → ℕ
readable (done n) = n
readable (failed n) = 0

abbrev pub remote_draining : Stream → Bool
remote_draining x =
    stream_is x.state StreamState.closing && phase_is x.close_phase ClosePhase.remote_drain

unfoldable pub stream_peek_size : ℕ → M Ret
stream_peek_size s = do
  stream ← get_stream s
  if s == 0
      then return (err Status.invalid_param)
      else if stream.internal_closed
      then return (err Status.closed)
      else if not (stream_is stream.state StreamState.open_state) && not (remote_draining stream)
      then return (err Status.state)
      else (do ret ← ask Host.kcp_peeksize; return (ok (readable ret)))

-- What follows a successful receive: a drained stream is finalized, and an open one is blocked
-- once nothing is left to read.
unfoldable pub after_recv : ℕ → M (Unit {0})
unfolding now schedule_finalize mark_read_blocked
after_recv s = do
  left ← ask Host.kcp_peeksize
  when (readable left == 0) (do
    t ← now
    stream ← get_stream s
    if remote_draining stream
        then schedule_finalize s stream.close_reason t
        else when (stream_is stream.state StreamState.open_state) (mark_read_blocked s t))

unfoldable pub recv_message : ℕ → ℕ → M Ret
unfolding after_recv
recv_message s peek_size = do
  emit (kcp_read s peek_size)
  ret ← ask Host.kcp_recv
  from_kcp ret (λ n. return (err (Status.kcp_ret n)))
      (λ n. do
        mod_stream s (λ x. record x {
          stats = record (x.stats) { up_recv_bytes = plus x.stats.up_recv_bytes n };
        })
        after_recv s
        return (ok n))

-- What follows the answer of kcpmux_stream_peek_size.
unfoldable pub recv_peeked : ℕ → ℕ → Ret → M Ret
unfolding recv_message mark_read_blocked now
recv_peeked s size (Ret.err e) = return (err e)
recv_peeked s size (Ret.ok peek_size) =
    if ltb size peek_size
    then return (err Status.buffer_too_small)
    else if peek_size == 0
    then (do t ← now; mark_read_blocked s t; return (ok 0))
    else recv_message s peek_size

-- `size` is the room in the caller's buffer, which is not NULL.
unfoldable pub stream_recv : ℕ → ℕ → M Ret
unfolding stream_peek_size recv_peeked
stream_recv s size = if s == 0 || size == 0 then return (err Status.invalid_param) else (do
  mod_engine (λ e. record e {
    stats = record (e.stats) { api_stream_recv_calls = plus e.stats.api_stream_recv_calls 1 };
  })
  peek ← stream_peek_size s
  recv_peeked s size peek)
