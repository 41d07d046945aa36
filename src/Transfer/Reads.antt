-- ===== src/Transfer/Reads.antt =====
-- kcpmux_stream_recv in src/kcpmux_stream.c: how much is read into the caller's buffer.
use kcp_mux.Base.{
  ℕ, ◌≤◌, ◌<◌, ◌≡◌, ◌⊎◌, inl, inr, refl, arith, List, [], ◌∷◌, true, false, Bool-cases,
  Option-cases, ltb, ◌==◌, ◌&&◌, ◌||◌, not, Bool, if◌then◌else◌, suc, ltb→ge,
}
use kcp_mux.Types.{Ret, ok, err, Status, StreamState, stream_is, is_ok}
use kcp_mux.Timer.{peek, schedule}
use kcp_mux.World.{World, Event, Host, mod_stream, ask, emit, kcp_read}
use kcp_mux.World.Stats.{plus}
use kcp_mux.Engine.{now, rearm_timer, schedule_timer_node}
use kcp_mux.Stream.{schedule_finalize, mark_read_blocked, clear_pending}
use kcp_mux.Transfer.{
  stream_recv, recv_peeked, recv_message, after_recv, stream_peek_size, readable, remote_draining,
  when, mod_stream, ClosePhase,
}
use kcp_mux.Transfer.Delivery.{KcpRet-cases}

-- The sizes with which KCP was asked to read, newest first.
abbrev pub read_sizes : List Event → List ℕ
read_sizes [] = []
read_sizes (kcp_read s n ∷ es) = n ∷ read_sizes es
read_sizes (_ ∷ es) = read_sizes es

abbrev pub NoReads : World → World → Type 0
NoReads w w' = read_sizes w'.trace ≡ read_sizes w.trace

rearm_timer-NoReads : (t : ℕ) (w : World) → NoReads w (rearm_timer t w).1
unfolding rearm_timer
rearm_timer-NoReads t w = elim (Bool-cases (ltb 0 w.engine.operation_depth)) [
  | inl e ↦ rw e refl
  | inr e ↦ rw e (elim (Option-cases (peek w.timers)) [
    | inl n ↦ rw n refl
    | inr (root, n) ↦
        rw n
          (elim (Bool-cases (
            w.engine.external_timer_armed
            && w.engine.external_timer_deadline_ms == (w.timers.nodes root).deadline_ms)) [
              | inl b ↦ rw b refl
              | inr b ↦ rw b refl
            ])
  ])
]

rearmed_when : (b : Bool) (t : ℕ) (w : World) → NoReads w (when b (rearm_timer t) w).1
rearmed_when true t w = rearm_timer-NoReads t w
rearmed_when false t w = refl

schedule_timer_node-NoReads :
    (node deadline_ms t : ℕ) (w : World) → NoReads w (schedule_timer_node node deadline_ms t w).1
unfolding schedule_timer_node
schedule_timer_node-NoReads node deadline_ms t w = elim (Bool-cases (w.timers.nodes node).owner) [
  | inl e ↦
      let r =
        schedule (w.host.malloc_ok w.calls) w.timers node
          (if ltb deadline_ms t then t else deadline_ms) in
      rw e (rearmed_when (is_ok r.1) t (record w { calls = suc w.calls; timers = r.0 }))
  | inr e ↦ rw e refl
]

schedule_finalize-NoReads :
    (s reason t : ℕ) (w : World) → NoReads w (schedule_finalize s reason t w).1
unfolding schedule_finalize
schedule_finalize-NoReads s reason t w =
    let w1 : World =
      (clear_pending s
        (mod_stream s (λ x. record x { close_reason = reason; close_phase = ClosePhase.finalize })
          w).1).1 in
    schedule_timer_node-NoReads s t t w1

mark_read_blocked-NoReads : (s t : ℕ) (w : World) → NoReads w (mark_read_blocked s t w).1
unfolding mark_read_blocked
mark_read_blocked-NoReads s t w = elim (Bool-cases (w.streams s).read_blocked) [
  | inl e ↦ rw e refl
  | inr e ↦ rw e refl
]

marked_when : (b : Bool) (s t : ℕ) (w : World) → NoReads w (when b (mark_read_blocked s t) w).1
marked_when true s t w = mark_read_blocked-NoReads s t w
marked_when false s t w = refl

after_recv-NoReads : (s : ℕ) (w : World) → NoReads w (after_recv s w).1
unfolding after_recv
after_recv-NoReads s w =
    let asked : World = record w { calls = suc w.calls } in
    let clock = now asked in
    let x = w.streams s in
    elim (Bool-cases (readable (w.host.kcp_peeksize w.calls) == 0)) [
      | inl e ↦ rw e (elim (Bool-cases (remote_draining x)) [
        | inl d ↦ rw d (schedule_finalize-NoReads s x.close_reason clock.0 clock.1)
        | inr d ↦ rw d (marked_when (stream_is x.state StreamState.open_state) s clock.0 clock.1)
      ])
      | inr e ↦ rw e refl
    ]

-- At most one read was asked for, of at least one byte and at most `size`.
abbrev pub IsBounded : ℕ → World → World → Type 0
IsBounded size w w' =
    NoReads w w' ⊎ ((n : ℕ) × (0 < n) × (n ≤ size) × (read_sizes w'.trace ≡ n ∷ read_sizes w.trace))

recv_message_lem :
    (s n : ℕ) (w : World) → read_sizes (recv_message s n w).1.trace ≡ n ∷ read_sizes w.trace
unfolding recv_message
recv_message_lem s n w = elim (KcpRet-cases (w.host.kcp_recv w.calls)) [
  | inl (k, e) ↦
      let w1 : World =
        (mod_stream s
          (λ x. record x {
            stats = record (x.stats) { up_recv_bytes = plus x.stats.up_recv_bytes k };
          })
          (ask Host.kcp_recv (emit (kcp_read s n) w).1).1).1 in
      rw e (after_recv-NoReads s w1)
  | inr (k, e) ↦ rw e refl
]

recv_peeked_lem : (s size : ℕ) (p : Ret) (w : World) → IsBounded size w (recv_peeked s size p w).1
unfolding recv_peeked
recv_peeked_lem s size (err e) w = inl refl
recv_peeked_lem s size (ok n) w = elim (Bool-cases (ltb size n)) [
  | inl big ↦ rw big (inl refl)
  | inr fits ↦ rw fits (elim (Bool-cases (n == 0)) [
    | inl e ↦ let clock = now w in rw e (inl (mark_read_blocked-NoReads s clock.0 clock.1))
    | inr e ↦ rw e (inr (n, ground arith, ltb→ge size n fits, recv_message_lem s n w))
  ])
]

peek_size_trace : (s : ℕ) (w : World) → (stream_peek_size s w).1.trace ≡ w.trace
unfolding stream_peek_size
peek_size_trace s w =
    let x = w.streams s in
    elim (Bool-cases (s == 0)) [
      | inl a ↦ rw a refl
      | inr a ↦ rw a (elim (Bool-cases x.internal_closed) [
        | inl b ↦ rw b refl
        | inr b ↦
            rw b
              (elim (Bool-cases
                (not (stream_is x.state StreamState.open_state) && not (remote_draining x))) [
                  | inl c ↦ rw c refl
                  | inr c ↦ rw c refl
                ])
      ])
    ]

abbrev counted_recv : World → World
counted_recv w = record w {
  engine = record (w.engine) {
    stats = record (w.engine.stats) {
      api_stream_recv_calls = plus w.engine.stats.api_stream_recv_calls 1;
    };
  };
}

recv_steps :
    (s size : ℕ) (w : World)
    → (s == 0 || size == 0) ≡ false
    → let r = stream_peek_size s (counted_recv w) in
      stream_recv s size w ≡ recv_peeked s size r.0 r.1
unfolding stream_recv
recv_steps s size w e = rw e refl

recv_nothing :
    (s size : ℕ) (w : World)
    → (s == 0 || size == 0) ≡ true
    → stream_recv s size w ≡ (err Status.invalid_param, w)
unfolding stream_recv
recv_nothing s size w e = rw e refl

-- kcpmux_stream_recv, in every state of the stream and with any answers of KCP, asks KCP for at
-- most one read, and never for more bytes than the caller's buffer has.
pub stream_recv-IsBounded : (s size : ℕ) (w : World) → IsBounded size w (stream_recv s size w).1
stream_recv-IsBounded s size w =
    let r = stream_peek_size s (counted_recv w) in
    let same : r.1.trace ≡ w.trace = peek_size_trace s (counted_recv w) in
    elim (Bool-cases (s == 0 || size == 0)) [
      | inl e ↦ rw (recv_nothing s size w e) (inl refl)
      | inr e ↦ rw (recv_steps s size w e) (rw same at (recv_peeked_lem s size r.0 r.1))
    ]
