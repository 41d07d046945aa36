-- ===== src/Transfer/Delivery.antt =====
-- The whole loop of kcpmux_stream_send_chunks in src/kcpmux_stream.c: what KCP is given, and what
-- the caller is told.
use native.Mathlib.Nat.{add-zero}
use kcp_mux.Base.{
  ℕ, zero, suc, ◌+◌, ◌-◌, ◌≤◌, ◌<◌, ◌≡◌, refl, sym, ◌∙◌, ap, arith, List, [], ◌∷◌, ◌++◌, length,
  take, drop, false, ltb, ◌==◌, if◌then◌else◌, Bool-cases, inl, inr, ◌⊎◌, append_assoc, append-nil,
  length-take, length-drop,
}
use kcp_mux.Types.{Ret, ok, err, Status}
use kcp_mux.World.{World, Event, KcpRet, done, failed}
use kcp_mux.Transfer.{Source, send_chunk, send_loop, after_chunk}
use kcp_mux.Transfer.Chunks.{pending, IsSource, sent_bytes, ChunkSent, send_chunk_lem}

-- The bytes of calls that are listed newest first, in the order of the calls.
abbrev pub joined : List Event → List ℕ
joined [] = []
joined (e ∷ es) = joined es ++ sent_bytes e

-- No call names more bytes than a chunk has.
abbrev pub IsChunked : ℕ → List Event → Type 0
IsChunked chunk_size [] = Unit {0}
IsChunked chunk_size (e ∷ es) = (length (sent_bytes e) ≤ chunk_size) × IsChunked chunk_size es

joined-append : (es : List Event) (e : Event) → joined (es ++ (e ∷ [])) ≡ sent_bytes e ++ joined es
joined-append [] e = sym (append-nil (sent_bytes e))
joined-append (x ∷ xs) e =
    ap (λ l. l ++ sent_bytes x) (joined-append xs e)
    ∙ append_assoc (sent_bytes e) (joined xs) (sent_bytes x)

append-IsChunked :
    (chunk_size : ℕ) (es : List Event) (e : Event)
    → IsChunked chunk_size es
    → length (sent_bytes e) ≤ chunk_size
    → IsChunked chunk_size (es ++ (e ∷ []))
append-IsChunked chunk_size [] e p q = (q, tt)
append-IsChunked chunk_size (x ∷ xs) e p q = (p.0, append-IsChunked chunk_size xs e p.1 q)

take-nil {ℓ} : {A : Type ℓ} (n : ℕ) → take {A = A} n [] ≡ []
take-nil zero = refl
take-nil (suc n) = refl

take-take {ℓ} :
    {A : Type ℓ} (m n : ℕ) (xs : List A) → take (m + n) xs ≡ take m xs ++ take n (drop m xs)
take-take zero n xs = ground arith
take-take {A = A} (suc m) n [] =
    let e : suc m + n ≡ suc (m + n) = omega arith in rw e (ground (arith, take-nil {A = A} n))
take-take (suc m) n (x ∷ xs) =
    let e : suc m + n ≡ suc (m + n) = omega arith in rw e (ap (λ l. x ∷ l) (take-take m n xs))

-- What the loop answers when KCP refuses a chunk after `taken` bytes were sent in all.
abbrev pub refusal : ℕ → ℕ → Ret
refusal taken ret = if taken == 0 then err (Status.kcp_ret ret) else ok taken

-- The calls are chunks of the pending bytes in order. Either KCP took all `remaining` bytes and the
-- caller is told so, or it took the first `n` and refused the next chunk.
pub record Delivered (source : Source) (chunk_size remaining total_sent : ℕ) (w : World)
    (r : Ret × World) : Type 0 where
  pub calls : List Event
  pub trace : r.1.trace ≡ calls ++ w.trace
  pub chunked : IsChunked chunk_size calls
  pub outcome :
      ((r.0 ≡ ok (total_sent + remaining)) × (joined calls ≡ take remaining (pending source)))
      ⊎ ((n : ℕ) × (ret : ℕ) × (refused : Event) × (accepted : List Event) × (n < remaining)
          × (calls ≡ refused ∷ accepted)
          × (joined accepted ≡ take n (pending source))
          × (r.0 ≡ refusal (total_sent + n) ret))

loop_end :
    (fuel s : ℕ) (source : Source) (chunk_size total_sent : ℕ) (w : World)
    → send_loop fuel s source chunk_size 0 total_sent w ≡ (ok total_sent, w)
unfolding send_loop
loop_end zero s source chunk_size total_sent w = refl
loop_end (suc fuel) s source chunk_size total_sent w = refl

abbrev chunk_of : ℕ → ℕ → ℕ
chunk_of chunk_size remaining = if ltb remaining chunk_size then remaining else chunk_size

loop_round :
    (fuel s : ℕ) (source : Source) (chunk_size remaining total_sent : ℕ) (w : World)
    → 0 < remaining
    → let size = chunk_of chunk_size remaining in
      let r = send_chunk s source size w in
      send_loop (suc fuel) s source chunk_size remaining total_sent w
      ≡ after_chunk r.0.0 total_sent
          (λ w'. send_loop fuel s r.0.1 chunk_size (remaining - size) (total_sent + size) r.1)
          r.1
unfolding send_loop
loop_round fuel s source chunk_size remaining total_sent w pos =
    let nonzero : (remaining == 0) ≡ false = ground arith in rw nonzero refl

-- A refused chunk ends the loop.
refused-Delivered :
    (source : Source) (chunk_size remaining total_sent ret size : ℕ) (w : World)
    (r : (KcpRet × Source) × World) (answer : Ret)
    → ChunkSent source size w r
    → 0 < remaining
    → size ≤ chunk_size
    → answer ≡ refusal total_sent ret
    → Delivered source chunk_size remaining total_sent w (answer, r.1)
refused-Delivered source chunk_size remaining total_sent ret size w r answer sent pos le e =
    record {
      calls = sent.event ∷ [];
      trace = sent.trace;
      chunked = (rw sent.bytes (omega (arith, length-take size (pending source))), tt);
      outcome = inr (0, ret, sent.event, [], pos, refl, refl, rw (add-zero total_sent) e);
    }

-- An accepted chunk, and the rest of the loop.
accepted-Delivered :
    (source source' : Source) (chunk_size remaining total_sent size : ℕ) (w : World)
    (r : (KcpRet × Source) × World) (q : Ret × World)
    → ChunkSent source size w r
    → size ≤ chunk_size
    → size ≤ remaining
    → pending source' ≡ drop size (pending source)
    → Delivered source' chunk_size (remaining - size) (total_sent + size) r.1 q
    → Delivered source chunk_size remaining total_sent w q
accepted-Delivered source source' chunk_size remaining total_sent size w r q sent le fits gone d =
    let joins : (es : List Event) (n : ℕ)
        → joined es ≡ take n (pending source')
        → joined (es ++ (sent.event ∷ [])) ≡ take (size + n) (pending source) =
      λ es n e.
        joined-append es sent.event
        ∙ rw (sent.bytes, e, gone) (sym (take-take size n (pending source))) in
    record {
      calls = d.calls ++ (sent.event ∷ []);
      trace = d.trace ∙ rw sent.trace (sym (append_assoc d.calls (sent.event ∷ []) w.trace));
      chunked =
          append-IsChunked chunk_size d.calls sent.event d.chunked
            (rw sent.bytes (omega (arith, length-take size (pending source))));
      outcome = elim d.outcome [
        | inl (answer, bytes) ↦
            let all : total_sent + size + (remaining - size) ≡ total_sent + remaining =
              omega arith in
            let whole : size + (remaining - size) ≡ remaining = omega arith in
            inl (rw all at answer, rw whole at (joins d.calls (remaining - size) bytes))
        | inr (n, ret, refused, accepted, lt, shape, bytes, answer) ↦
            let sum : total_sent + size + n ≡ total_sent + (size + n) = omega arith in
            inr (
              size + n,
              ret,
              refused,
              accepted ++ (sent.event ∷ []),
              omega arith,
              ap (λ l. l ++ (sent.event ∷ [])) shape,
              joins accepted n bytes,
              rw sum at answer,
            )
      ];
    }

pub KcpRet-cases : (r : KcpRet) → ((n : ℕ) × (r ≡ done n)) ⊎ ((n : ℕ) × (r ≡ failed n))
KcpRet-cases (done n) = inl (n, refl)
KcpRet-cases (failed n) = inr (n, refl)

answer_refused :
    (total_sent n : ℕ) (w : World) (next : World → Ret × World)
    → after_chunk (failed n) total_sent next w ≡ (refusal total_sent n, w)
answer_refused total_sent n w next = elim (Bool-cases (total_sent == 0)) [
  | inl e ↦ rw e refl
  | inr e ↦ rw e refl
]

-- The loop of kcpmux_stream_send_chunks over any source, contiguous or vectored, and any answers of
-- KCP, with a chunk size that is not zero and at least the asked number of bytes pending, gives KCP
-- these bytes in order, each once, in chunks of at most the given size. Either all bytes were
-- taken, and the answer is their number, or a chunk was refused, and the answer is the number of
-- bytes taken before it, or the error if there were none. As many rounds as there are bytes are
-- enough.
pub send_loop_correct :
    (fuel s : ℕ) (source : Source) (chunk_size remaining total_sent : ℕ) (w : World)
    → 0 < chunk_size
    → remaining ≤ fuel
    → IsSource source
    → remaining ≤ length (pending source)
    → Delivered source chunk_size remaining total_sent w
        (send_loop fuel s source chunk_size remaining total_sent w)
send_loop_correct fuel s source chunk_size zero total_sent w c f v h =
    rw (loop_end fuel s source chunk_size total_sent w) (record {
      calls = [];
      trace = refl;
      chunked = tt;
      outcome = inl (ap ok (sym (add-zero total_sent)), refl);
    })
send_loop_correct zero s source chunk_size (suc remaining) total_sent w c f v h =
    absurd (omega arith)
send_loop_correct (suc fuel) s source chunk_size (suc left) total_sent w c f v h =
    let remaining = suc left in
    let size = chunk_of chunk_size remaining in
    let r = send_chunk s source size w in
    let le : size ≤ chunk_size = ground arith in
    let fits : size ≤ remaining = ground arith in
    let pos : 0 < size = ground arith in
    let sent = send_chunk_lem s source size w v (omega arith) in
    let next = λ (w' : World).
      send_loop fuel s r.0.1 chunk_size (remaining - size) (total_sent + size) r.1 in
    rw (loop_round fuel s source chunk_size remaining total_sent w (omega arith))
      (elim (KcpRet-cases r.0.0) [
        | inl (n, e) ↦
            let (v', gone) = sent.accepted (rw e refl) in
            rw e (
              accepted-Delivered source r.0.1 chunk_size remaining total_sent size w r (next r.1)
                sent le fits gone
                (send_loop_correct fuel s r.0.1 chunk_size (remaining - size) (total_sent + size)
                  r.1 c (omega arith) v'
                  (rw gone (omega (arith, length-drop size (pending source))))))
        | inr (n, e) ↦
            rw (e, answer_refused total_sent n r.1 next)
              (refused-Delivered source chunk_size remaining total_sent n size w r
                (refusal total_sent n) sent (omega arith) le refl)
      ])
