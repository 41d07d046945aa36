-- ===== src/Route/StreamIds.antt =====
-- The stream IDs of src/kcpmux_conn.c: kcpmux_conn_alloc_stream_id never fails while the connection
-- has fewer than 2^31 - 1 streams.
use kcp_mux.Base.{
  ℕ, zero, suc, ◌+◌, ◌-◌, ◌*◌, ◌/◌, ◌%◌, ◌^◌, ◌≤◌, ◌<◌, ◌≡◌, ◌≢◌, arith, Bool, true, false, not,
  ◌==◌, if◌then◌else◌, Bool-cases, inl, inr, List, [], ◌∷◌, length, contains, remove, u32,
}
use kcp_mux.World.{World}
use kcp_mux.Route.{alloc_loop, alloc_stream_id, get_stream_by_id}

contains-remove_other :
    (xs : List ℕ) (a b : ℕ) → a ≢ b → contains xs b ≡ true → contains (remove xs a) b ≡ true
contains-remove_other [] a b ne h = h
contains-remove_other (x ∷ xs) a b ne h = ground (arith, contains-remove_other xs a b)

length-remove : (xs : List ℕ) (a : ℕ) → contains xs a ≡ true → length (remove xs a) + 1 ≡ length xs
length-remove [] a h = absurd (ground arith)
length-remove (x ∷ xs) a h = ground (arith, length-remove xs a)

-- The ID that the loop tries first.
abbrev pub tried : ℕ → ℕ → ℕ
tried is_initiator next_stream_id =
    if next_stream_id == 0 then (if is_initiator == 0 then 2 else 1) else next_stream_id

-- A connection's own IDs: odd ones for an initiator, even ones otherwise.
abbrev pub IsOwn : ℕ → ℕ → Type 0
IsOwn is_initiator id = (id < 2 ^ 32) × (id % 2 ≡ is_initiator)

-- The ID of attempt `k`.
abbrev attempt : ℕ → ℕ → ℕ → ℕ
attempt is_initiator next_stream_id k =
    if is_initiator == 0
    then 2 * ((tried 0 next_stream_id / 2 - 1 + k) % (2 ^ 31 - 1)) + 2
    else (next_stream_id + 2 * k) % 2 ^ 32

-- What the loop finds.
pub record Fresh (taken : ℕ → Bool) (is_initiator : ℕ) (r : ℕ × ℕ) : Type 0 where
  pub nonzero : r.0 ≢ 0
  pub own : IsOwn is_initiator r.0
  pub free : taken r.0 ≡ false
  pub next_own : IsOwn is_initiator r.1

module _ (is_initiator : ℕ) (side : is_initiator < 2) where
  tried-IsOwn : (n : ℕ) → IsOwn is_initiator n → IsOwn is_initiator (tried is_initiator n)
  tried-IsOwn n h = ground arith

  next-IsOwn : (n : ℕ) → IsOwn is_initiator n → IsOwn is_initiator (u32 (tried is_initiator n + 2))
  next-IsOwn n h = ground arith

  attempt_first : (n : ℕ) → IsOwn is_initiator n → attempt is_initiator n 0 ≡ tried is_initiator n
  attempt_first n h = ground arith

  attempt_next :
      (n k : ℕ)
      → IsOwn is_initiator n
      → attempt is_initiator (u32 (tried is_initiator n + 2)) k ≡ attempt is_initiator n (k + 1)
  attempt_next n k h = ground arith

  attempt_apart :
      (n k : ℕ)
      → IsOwn is_initiator n
      → k + 1 < 2 ^ 31 - 1
      → tried is_initiator n ≢ attempt is_initiator n (k + 1)
  attempt_apart n k h lt e = ground arith

  -- One of the attempts is free, since there are fewer taken IDs than attempts.
  alloc_loop_lem :
      (taken : ℕ → Bool) (attempts n : ℕ) (ids : List ℕ)
      → IsOwn is_initiator n
      → attempts < 2 ^ 31
      → ((k : ℕ)
          → k < attempts
          → taken (attempt is_initiator n k) ≡ true
          → contains ids (attempt is_initiator n k) ≡ true)
      → length ids < attempts
      → Fresh taken is_initiator (alloc_loop taken is_initiator attempts n)
  unfolding alloc_loop
  alloc_loop_lem taken zero n ids own small h few = absurd (omega arith)
  alloc_loop_lem taken (suc attempts) n ids own small h few =
      let id = tried is_initiator n in
      let first = attempt_first n own in
      let next = next-IsOwn n own in
      let id_own = tried-IsOwn n own in
      elim (Bool-cases (taken id)) [
        | inl e ↦
            let listed : contains ids id ≡ true = rw first at (h 0 (omega arith) (rw first e)) in
            rw e (
              alloc_loop_lem taken attempts (u32 (id + 2)) (remove ids id) next (omega arith)
                (λ k lt q.
                  let same = attempt_next n k own in
                  rw same (
                    contains-remove_other ids id (attempt is_initiator n (k + 1))
                      (attempt_apart n k own (omega arith))
                      (h (k + 1) (omega arith) (rw same at q))))
                (omega (arith, length-remove ids id listed)))
        | inr e ↦
            rw e (record { nonzero = λ z. ground arith; own = id_own; free = e; next_own = next })
      ]

-- What kcpmux_conn_alloc_stream_id promises at a connection with the given stream map.
pub record Allocated (w : World) (c : ℕ) (r : ℕ × World) : Type 0 where
  pub nonzero : r.0 ≢ 0
  pub own : IsOwn (w.conns c).is_initiator r.0
  pub free : get_stream_by_id w c r.0 ≡ 0
  pub next_own : IsOwn (w.conns c).is_initiator (r.1.conns c).next_stream_id

-- kcpmux_conn_alloc_stream_id always finds an ID if the connection counts all its streams, of which
-- `ids` lists the IDs, and has fewer than 2^31 - 1 of them: the ID is not zero, fits 32 bits, has
-- the connection's own parity and belongs to none of its streams, also when the counter of IDs
-- wraps around.
pub alloc_stream_id_correct :
    (w : World) (c : ℕ) (ids : List ℕ)
    → (w.conns c).is_initiator < 2
    → IsOwn (w.conns c).is_initiator (w.conns c).next_stream_id
    → (w.conns c).stream_count < 2 ^ 31 - 1
    → length ids ≤ (w.conns c).stream_count
    → ((id : ℕ) → get_stream_by_id w c id ≢ 0 → contains ids id ≡ true)
    → Allocated w c (alloc_stream_id c w)
unfolding alloc_stream_id
alloc_stream_id_correct w c ids side own small counted h =
    let conn = w.conns c in
    let taken = λ (id : ℕ). not (get_stream_by_id w c id == 0) in
    let r =
      alloc_loop_lem conn.is_initiator side taken (conn.stream_count + 1) conn.next_stream_id ids
        own (omega arith) (λ k lt q. h _ (λ z. ground arith)) (omega arith) in
    record {
      nonzero = r.nonzero;
      own = r.own;
      free = ground (arith, r.free);
      next_own = ground (arith, r.next_own);
    }
