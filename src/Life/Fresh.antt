-- ===== src/Life/Fresh.antt =====
-- The objects that src/kcpmux_conn.c and src/kcpmux_stream.c allocate: what happens to a new one
-- happens to none that was there before.
use kcp_mux.Base.{
  ℕ, suc, ◌≤◌, ◌≡◌, ◌⊎◌, refl, arith, Bool, true, false, Option, none, some, inl, inr, Bool-cases,
  if◌then◌else◌, ◌==◌, ltb,
}
use kcp_mux.Types.{ConnState, StreamState}
use kcp_mux.World.{from_option, World, M, ◌>>=◌, ◌>>◌, return, mod_conn, mod_stream, Conn, Stream}
use kcp_mux.StreamLife.{alloc_address, discard}
use kcp_mux.Conn.{conn_set_state}
use kcp_mux.Stream.{stream_set_state}
use kcp_mux.Life.Relation.{Rel, Evolves, Evolves-trans, Follows}
use kcp_mux.Life.Changes.{rules, mod_conn-Evolves, mod_stream-Evolves}
use kcp_mux.Life.Combinators.{same-Evolves, return-Follows}
use kcp_mux.Life.Moves.{enter_state-Follows, enter_stream_state-Follows}

-- NULL, or an address that was handed out after the first `k`.
abbrev pub IsNew : ℕ → ℕ → Type 0
IsNew k a = (a ≡ 0) ⊎ (k ≤ a)

pub IsNew-pos : (k a : ℕ) → IsNew k a → (a == 0) ≡ false → k ≤ a
IsNew-pos k a p h = ground arith

pub null-IsNew : (k : ℕ) → IsNew k 0
null-IsNew k = inl refl

-- An action that answers such an address.
pub record Makes (r : Rel) (k : ℕ) (m : M ℕ) : Type 0 where
  pub follows : Follows r k m
  pub new : (w : World) → k ≤ w.next_address → IsNew k (m w).0

module _ {r : Rel} {k : ℕ} where
  pub return-Makes : (a : ℕ) → IsNew k a → Makes r k (return a)
  return-Makes a n = record { follows = return-Follows a; new = λ w h. n }

  pub bind-Makes :
      {A : Type 0} {m : M A} {f : A → M ℕ}
      → Follows r k m
      → ((a : A) → Makes r k (f a))
      → Makes r k (m >>= f)
  bind-Makes {m = m} {f = f} p q = record {
    follows = record {
      run = λ w h.
          let a = p.run w h in
          Evolves-trans r k w (m w).1 (f (m w).0 (m w).1).1 a
            ((q (m w).0).follows.run (m w).1 (omega (arith, a.addresses)));
    };
    new = λ w h. (q (m w).0).new (m w).1 (omega (arith, (p.run w h).addresses));
  }

  pub then-Makes :
      {A : Type 0} {m : M A} {n : M ℕ} → Follows r k m → Makes r k n → Makes r k (m >> n)
  then-Makes {m = m} {n = n} p q = record {
    follows = record {
      run = λ w h.
          let a = p.run w h in
          Evolves-trans r k w (m w).1 (n (m w).1).1 a
            (q.follows.run (m w).1 (omega (arith, a.addresses)));
    };
    new = λ w h. q.new (m w).1 (omega (arith, (p.run w h).addresses));
  }

  pub if-Makes :
      (b : Bool) {m n : M ℕ}
      → (b ≡ true → Makes r k m)
      → (b ≡ false → Makes r k n)
      → Makes r k (if b then m else n)
  if-Makes true p q = p refl
  if-Makes false p q = q refl

  pub option-Makes :
      {X : Type 0} (o : Option X) {m : M ℕ} {f : X → M ℕ}
      → Makes r k m
      → ((x : X) → Makes r k (f x))
      → Makes r k (from_option o m f)
  option-Makes none p q = p
  option-Makes (some x) p q = q x

  -- What follows knows that the object is new.
  pub made-Follows :
      {A : Type 0} {m : M ℕ} {f : ℕ → M A}
      → Makes r k m
      → ((a : ℕ) → IsNew k a → Follows r k (f a))
      → Follows r k (m >>= f)
  made-Follows {m = m} {f = f} p q = record {
    run = λ w h.
        let a = p.follows.run w h in
        Evolves-trans r k w (m w).1 (f (m w).0 (m w).1).1 a
          ((q (m w).0 (p.new w h)).run (m w).1 (omega (arith, a.addresses)));
  }

  pub made-Makes :
      {m : M ℕ} {f : ℕ → M ℕ}
      → Makes r k m
      → ((a : ℕ) → IsNew k a → Makes r k (f a))
      → Makes r k (m >>= f)
  made-Makes {m = m} {f = f} p q = record {
    follows = record {
      run = λ w h.
          let a = p.follows.run w h in
          Evolves-trans r k w (m w).1 (f (m w).0 (m w).1).1 a
            ((q (m w).0 (p.new w h)).follows.run (m w).1 (omega (arith, a.addresses)));
    };
    new = λ w h. (q (m w).0 (p.new w h)).new (m w).1 (omega (arith, (p.follows.run w h).addresses));
  }

  pub alloc_address-Makes : Makes r k alloc_address
  unfolding alloc_address
  alloc_address-Makes = record {
    follows = record {
      run = λ w h. elim (Bool-cases (w.host.malloc_ok w.calls)) [
        | inl e ↦ rw e (later w (suc w.next_address) (omega arith))
        | inr e ↦ rw e (later w w.next_address (omega arith))
      ];
    };
    new = λ w h. elim (Bool-cases (w.host.malloc_ok w.calls)) [
      | inl e ↦ rw e (inr h)
      | inr e ↦ rw e (inl refl)
    ];
  }
    where
      later :
          (w : World) (a : ℕ)
          → w.next_address ≤ a
          → Evolves r k w (record w { calls = suc w.calls; next_address = a })
      later w a h =
          let e = same-Evolves {r = r} {k = k} w in
          record {
            conns = e.conns;
            streams = e.streams;
            addresses = h;
            depth = e.depth;
            due = e.due;
            queued = e.queued;
            queue = e.queue;
            nothing_freed = e.nothing_freed;
            sized = e.sized;
          }

  pub new_conn-Follows : (c : ℕ) (f : Conn → Conn) → k ≤ c → Follows r k (mod_conn c f)
  new_conn-Follows c f h = record {
    run = λ w below. mod_conn-Evolves c f w (λ lt. absurd (omega arith));
  }

  -- A new object is freed again.
  pub discard-Makes : (a : ℕ) → k ≤ a → Makes r k (discard a)
  discard-Makes a h = record {
    follows = record {
      run = λ w below.
          let s = same-Evolves {r = r} {k = k} w in
          let new : ltb a k ≡ false = ground arith in
          record {
            conns = s.conns;
            streams = s.streams;
            addresses = s.addresses;
            depth = s.depth;
            due = s.due;
            queued = s.queued;
            queue = s.queue;
            nothing_freed = rw new refl;
            sized = s.sized;
          };
    };
    new = λ w below. inl refl;
  }

  pub new_stream-Follows : (s : ℕ) (f : Stream → Stream) → k ≤ s → Follows r k (mod_stream s f)
  new_stream-Follows s f h = record {
    run = λ w below. mod_stream-Evolves s f w (λ lt. absurd (omega arith));
  }

  pub new_conn_set_state-Follows :
      (c : ℕ) (s : ConnState) → k ≤ c → Follows r k (conn_set_state c s)
  unfolding conn_set_state
  new_conn_set_state-Follows c s h = search (new_conn-Follows, rules, enter_state-Follows) depth 20

  pub new_stream_set_state-Follows :
      (a : ℕ) (s : StreamState) → k ≤ a → Follows r k (stream_set_state a s)
  unfolding stream_set_state
  new_stream_set_state-Follows a s h =
      search (new_stream-Follows, rules, enter_stream_state-Follows) depth 20
