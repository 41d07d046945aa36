-- ===== src/Life/Combinators.antt =====
-- One rule for each combinator of World/Monad.
use kcp_mux.Base.{
  ℕ, ◌≡◌, refl, sym, arith, Bool, true, false, [], Option, none, some, append-nil, if◌then◌else◌,
}
use kcp_mux.Types.{Status, Ret}
use kcp_mux.World.{
  from_option, from_ret, from_kcp, KcpRet, done, failed, World, M, ◌>>=◌, ◌>>◌, return, skip, when,
  gets, get_conn, get_stream, get_engine, emit, ask, Host, Event,
}
use kcp_mux.Life.Relation.{
  Rel, same-IsQuietConn, same-IsQuietStream, IsPlain, IsPlain-freed_in, IsPlain-AreSized, Evolves,
  Evolves-trans, Follows,
}

module _ {r : Rel} {k : ℕ} where
  pub same-Evolves : (w : World) → Evolves r k w w
  same-Evolves w = record {
    conns = λ c h. r.quiet_conn (w.conns c) (w.conns c) (same-IsQuietConn (w.conns c));
    streams = λ s h. r.quiet_stream (w.streams s) (w.streams s) (same-IsQuietStream (w.streams s));
    addresses = omega arith;
    depth = refl;
    due = omega arith;
    queued = [];
    queue = sym (append-nil w.engine.pending_release_list);
    nothing_freed = refl;
    sized = λ t. t;
  }

  -- A branch on a value that was read, for an action written with its state.
  pub if-Evolves :
      {A : Type 0} (w : World) (b : Bool) (x y : A × World)
      → Evolves r k w x.1
      → Evolves r k w y.1
      → Evolves r k w (if b then x else y).1
  if-Evolves w true x y p q = p
  if-Evolves w false x y p q = q

  pub option-Evolves :
      {X A : Type 0} (w : World) (o : Option X) (x : A × World) (f : X → A × World)
      → Evolves r k w x.1
      → ((a : X) → Evolves r k w (f a).1)
      → Evolves r k w (elim o as (λ y. A × World) [ none ↦ x | some a ↦ f a ]).1
  option-Evolves w none x f p q = p
  option-Evolves w (some a) x f p q = q a

  pub gets-Follows : {A : Type 0} (f : World → A) → Follows r k (gets f)
  gets-Follows f = record { run = λ w h. same-Evolves w }

  pub get_conn-Follows : (c : ℕ) → Follows r k (get_conn c)
  get_conn-Follows c = gets-Follows (λ w. w.conns c)

  pub get_stream-Follows : (s : ℕ) → Follows r k (get_stream s)
  get_stream-Follows s = gets-Follows (λ w. w.streams s)

  pub get_engine-Follows : Follows r k get_engine
  get_engine-Follows = gets-Follows World.engine

  pub return-Follows : {A : Type 0} (a : A) → Follows r k (return a)
  return-Follows a = record { run = λ w h. same-Evolves w }

  pub skip-Follows : Follows r k skip
  skip-Follows = record { run = λ w h. same-Evolves w }

  pub bind-Follows :
      {A B : Type 0} {m : M A} {f : A → M B}
      → Follows r k m
      → ((a : A) → Follows r k (f a))
      → Follows r k (m >>= f)
  bind-Follows {m = m} {f = f} p q = record {
    run = λ w h.
        let a = p.run w h in
        Evolves-trans r k w (m w).1 (f (m w).0 (m w).1).1 a
          ((q (m w).0).run (m w).1 (omega (arith, a.addresses)));
  }

  pub then-Follows :
      {A B : Type 0} {m : M A} {n : M B} → Follows r k m → Follows r k n → Follows r k (m >> n)
  then-Follows {m = m} {n = n} p q = record {
    run = λ w h.
        let a = p.run w h in
        Evolves-trans r k w (m w).1 (n (m w).1).1 a (q.run (m w).1 (omega (arith, a.addresses)));
  }

  pub when-Follows : (b : Bool) {m : M (Unit {0})} → Follows r k m → Follows r k (when b m)
  when-Follows true p = p
  when-Follows false p = skip-Follows

  pub if-Follows :
      {A : Type 0} (b : Bool) {m n : M A}
      → Follows r k m
      → Follows r k n
      → Follows r k (if b then m else n)
  if-Follows true p q = p
  if-Follows false p q = q

  -- A branch that knows the test.
  pub knows-Follows :
      {A : Type 0} (b : Bool) {m n : M A}
      → (b ≡ true → Follows r k m)
      → (b ≡ false → Follows r k n)
      → Follows r k (if b then m else n)
  knows-Follows true p q = p refl
  knows-Follows false p q = q refl

  pub option-Follows :
      {X A : Type 0} (o : Option X) {m : M A} {f : X → M A}
      → Follows r k m
      → ((x : X) → Follows r k (f x))
      → Follows r k (from_option o m f)
  option-Follows none p q = p
  option-Follows (some x) p q = q x

  pub ret-Follows :
      {A : Type 0} (x : Ret) {f : Status → M A} {g : ℕ → M A}
      → ((e : Status) → Follows r k (f e))
      → ((n : ℕ) → Follows r k (g n))
      → Follows r k (from_ret x f g)
  ret-Follows (Ret.err e) p q = p e
  ret-Follows (Ret.ok n) p q = q n

  pub kcp_ret-Follows :
      {A : Type 0} (x : KcpRet) {f g : ℕ → M A}
      → ((n : ℕ) → Follows r k (f n))
      → ((n : ℕ) → Follows r k (g n))
      → Follows r k (from_kcp x f g)
  kcp_ret-Follows (failed n) p q = p n
  kcp_ret-Follows (done n) p q = q n

  pub ask-Follows : {A : Type 0} (f : Host → ℕ → A) → Follows r k (ask f)
  ask-Follows f = record {
    run = λ w h.
        let e = same-Evolves w in
        record {
          conns = e.conns;
          streams = e.streams;
          addresses = e.addresses;
          depth = e.depth;
          due = e.due;
          queued = e.queued;
          queue = e.queue;
          nothing_freed = e.nothing_freed;
          sized = e.sized;
        };
  }

  pub emit-Follows : (e : Event) → IsPlain e → Follows r k (emit e)
  emit-Follows e n = record {
    run = λ w h.
        let s = same-Evolves w in
        record {
          conns = s.conns;
          streams = s.streams;
          addresses = s.addresses;
          depth = s.depth;
          due = s.due;
          queued = s.queued;
          queue = s.queue;
          nothing_freed = IsPlain-freed_in k e w.trace n;
          sized = λ t. IsPlain-AreSized e w.trace n t;
        };
  }
