-- ===== src/Life/At.antt =====
-- The rules for an action that starts in a world of which something is known, such as the state
-- that a function of src/kcpmux_conn.c or src/kcpmux_stream.c has just tested.
use kcp_mux.Base.{◌<◌, ℕ, ◌≤◌, ◌≡◌, refl, arith, Bool, true, false, if◌then◌else◌}
use kcp_mux.World.{
  World, M, ◌>>=◌, ◌>>◌, when, get_conn, get_stream, mod_conn, mod_stream, ask, Host, Conn, Stream,
}
use kcp_mux.Life.Relation.{Rel, Evolves, Evolves-trans, Follows}
use kcp_mux.Life.Combinators.{get_conn-Follows, get_stream-Follows, same-Evolves, ask-Follows}
use kcp_mux.Life.Changes.{mod_conn-Evolves, mod_stream-Evolves}
use kcp_mux.Life.Forward.{quiet}

pub record At (r : Rel) (k : ℕ) (w : World) {A : Type 0} (m : M A) : Type 0 where
  pub run : k ≤ w.next_address → Evolves r k w (m w).1

-- What changes no state is as any relation has it.
quiet-Evolves : {r : Rel} {k : ℕ} (w v : World) → Evolves quiet k w v → Evolves r k w v
quiet-Evolves {r = r} w v e = record {
  conns = λ c h. r.quiet_conn (w.conns c) (v.conns c) (e.conns c h);
  streams = λ s h. r.quiet_stream (w.streams s) (v.streams s) (e.streams s h);
  addresses = e.addresses;
  depth = e.depth;
  due = e.due;
  queued = e.queued;
  queue = e.queue;
  nothing_freed = e.nothing_freed;
  sized = e.sized;
}

module _ {r : Rel} {k : ℕ} {w : World} where
  pub Follows-At : {A : Type 0} {m : M A} → Follows r k m → At r k w m
  Follows-At p = record { run = p.run w }

  -- The second action starts where the first ends, with its result.
  pub step-At :
      {A B : Type 0} {m : M A} {f : A → M B}
      → At r k w m
      → ((a : A) → a ≡ (m w).0 → At r k (m w).1 (f a))
      → At r k w (m >>= f)
  step-At {m = m} {f = f} p q = record {
    run = λ h.
        let a = p.run h in
        Evolves-trans r k w (m w).1 (f (m w).0 (m w).1).1 a
          ((q (m w).0 refl).run (omega (arith, a.addresses)));
  }

  pub next-At :
      {A B : Type 0} {m : M A} {n : M B} → At r k w m → At r k (m w).1 n → At r k w (m >> n)
  next-At {m = m} {n = n} p q = record {
    run = λ h.
        let a = p.run h in
        Evolves-trans r k w (m w).1 (n (m w).1).1 a (q.run (omega (arith, a.addresses)));
  }

  pub get_conn-At : (c : ℕ) → At r k w (get_conn c)
  get_conn-At c = Follows-At (get_conn-Follows c)

  pub get_stream-At : (s : ℕ) → At r k w (get_stream s)
  get_stream-At s = Follows-At (get_stream-Follows s)

  pub ask-At : {A : Type 0} (g : Host → ℕ → A) → At r k w (ask g)
  ask-At g = Follows-At (ask-Follows g)

  pub mod_conn-At :
      (c : ℕ) (f : Conn → Conn)
      → (c < k → r.OfConn (w.conns c) (f (w.conns c)))
      → At r k w (mod_conn c f)
  mod_conn-At c f p = record { run = λ h. mod_conn-Evolves c f w p }

  pub mod_stream-At :
      (s : ℕ) (f : Stream → Stream)
      → (s < k → r.OfStream (w.streams s) (f (w.streams s)))
      → At r k w (mod_stream s f)
  mod_stream-At s f p = record { run = λ h. mod_stream-Evolves s f w p }

  pub when-At : {b : Bool} {m : M (Unit {0})} → (b ≡ true → At r k w m) → At r k w (when b m)
  when-At {b = true} p = p refl
  when-At {b = false} p = record { run = λ h. same-Evolves w }

  pub if-At :
      {A : Type 0} {b : Bool} {m n : M A}
      → (b ≡ true → At r k w m)
      → (b ≡ false → At r k w n)
      → At r k w (if b then m else n)
  if-At {b = true} p q = p refl
  if-At {b = false} p q = q refl

  pub then-At : {A B : Type 0} {m : M A} {n : M B} → At r k w m → Follows r k n → At r k w (m >> n)
  then-At {m = m} {n = n} p q = record {
    run = λ h.
        let a = p.run h in
        Evolves-trans r k w (m w).1 (n (m w).1).1 a (q.run (m w).1 (omega (arith, a.addresses)));
  }

  pub bind-At :
      {A B : Type 0} {m : M A} {f : A → M B}
      → At r k w m
      → ((a : A) → Follows r k (f a))
      → At r k w (m >>= f)
  bind-At {m = m} {f = f} p q = record {
    run = λ h.
        let a = p.run h in
        Evolves-trans r k w (m w).1 (f (m w).0 (m w).1).1 a
          ((q (m w).0).run (m w).1 (omega (arith, a.addresses)));
  }

  -- An action that changes no state, and then one that starts from the same states.
  pub quiet-At :
      {A B : Type 0} {m : M A} {f : A → M B}
      → Follows quiet k m
      → ((v : World) (a : A) → Evolves quiet k w v → At r k v (f a))
      → At r k w (m >>= f)
  quiet-At {m = m} {f = f} q p = record {
    run = λ h.
        let a = q.run w h in
        Evolves-trans r k w (m w).1 (f (m w).0 (m w).1).1 (quiet-Evolves w (m w).1 a)
          ((p (m w).1 (m w).0 a).run (omega (arith, a.addresses)));
  }

  pub quiet_then-At :
      {A B : Type 0} {m : M A} {n : M B}
      → Follows quiet k m
      → ((v : World) → Evolves quiet k w v → At r k v n)
      → At r k w (m >> n)
  quiet_then-At {m = m} {n = n} q p = record {
    run = λ h.
        let a = q.run w h in
        Evolves-trans r k w (m w).1 (n (m w).1).1 (quiet-Evolves w (m w).1 a)
          ((p (m w).1 a).run (omega (arith, a.addresses)));
  }

pub At-Follows :
    {r : Rel} {k : ℕ} {A : Type 0} {m : M A} → ((w : World) → At r k w m) → Follows r k m
At-Follows p = record { run = λ w. (p w).run }

pub ruleset at_rules = (
  get_conn-At, get_stream-At, ask-At, when-At, if-At, step-At, then-At, mod_conn-At, mod_stream-At,
)
