-- ===== src/Life/Changes.antt =====
-- One rule for each change of the world, and the ruleset of all rules.
use kcp_mux.Base.{ℕ, ◌<◌, ◌≡◌, inl, inr, sym, ◌∙◌, ◌==◌, Bool-cases, subst, ==→eq}
use kcp_mux.Timer.{Timers}
use kcp_mux.World.{World, mod_engine, mod_conn, mod_stream, mod_timers, Conn, Stream, Engine}
use kcp_mux.Life.Relation.{
  IsQuietConn, IsQuietStream, IsQuietConn-fields, IsQuietStream-fields, Rel, same-IsQuietConn,
  same-IsQuietStream, freed_in, AreSized, IsPlain, Evolves, Evolves-trans, Follows, Shortens,
}
use kcp_mux.Life.Combinators.{
  same-Evolves, if-Evolves, option-Evolves, gets-Follows, get_conn-Follows, get_stream-Follows,
  get_engine-Follows, return-Follows, skip-Follows, bind-Follows, then-Follows, when-Follows,
  if-Follows, knows-Follows, option-Follows, ret-Follows, kcp_ret-Follows, ask-Follows,
  emit-Follows,
}

module _ {r : Rel} {k : ℕ} where
  pub mod_engine-Follows :
      (f : Engine → Engine)
      → ((e : Engine) → (f e).operation_depth ≡ e.operation_depth)
      → ((e : Engine) → (f e).pending_release_list ≡ e.pending_release_list)
      → Follows r k (mod_engine f)
  mod_engine-Follows f p q = record {
    run = λ w h.
        let s = same-Evolves {r = r} {k = k} w in
        record {
          conns = s.conns;
          streams = s.streams;
          addresses = s.addresses;
          depth = p w.engine;
          due = s.due;
          queued = s.queued;
          queue = q w.engine ∙ s.queue;
          nothing_freed = s.nothing_freed;
          sized = s.sized;
        };
  }

  pub mod_timers-Follows : (f : Timers → Timers) → Shortens f → Follows r k (mod_timers f)
  mod_timers-Follows f p = record {
    run = λ w h.
        let s = same-Evolves {r = r} {k = k} w in
        record {
          conns = s.conns;
          streams = s.streams;
          addresses = s.addresses;
          depth = s.depth;
          due = p w.timers;
          queued = s.queued;
          queue = s.queue;
          nothing_freed = s.nothing_freed;
          sized = s.sized;
        };
  }

  -- A change of one connection, below the address `k` or not.
  pub mod_conn-Evolves :
      (c : ℕ) (f : Conn → Conn) (w : World)
      → (c < k → r.OfConn (w.conns c) (f (w.conns c)))
      → Evolves r k w (mod_conn c f w).1
  mod_conn-Evolves c f w p =
      let s = same-Evolves {r = r} {k = k} w in
      record {
        conns = λ d h. elim (Bool-cases (d == c)) [
          | inl e ↦ rw e (
              subst (λ x. r.OfConn (w.conns x) (f (w.conns c))) (sym (==→eq d c e))
                (p (rw (sym (==→eq d c e)) h)))
          | inr e ↦ rw e (s.conns d h)
        ];
        streams = s.streams;
        addresses = s.addresses;
        depth = s.depth;
        due = s.due;
        queued = s.queued;
        queue = s.queue;
        nothing_freed = s.nothing_freed;
        sized = s.sized;
      }

  pub mod_stream-Evolves :
      (c : ℕ) (f : Stream → Stream) (w : World)
      → (c < k → r.OfStream (w.streams c) (f (w.streams c)))
      → Evolves r k w (mod_stream c f w).1
  mod_stream-Evolves c f w p =
      let s = same-Evolves {r = r} {k = k} w in
      record {
        conns = s.conns;
        streams = λ d h. elim (Bool-cases (d == c)) [
          | inl e ↦ rw e (
              subst (λ x. r.OfStream (w.streams x) (f (w.streams c))) (sym (==→eq d c e))
                (p (rw (sym (==→eq d c e)) h)))
          | inr e ↦ rw e (s.streams d h)
        ];
        addresses = s.addresses;
        depth = s.depth;
        due = s.due;
        queued = s.queued;
        queue = s.queue;
        nothing_freed = s.nothing_freed;
        sized = s.sized;
      }

  pub mod_conn-Follows :
      (c : ℕ) (f : Conn → Conn) → ((x : Conn) → IsQuietConn x (f x)) → Follows r k (mod_conn c f)
  mod_conn-Follows c f p = record {
    run = λ w h.
        mod_conn-Evolves c f w (λ below. r.quiet_conn (w.conns c) (f (w.conns c)) (p (w.conns c)));
  }

  pub mod_stream-Follows :
      (s : ℕ) (f : Stream → Stream)
      → ((x : Stream) → IsQuietStream x (f x))
      → Follows r k (mod_stream s f)
  mod_stream-Follows s f p = record {
    run = λ w h.
        mod_stream-Evolves s f w
          (λ below. r.quiet_stream (w.streams s) (f (w.streams s)) (p (w.streams s)));
  }

  -- A change of every connection, or every stream, that the relation has.
  pub change_conn-Follows :
      (c : ℕ) (f : Conn → Conn) → ((x : Conn) → r.OfConn x (f x)) → Follows r k (mod_conn c f)
  change_conn-Follows c f p = record {
    run = λ w h. mod_conn-Evolves c f w (λ below. p (w.conns c));
  }

  pub change_stream-Follows :
      (s : ℕ) (f : Stream → Stream)
      → ((x : Stream) → r.OfStream x (f x))
      → Follows r k (mod_stream s f)
  change_stream-Follows s f p = record {
    run = λ w h. mod_stream-Evolves s f w (λ below. p (w.streams s));
  }

-- The premise of an event that neither frees nor sends.
pub nothing_to_show : Unit {0}
nothing_to_show = tt

-- The rules, in the order in which actions are taken apart.
pub ruleset rules = (
  get_conn-Follows, get_stream-Follows, get_engine-Follows, gets-Follows, return-Follows,
  skip-Follows, bind-Follows, then-Follows, when-Follows, if-Follows, option-Follows, ret-Follows,
  kcp_ret-Follows, ask-Follows, emit-Follows, nothing_to_show, IsQuietConn-fields,
  IsQuietStream-fields, mod_engine-Follows, mod_conn-Follows, mod_stream-Follows,
)
