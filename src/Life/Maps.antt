-- ===== src/Life/Maps.antt =====
-- The maps of src/kcpmux_engine.c and src/kcpmux_conn.c: what entering and leaving them does to
-- the objects.
use kcp_mux.Base.{
  ℕ, ◌∙◌, ◌||◌, ◌+◌, ◌-◌, ◌^◌, ◌==◌, not, inl, inr, u32, ◌≡◌, refl, Bool-cases, true, false,
}
use kcp_mux.Htb.{add, del}
use kcp_mux.World.{World, Conn, Stream, mod_conn, mod_stream}
use kcp_mux.Route.{
  add_conn, remove_conn, add_stream, remove_stream, alloc_stream_id, alloc_loop, get_stream_by_id,
  stream_cmp, stream_hash,
}
use kcp_mux.Life.Relation.{Rel, Evolves, Follows, IsQuietConn, IsQuietStream}
use kcp_mux.Life.Combinators.{same-Evolves}
use kcp_mux.Life.Changes.{mod_conn-Evolves, mod_stream-Evolves}

module _ {r : Rel} {k : ℕ} where
  -- Only connection `c` and the engine's maps and counters are other than before.
  conn_only :
      (c : ℕ) (f : Conn → Conn) (w w' : World)
      → IsQuietConn (w.conns c) (f (w.conns c))
      → w'.conns ≡ (mod_conn c f w).1.conns
      → w'.streams ≡ w.streams
      → w'.next_address ≡ w.next_address
      → w'.timers ≡ w.timers
      → w'.engine.operation_depth ≡ w.engine.operation_depth
      → w'.engine.pending_release_list ≡ w.engine.pending_release_list
      → w'.trace ≡ w.trace
      → Evolves r k w w'
  conn_only c f w w' q conns streams address timers depth queue trace =
      let e =
        mod_conn-Evolves {r = r} {k = k} c f w
          (λ below. r.quiet_conn (w.conns c) (f (w.conns c)) q) in
      record {
        conns = rw conns e.conns;
        streams = rw streams e.streams;
        addresses = rw address e.addresses;
        depth = depth;
        due = rw timers e.due;
        queued = e.queued;
        queue = queue ∙ e.queue;
        nothing_freed = rw trace refl;
        sized = λ h. rw trace h;
      }

  pub add_conn-Follows : (c : ℕ) → Follows r k (add_conn c)
  unfolding add_conn
  add_conn-Follows c = record {
    run = λ w h. elim (Bool-cases ((w.conns c).internal_closed || (w.conns c).in_engine_map)) [
      | inl e ↦ rw e (same-Evolves w)
      | inr e ↦ rw e (
          conn_only c (λ x. record x { in_engine_map = true }) w _
            (record {
              state = refl;
              closed = refl;
              id = refl;
              initiator = refl;
              addr = refl;
              retries = refl;
            })
            refl refl refl refl refl refl refl)
    ];
  }

  pub remove_conn-Follows : (c : ℕ) → Follows r k (remove_conn c)
  unfolding remove_conn
  remove_conn-Follows c = record {
    run = λ w h. elim (Bool-cases (not (w.conns c).in_engine_map)) [
      | inl e ↦ rw e (same-Evolves w)
      | inr e ↦ rw e (
          conn_only c (λ x. record x { in_engine_map = false }) w _
            (record {
              state = refl;
              closed = refl;
              id = refl;
              initiator = refl;
              addr = refl;
              retries = refl;
            })
            refl refl refl refl refl refl refl)
    ];
  }

  pub alloc_stream_id-Follows : (c : ℕ) → Follows r k (alloc_stream_id c)
  unfolding alloc_stream_id
  alloc_stream_id-Follows c = record {
    run = λ w h.
        let rest =
          alloc_loop (λ id. not (get_stream_by_id w c id == 0)) (w.conns c).is_initiator
            ((w.conns c).stream_count + 1) (w.conns c).next_stream_id in
        conn_only c (λ x. record x { next_stream_id = rest.1 }) w _
          (record {
            state = refl;
            closed = refl;
            id = refl;
            initiator = refl;
            addr = refl;
            retries = refl;
          })
          refl refl refl refl refl refl refl;
  }

  -- A connection and a stream that change at once, with the counters.
  both_only :
      (c s : ℕ) (f : Conn → Conn) (g : Stream → Stream) (w w' : World)
      → IsQuietConn (w.conns c) (f (w.conns c))
      → IsQuietStream (w.streams s) (g (w.streams s))
      → w'.conns ≡ (mod_conn c f w).1.conns
      → w'.streams ≡ (mod_stream s g w).1.streams
      → w'.next_address ≡ w.next_address
      → w'.timers ≡ w.timers
      → w'.engine.operation_depth ≡ w.engine.operation_depth
      → w'.engine.pending_release_list ≡ w.engine.pending_release_list
      → w'.trace ≡ w.trace
      → Evolves r k w w'
  both_only c s f g w w' p q conns streams address timers depth queue trace =
      let e =
        mod_conn-Evolves {r = r} {k = k} c f w
          (λ below. r.quiet_conn (w.conns c) (f (w.conns c)) p) in
      let d =
        mod_stream-Evolves {r = r} {k = k} s g w
          (λ below. r.quiet_stream (w.streams s) (g (w.streams s)) q) in
      record {
        conns = rw conns e.conns;
        streams = rw streams d.streams;
        addresses = rw address e.addresses;
        depth = depth;
        due = rw timers e.due;
        queued = e.queued;
        queue = queue ∙ e.queue;
        nothing_freed = rw trace refl;
        sized = λ h. rw trace h;
      }

  pub add_stream-Follows : (c s : ℕ) → Follows r k (add_stream c s)
  unfolding add_stream
  add_stream-Follows c s = record {
    run = λ w h.
        let conn = w.conns c in
        let stream = w.streams s in
        elim (Bool-cases
          (conn.internal_closed || (stream.internal_closed || stream.in_stream_map))) [
            | inl e ↦ rw e (same-Evolves w)
            | inr e ↦ rw e (
                both_only c s
                  (λ x. record x {
                    stream_map =
                        add x.stream_map s (stream_cmp w stream.stream_id)
                          (stream_hash stream.stream_id);
                    stream_count = u32 (x.stream_count + 1);
                  })
                  (λ x. record x { in_stream_map = true }) w _
                  (record {
                    state = refl;
                    closed = refl;
                    id = refl;
                    initiator = refl;
                    addr = refl;
                    retries = refl;
                  })
                  (record {
                    state = refl;
                    phase = refl;
                    closed = refl;
                    id = refl;
                    initiator = refl;
                    conn = refl;
                    retries = refl;
                  })
                  refl refl refl refl refl refl refl)
          ];
  }

  pub remove_stream-Follows : (c s : ℕ) → Follows r k (remove_stream c s)
  unfolding remove_stream
  remove_stream-Follows c s = record {
    run = λ w h. elim (Bool-cases (not (w.streams s).in_stream_map)) [
      | inl e ↦ rw e (same-Evolves w)
      | inr e ↦ rw e (
          both_only c s
            (λ x. record x {
              stream_map = del x.stream_map s;
              stream_count = u32 (x.stream_count + 2 ^ 32 - 1);
            })
            (λ x. record x { in_stream_map = false }) w _
            (record {
              state = refl;
              closed = refl;
              id = refl;
              initiator = refl;
              addr = refl;
              retries = refl;
            })
            (record {
              state = refl;
              phase = refl;
              closed = refl;
              id = refl;
              initiator = refl;
              conn = refl;
              retries = refl;
            })
            refl refl refl refl refl refl refl)
    ];
  }
