-- ===== src/ConnLife/Closing.antt =====
-- kcpmux_conn_close_internal in src/kcpmux_conn.c: the end of a connection and of its streams.
use kcp_mux.Base.{
  ℕ, ◌≡◌, ◌≢◌, inl, inr, refl, sym, ◌∙◌, ap, arith, List, [], ◌∷◌, ◌++◌, map, true, false, ◌==◌,
  if◌then◌else◌, Bool-cases, update, contains, Distinct, append_assoc, append-nil,
}
use kcp_mux.Types.{ConnState, conn_is}
use kcp_mux.Htb.{all_nodes}
use kcp_mux.World.{World, Conn, Stream, conn_release, stream_free}
use kcp_mux.World.Stats.{plus}
use kcp_mux.Engine.{unregister_timer_node}
use kcp_mux.Engine.Aside.{unregister_timer_node-IsAside}
use kcp_mux.Route.{remove_conn}
use kcp_mux.Stream.{stream_close_internal}
use kcp_mux.Stream.Closing.{
  ConnsKept, stream_close_internal_correct, stream_close_internal-ConnsKept,
}
use kcp_mux.ConnLife.{conn_close_internal, close_streams, end_conn}

-- What closing the streams of a list does.
pub record StreamsEnded (streams : List ℕ) (w w' : World) : Type 0 where
  pub closed : (s : ℕ) → contains streams s ≡ true → (w'.streams s).internal_closed ≡ true
  pub others : (s : ℕ) → contains streams s ≡ false → w'.streams s ≡ w.streams s
  pub queued :
      w'.engine.pending_release_list ≡ w.engine.pending_release_list ++ map stream_free streams
  pub conns : ConnsKept w w'

-- Membership in a list by its head.
contains_rest : (x : ℕ) (xs : List ℕ) (s : ℕ) → contains xs s ≡ true → contains (x ∷ xs) s ≡ true
contains_rest x xs s h = ground arith

contains_first : (x : ℕ) (xs : List ℕ) → contains (x ∷ xs) x ≡ true
contains_first x xs = ground arith

apart_first : (x : ℕ) (xs : List ℕ) (s : ℕ) → contains xs x ≡ false → contains xs s ≡ true → s ≢ x
apart_first x xs s d h e = ground arith

not_contained :
    (x : ℕ) (xs : List ℕ) (s : ℕ) → contains (x ∷ xs) s ≡ false → (contains xs s ≡ false) × (s ≢ x)
not_contained x xs s h = (ground arith, λ e. ground arith)

only_first :
    (x : ℕ) (xs : List ℕ) (s : ℕ) → contains (x ∷ xs) s ≡ true → contains xs s ≡ false → s ≡ x
only_first x xs s h n = ground arith

close_streams_lem :
    (streams : List ℕ) (reason : ℕ) (w : World)
    → Distinct streams
    → ((s : ℕ) → contains streams s ≡ true → (w.streams s).internal_closed ≡ false)
    → StreamsEnded streams w (close_streams streams reason w).1
unfolding close_streams
close_streams_lem [] reason w d h = record {
  closed = λ s e. absurd (ground arith);
  others = λ s e. refl;
  queued = sym (append-nil w.engine.pending_release_list);
  conns = λ k. (refl, refl);
}
close_streams_lem (x ∷ xs) reason w d h =
    let w1 = (stream_close_internal x reason w).1 in
    let is_open : (w.streams x).internal_closed ≡ false = h x (contains_first x xs) in
    let e = (stream_close_internal_correct x reason w).0 is_open in
    let k = stream_close_internal-ConnsKept x reason w is_open in
    let still : (s : ℕ) → contains xs s ≡ true → (w1.streams s).internal_closed ≡ false = λ s q.
      ap Stream.internal_closed (e.others s (apart_first x xs s d.0 q))
      ∙ h s (contains_rest x xs s q) in
    let r = close_streams_lem xs reason w1 d.1 still in
    let r_queued = r.queued in
    record {
      closed = λ s q. elim (Bool-cases (contains xs s)) [
        | inl inside ↦ r.closed s inside
        | inr outside ↦
            let same : s ≡ x = only_first x xs s q outside in
            rw same (ap Stream.internal_closed (r.others x (rw same at outside)) ∙ e.closed)
      ];
      others =
          λ s q. (let (rest, first) = not_contained x xs s q in r.others s rest ∙ e.others s first);
      queued =
          r_queued
          ∙ ap (λ l. l ++ map stream_free xs) e.queued
          ∙ append_assoc w.engine.pending_release_list (stream_free x ∷ []) (map stream_free xs);
      conns = λ c. ((r.conns c).0 ∙ (k c).0, (r.conns c).1 ∙ (k c).1);
    }

abbrev pub final_conn_state : ConnState → ConnState
final_conn_state s = if conn_is s ConnState.error then s else ConnState.closed

-- What a part of the end does to connection `c`, when it frees nothing.
record Quiet (c : ℕ) (w w' : World) : Type 0 where
  pub closed : (w'.conns c).internal_closed ≡ (w.conns c).internal_closed
  pub state : (w'.conns c).state ≡ (w.conns c).state
  pub streams : w'.streams ≡ w.streams
  pub releases : w'.engine.pending_release_list ≡ w.engine.pending_release_list

remove_conn_lem : (c : ℕ) (w : World) → Quiet c w (remove_conn c w).1
unfolding remove_conn
remove_conn_lem c w = elim (Bool-cases (w.conns c).in_engine_map) [
  | inl e ↦
      rw e (record { closed = ground arith; state = ground arith; streams = refl; releases = refl })
  | inr e ↦ rw e (record { closed = refl; state = refl; streams = refl; releases = refl })
]

-- What the last part does.
record LastPart (c : ℕ) (w w' : World) : Type 0 where
  pub closed : (w'.conns c).internal_closed ≡ (w.conns c).internal_closed
  pub state : (w'.conns c).state ≡ final_conn_state (w.conns c).state
  pub streams : w'.streams ≡ w.streams
  pub queued :
      w'.engine.pending_release_list ≡ w.engine.pending_release_list ++ (conn_release c ∷ [])

end_conn_lem : (c reason : ℕ) (conn : Conn) (w : World) → LastPart c w (end_conn c reason conn w).1
unfolding end_conn
end_conn_lem c reason conn w =
    let here : (c == c) ≡ true = ground arith in
    elim (Bool-cases conn.callbacks.conn_close_notify) [
      | inl e ↦
          rw e
            (record { closed = rw here refl; state = rw here refl; streams = refl; queued = refl })
      | inr e ↦
          rw e
            (record { closed = rw here refl; state = rw here refl; streams = refl; queued = refl })
    ]

abbrev marked : ℕ → World → World
marked c w = record w { conns = update w.conns c (record (w.conns c) { internal_closed = true }) }

-- The world before the streams are closed.
abbrev counted : World → World
counted w = record w {
  engine = record (w.engine) {
    stats = record (w.engine.stats) { conn_closed_total = plus w.engine.stats.conn_closed_total 1 };
  };
}

abbrev off_map : ℕ → World → World
off_map c w = counted (remove_conn c (unregister_timer_node c (marked c w)).1).1

abbrev pub streams_of : ℕ → World → List ℕ
streams_of c w = all_nodes (w.conns c).stream_map.hashtable

close_steps :
    (c reason : ℕ) (w : World)
    → (w.conns c).internal_closed ≡ false
    → conn_close_internal c reason w
      ≡ end_conn c reason (w.conns c) (close_streams (streams_of c w) reason (off_map c w)).1
unfolding conn_close_internal
close_steps c reason w e = rw e refl

close_again :
    (c reason : ℕ) (w : World)
    → (w.conns c).internal_closed ≡ true
    → (conn_close_internal c reason w).1 ≡ w
unfolding conn_close_internal
close_again c reason w e = rw e refl

-- What the end of connection `c` leaves: it is closed in a final state, its streams are closed, and
-- they are queued to be freed before it; no other stream is touched.
pub record ConnEnded (c : ℕ) (w w' : World) : Type 0 where
  pub closed : (w'.conns c).internal_closed ≡ true
  pub state : (w'.conns c).state ≡ final_conn_state (w.conns c).state
  pub streams : (s : ℕ) → contains (streams_of c w) s ≡ true → (w'.streams s).internal_closed ≡ true
  pub others : (s : ℕ) → contains (streams_of c w) s ≡ false → w'.streams s ≡ w.streams s
  pub queued :
      w'.engine.pending_release_list
      ≡ w.engine.pending_release_list ++ map stream_free (streams_of c w) ++ (conn_release c ∷ [])

marked_lem :
    (c : ℕ) (w : World)
    → (((marked c w).conns c).internal_closed ≡ true)
      × (((marked c w).conns c).state ≡ (w.conns c).state)
marked_lem c w = let here : (c == c) ≡ true = ground arith in (rw here refl, rw here refl)

-- When the stream map of a connection holds no stream twice and no closed one,
-- kcpmux_conn_close_internal of a connection that is not closed yet ends it: every stream of its
-- map is closed and queued to be freed, in the order of the map, and the connection after all of
-- them. It does nothing to a connection that is closed, so that none is queued twice.
pub conn_close_internal_correct :
    (c reason : ℕ) (w : World)
    → Distinct (streams_of c w)
    → ((s : ℕ) → contains (streams_of c w) s ≡ true → (w.streams s).internal_closed ≡ false)
    → ((w.conns c).internal_closed ≡ false → ConnEnded c w (conn_close_internal c reason w).1)
      × ((w.conns c).internal_closed ≡ true → (conn_close_internal c reason w).1 ≡ w)
conn_close_internal_correct c reason w distinct is_open = (
  λ e.
      let unregistered = (unregister_timer_node c (marked c w)).1 in
      let a = unregister_timer_node-IsAside c (marked c w) in
      let q = remove_conn_lem c unregistered in
      let same : (off_map c w).streams ≡ w.streams = q.streams ∙ a.streams in
      let r =
        close_streams_lem (streams_of c w) reason (off_map c w) distinct
          (λ s i. ap (λ f. (f s).internal_closed) same ∙ is_open s i) in
      let before = (close_streams (streams_of c w) reason (off_map c w)).1 in
      let f = end_conn_lem c reason (w.conns c) before in
      let m = marked_lem c w in
      let conn = ap (λ g. g c) a.conns in
      rw (close_steps c reason w e) (record {
        closed = f.closed ∙ (r.conns c).0 ∙ q.closed ∙ ap Conn.internal_closed conn ∙ m.0;
        state = f.state ∙ ap final_conn_state ((r.conns c).1 ∙ q.state ∙ ap Conn.state conn ∙ m.1);
        streams = λ s i. ap (λ g. (g s).internal_closed) f.streams ∙ r.closed s i;
        others = λ s i. ap (λ g. g s) f.streams ∙ r.others s i ∙ ap (λ g. g s) same;
        queued =
            f.queued
            ∙ ap (λ l. l ++ (conn_release c ∷ []))
                (r.queued
                  ∙ ap (λ l. l ++ map stream_free (streams_of c w)) (q.releases ∙ a.releases));
      }),
  close_again c reason w,
)
