-- ===== src/Life/Relation.antt =====
-- What an action may do to the objects that are there before it, as a relation between two worlds.
use kcp_mux.Base.{
  ℕ, ◌+◌, ◌≤◌, ◌<◌, ◌≡◌, refl, ◌∙◌, ap, arith, List, [], ◌∷◌, ◌++◌, length, append_assoc,
  if◌then◌else◌, ltb,
}
use kcp_mux.Config.{msg_max_len}
use kcp_mux.Engine.{total_len}
use kcp_mux.Timer.{Timers}
use kcp_mux.World.{wrote, World, M, Event, Conn, Stream, Release, freed}

-- The connection keeps its state, its count of retries and what names it.
pub record IsQuietConn (x y : Conn) : Type 0 where
  pub state : y.state ≡ x.state
  pub closed : y.internal_closed ≡ x.internal_closed
  pub id : y.local_connection_id ≡ x.local_connection_id
  pub initiator : y.is_initiator ≡ x.is_initiator
  pub addr : y.peer_addr ≡ x.peer_addr
  pub retries : y.retry_count ≡ x.retry_count

-- The stream keeps its state, its close phase, its count of retries and what names it.
pub record IsQuietStream (x y : Stream) : Type 0 where
  pub state : y.state ≡ x.state
  pub phase : y.close_phase ≡ x.close_phase
  pub closed : y.internal_closed ≡ x.internal_closed
  pub id : y.stream_id ≡ x.stream_id
  pub initiator : y.is_initiator ≡ x.is_initiator
  pub conn : y.conn ≡ x.conn
  pub retries : y.retry_count ≡ x.retry_count

-- A change is seen field by field.
pub IsQuietConn-fields :
    {x y : Conn}
    → y.state ≡ x.state
    → y.internal_closed ≡ x.internal_closed
    → y.local_connection_id ≡ x.local_connection_id
    → y.is_initiator ≡ x.is_initiator
    → y.peer_addr ≡ x.peer_addr
    → y.retry_count ≡ x.retry_count
    → IsQuietConn x y
IsQuietConn-fields state closed id initiator addr retries = record {
  state = state;
  closed = closed;
  id = id;
  initiator = initiator;
  addr = addr;
  retries = retries;
}

pub IsQuietStream-fields :
    {x y : Stream}
    → y.state ≡ x.state
    → y.close_phase ≡ x.close_phase
    → y.internal_closed ≡ x.internal_closed
    → y.stream_id ≡ x.stream_id
    → y.is_initiator ≡ x.is_initiator
    → y.conn ≡ x.conn
    → y.retry_count ≡ x.retry_count
    → IsQuietStream x y
IsQuietStream-fields state phase closed id initiator conn retries = record {
  state = state;
  phase = phase;
  closed = closed;
  id = id;
  initiator = initiator;
  conn = conn;
  retries = retries;
}

-- How a connection and a stream may change.
pub record Rel : Type 1 where
  pub OfConn : Conn → Conn → Type 0
  pub OfStream : Stream → Stream → Type 0
  pub quiet_conn : (x y : Conn) → IsQuietConn x y → OfConn x y
  pub quiet_stream : (x y : Stream) → IsQuietStream x y → OfStream x y
  pub trans_conn : (x y z : Conn) → OfConn x y → OfConn y z → OfConn x z
  pub trans_stream : (x y z : Stream) → OfStream x y → OfStream y z → OfStream x z

pub same-IsQuietConn : (x : Conn) → IsQuietConn x x
same-IsQuietConn x = record {
  state = refl;
  closed = refl;
  id = refl;
  initiator = refl;
  addr = refl;
  retries = refl;
}

pub same-IsQuietStream : (x : Stream) → IsQuietStream x x
same-IsQuietStream x = record {
  state = refl;
  phase = refl;
  closed = refl;
  id = refl;
  initiator = refl;
  conn = refl;
  retries = refl;
}

-- How often an object below the address `k` was freed.
abbrev pub freed_in : ℕ → List Event → ℕ
freed_in k [] = 0
freed_in k (freed a ∷ trace) = let rest = freed_in k trace in if ltb a k then rest + 1 else rest
freed_in k (_ ∷ trace) = freed_in k trace

-- Every datagram that was sent has at most KCPMUX_PROTO_MSG_MAX_LEN bytes.
abbrev pub AreSized : List Event → Type 0
AreSized [] = Unit {0}
AreSized (wrote iov addr ∷ trace) = (total_len iov ≤ msg_max_len) × AreSized trace
AreSized (_ ∷ trace) = AreSized trace

-- An event that frees nothing and sends no larger datagram.
abbrev pub IsPlain : Event → Type 0
IsPlain (freed a) = ⊥
IsPlain (wrote iov addr) = total_len iov ≤ msg_max_len
IsPlain _ = Unit {0}

pub IsPlain-freed_in :
    (k : ℕ) (e : Event) (trace : List Event) → IsPlain e → freed_in k (e ∷ trace) ≡ freed_in k trace
IsPlain-freed_in k e trace p = ground arith

pub IsPlain-AreSized :
    (e : Event) (trace : List Event) → IsPlain e → AreSized trace → AreSized (e ∷ trace)
IsPlain-AreSized e trace p q = ground arith

-- The objects below the address `k` change as `r` says, addresses are only handed out, the depth of
-- the operation stays, no timer becomes due, the queue of releases only grows, none of them is freed, and
-- no datagram is too large.
pub record Evolves (r : Rel) (k : ℕ) (w w' : World) : Type 0 where
  pub conns : (c : ℕ) → c < k → r.OfConn (w.conns c) (w'.conns c)
  pub streams : (s : ℕ) → s < k → r.OfStream (w.streams s) (w'.streams s)
  pub addresses : w.next_address ≤ w'.next_address
  pub depth : w'.engine.operation_depth ≡ w.engine.operation_depth
  pub due : length w'.timers.due ≤ length w.timers.due
  pub queued : List Release
  pub queue : w'.engine.pending_release_list ≡ w.engine.pending_release_list ++ queued
  pub nothing_freed : freed_in k w'.trace ≡ freed_in k w.trace
  pub sized : AreSized w.trace → AreSized w'.trace

pub Evolves-trans :
    (r : Rel) (k : ℕ) (w v u : World) → Evolves r k w v → Evolves r k v u → Evolves r k w u
Evolves-trans r k w v u p q = record {
  conns = λ c h. r.trans_conn (w.conns c) (v.conns c) (u.conns c) (p.conns c h) (q.conns c h);
  streams = λ s h.
      r.trans_stream (w.streams s) (v.streams s) (u.streams s) (p.streams s h) (q.streams s h);
  addresses = omega (arith, p.addresses, q.addresses);
  depth = q.depth ∙ p.depth;
  due = omega (arith, p.due, q.due);
  queued = p.queued ++ q.queued;
  queue =
      q.queue
      ∙ ap (λ l. l ++ q.queued) p.queue
      ∙ append_assoc w.engine.pending_release_list p.queued q.queued;
  nothing_freed = q.nothing_freed ∙ p.nothing_freed;
  sized = λ t. q.sized (p.sized t);
}

-- An action does so wherever `k` addresses have been handed out.
pub record Follows (r : Rel) (k : ℕ) {A : Type 0} (m : M A) : Type 0 where
  pub run : (w : World) → k ≤ w.next_address → Evolves r k w (m w).1

-- The timers of an action that keeps the list of due nodes, or shortens it.
abbrev pub Shortens : (Timers → Timers) → Type 0
Shortens f = (t : Timers) → length (f t).due ≤ length t.due
