-- ===== src/Route.antt =====
-- How packets find their objects: the engine's connection maps (src/kcpmux_engine.c) and a
-- connection's stream map and stream IDs (src/kcpmux_conn.c). Lookups answer 0 for NULL.
pub mod StreamIds
pub mod PeerIds
mod Examples
use Prim.Native.Nat.{bit_xor}
use kcp_mux.Base.{
  ℕ, zero, suc, ◌+◌, ◌-◌, ◌%◌, ◌^◌, ◌==◌, ltb, leb, if◌then◌else◌, Bool, true, false, not, ◌&&◌,
  ◌||◌, Option, none, some, List, length, same_bytes, update, u32, sub32,
}
use kcp_mux.Types.{addr_max_len}
use kcp_mux.Hash.{hash32, memory_bytes}
use kcp_mux.Htb.{find_node, add, del}
use kcp_mux.World.{World, M, Conn}
use kcp_mux.World.Stats.{plus}

-- kcpmux_conn_key_t
pub record ConnKey : Type 0 where
  pub addr : List ℕ
  pub id : ℕ

unfoldable pub conn_key_matches : ConnKey → Conn → ℕ → Bool
conn_key_matches key conn id = key.id == id && same_bytes key.addr conn.peer_addr

unfoldable pub conn_key_hash : ConnKey → ℕ
conn_key_hash key = bit_xor (hash32 key.addr) (hash32 (memory_bytes 8 key.id))

-- `__conn_cmp` and `__handshake_cmp` on the connection at an address.
unfoldable pub conn_cmp : World → ConnKey → ℕ → Bool
unfolding conn_key_matches
conn_cmp w key c = conn_key_matches key (w.conns c) (w.conns c).local_connection_id

unfoldable pub handshake_cmp : World → ConnKey → ℕ → Bool
unfolding conn_key_matches
handshake_cmp w key c = conn_key_matches key (w.conns c) (w.conns c).peer_connection_id

abbrev pub null_or : Option ℕ → ℕ
null_or none = 0
null_or (some a) = a

-- kcpmux_engine_add_conn
unfoldable pub add_conn : ℕ → M (Unit {0})
unfolding conn_cmp handshake_cmp conn_key_hash add
add_conn c w =
    let conn = w.conns c in
    let key : ConnKey = record { addr = conn.peer_addr; id = conn.local_connection_id } in
    let peer_key : ConnKey = record { addr = conn.peer_addr; id = conn.peer_connection_id } in
    let count = u32 (w.engine.conn_count + 1) in
    if conn.internal_closed || conn.in_engine_map then (tt, w) else (
      tt,
      record w {
        engine = record (w.engine) {
          conn_map = add w.engine.conn_map c (conn_cmp w key) (conn_key_hash key);
          handshake_map =
              if conn.is_initiator == 0
              then add w.engine.handshake_map c (handshake_cmp w peer_key) (conn_key_hash peer_key)
              else w.engine.handshake_map;
          conn_count = count;
          stats = record (w.engine.stats) { conn_count = count };
        };
        conns = update w.conns c (record conn { in_engine_map = true });
      },
    )

-- kcpmux_engine_remove_conn
unfoldable pub remove_conn : ℕ → M (Unit {0})
unfolding del
remove_conn c w =
    let conn = w.conns c in
    let count = u32 (w.engine.conn_count + 2 ^ 32 - 1) in
    if not conn.in_engine_map then (tt, w) else (
      tt,
      record w {
        engine = record (w.engine) {
          handshake_map =
              if conn.is_initiator == 0
              then del w.engine.handshake_map c
              else w.engine.handshake_map;
          conn_map = del w.engine.conn_map c;
          conn_count = count;
          stats = record (w.engine.stats) { conn_count = count };
        };
        conns = update w.conns c (record conn { in_engine_map = false });
      },
    )

abbrev pub good_addr : List ℕ → Bool
good_addr addr = not (length addr == 0) && leb (length addr) addr_max_len

-- kcpmux_engine_get_conn_by_id
unfoldable pub get_conn_by_id : World → List ℕ → ℕ → ℕ
unfolding find_node conn_cmp conn_key_hash
get_conn_by_id w addr local_connection_id =
    let key : ConnKey = record { addr = addr; id = local_connection_id } in
    if not (good_addr addr) || local_connection_id == 0
    then 0
    else null_or (find_node w.engine.conn_map (conn_cmp w key) (conn_key_hash key))

-- kcpmux_engine_get_passive_conn
unfoldable pub get_passive_conn : World → List ℕ → ℕ → ℕ
unfolding find_node handshake_cmp conn_key_hash
get_passive_conn w addr peer_connection_id =
    let key : ConnKey = record { addr = addr; id = peer_connection_id } in
    if not (good_addr addr) || peer_connection_id == 0
    then 0
    else null_or (find_node w.engine.handshake_map (handshake_cmp w key) (conn_key_hash key))

-- The hash of a stream ID, and `__stream_cmp` on the stream at an address.
unfoldable pub stream_hash : ℕ → ℕ
stream_hash stream_id = hash32 (memory_bytes 4 stream_id)

unfoldable pub stream_cmp : World → ℕ → ℕ → Bool
stream_cmp w stream_id s = stream_id == (w.streams s).stream_id

-- kcpmux_conn_add_stream
unfoldable pub add_stream : ℕ → ℕ → M (Unit {0})
unfolding stream_cmp stream_hash add
add_stream c s w =
    let conn = w.conns c in
    let stream = w.streams s in
    if conn.internal_closed || (stream.internal_closed || stream.in_stream_map) then (tt, w) else (
      tt,
      record w {
        conns = update w.conns c (record conn {
          stream_map =
              add conn.stream_map s (stream_cmp w stream.stream_id) (stream_hash stream.stream_id);
          stream_count = u32 (conn.stream_count + 1);
        });
        streams = update w.streams s (record stream { in_stream_map = true });
        engine = record (w.engine) {
          stats = record (w.engine.stats) { stream_count = plus w.engine.stats.stream_count 1 };
        };
      },
    )

-- kcpmux_conn_remove_stream
unfoldable pub remove_stream : ℕ → ℕ → M (Unit {0})
unfolding del
remove_stream c s w =
    let conn = w.conns c in
    let stream = w.streams s in
    if not stream.in_stream_map then (tt, w) else (
      tt,
      record w {
        conns = update w.conns c (record conn {
          stream_map = del conn.stream_map s;
          stream_count = u32 (conn.stream_count + 2 ^ 32 - 1);
        });
        streams = update w.streams s (record stream { in_stream_map = false });
        engine = record (w.engine) {
          stats = record (w.engine.stats) {
            stream_count = plus w.engine.stats.stream_count (2 ^ 64 - 1);
          };
        };
      },
    )

-- kcpmux_conn_get_stream_by_id
unfoldable pub get_stream_by_id : World → ℕ → ℕ → ℕ
unfolding find_node stream_cmp stream_hash
get_stream_by_id w c stream_id =
    null_or (find_node (w.conns c).stream_map (stream_cmp w stream_id) (stream_hash stream_id))

-- The loop of kcpmux_conn_alloc_stream_id, with the attempts left: the ID, or 0, and the next ID.
unfoldable pub alloc_loop : (ℕ → Bool) → ℕ → ℕ → ℕ → ℕ × ℕ
alloc_loop taken is_initiator zero next_stream_id = (0, next_stream_id)
alloc_loop taken is_initiator (suc attempts) next_stream_id =
    let id = if next_stream_id == 0 then (if is_initiator == 0 then 2 else 1) else next_stream_id in
    let rest = alloc_loop taken is_initiator attempts (u32 (id + 2)) in
    if taken id then rest else (id, u32 (id + 2))

unfoldable pub alloc_stream_id : ℕ → M ℕ
unfolding alloc_loop get_stream_by_id
alloc_stream_id c w =
    let conn = w.conns c in
    let r =
      alloc_loop (λ id. not (get_stream_by_id w c id == 0)) conn.is_initiator
        (conn.stream_count + 1) conn.next_stream_id in
    (r.0, record w { conns = update w.conns c (record conn { next_stream_id = r.1 }) })

-- kcpmux_conn_is_new_peer_stream_id; `x & 1` is `x % 2`.
unfoldable pub is_new_peer_stream_id : Conn → ℕ → Bool
is_new_peer_stream_id conn stream_id =
    let delta = sub32 stream_id conn.latest_peer_stream_id in
    if stream_id == 0
    then false
    else if stream_id % 2 == conn.is_initiator
    then false
    else if not conn.peer_stream_id_initialized
    then true
    else not (delta == 0) && ltb delta 0x80000000
