-- ===== src/Route/PeerIds.antt =====
-- The stream IDs of the peer in src/kcpmux_conn.c: kcpmux_conn_is_new_peer_stream_id orders them as
-- serial numbers.
use kcp_mux.Base.{ℕ, ◌+◌, ◌%◌, ◌^◌, ◌<◌, ◌≡◌, ◌≢◌, ◌↔◌, ◌⊎◌, arith, true, false}
use kcp_mux.World.{Conn}
use kcp_mux.Route.{is_new_peer_stream_id}

-- `b` comes after `a` on the circle of 32-bit numbers, by less than half of it.
abbrev pub SerialAfter : ℕ → ℕ → Type 0
SerialAfter a b = ((a < b) × (b < a + 2 ^ 31)) ⊎ ((b < a) × (b + 2 ^ 31 < a))

-- kcpmux_conn_is_new_peer_stream_id accepts a 32-bit ID exactly when it is not zero, has the
-- peer's parity, and is either the first one of the peer or comes after the latest one on the
-- circle of 32-bit numbers by less than half of it.
pub is_new_peer_stream_id_iff :
    (conn : Conn) (stream_id : ℕ)
    → conn.latest_peer_stream_id < 2 ^ 32
    → stream_id < 2 ^ 32
    → (is_new_peer_stream_id conn stream_id ≡ true) ↔ (
        (stream_id ≢ 0)
        × (stream_id % 2 ≢ conn.is_initiator)
        × ((conn.peer_stream_id_initialized ≡ false)
            ⊎ SerialAfter conn.latest_peer_stream_id stream_id))
unfolding is_new_peer_stream_id
is_new_peer_stream_id_iff conn stream_id h l = (λ e. ground arith, λ e. ground arith)

-- Once an accepted 32-bit ID is recorded as the latest, the ID that was the latest before it is
-- refused, so that a late packet of that stream cannot open it again.
pub old_peer_stream_id_refused :
    (conn : Conn) (stream_id : ℕ)
    → conn.latest_peer_stream_id < 2 ^ 32
    → stream_id < 2 ^ 32
    → conn.peer_stream_id_initialized ≡ true
    → is_new_peer_stream_id conn stream_id ≡ true
    → is_new_peer_stream_id
        (record conn { latest_peer_stream_id = stream_id })
        conn.latest_peer_stream_id
      ≡ false
unfolding is_new_peer_stream_id
old_peer_stream_id_refused conn stream_id h l i e = ground arith
