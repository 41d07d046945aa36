-- ===== src/Lib.antt =====
-- kcp-mux: connections and multiplexed streams over KCP, after the C sources under src/ and
-- include/kcpmux/.
--
-- The parts of the program and the files that model them:
-- - include/kcpmux/kcpmux_types.h: Types (error codes, states, I/O fragments), Config (the
--   configurations, with their validation in src/kcpmux_engine.c), World/Stats (the counters).
-- - src/kcpmux_protocol.c: Wire (integers in network order, the bytes of each message), Send (the
--   senders), Protocol (kcpmux_protocol_input) with ConnMessages and StreamMessages (one definition
--   for each message type).
-- - src/kcpmux_timer.c and src/kcpmux_timer.h: Timer, an indexed min-heap of deadlines. Its
--   children carry the proofs, from the order of nodes (Order) over writes to slots (Slots), the
--   two sifts (SiftUp, SiftDown, Resift), removal, cancelling, scheduling and collecting to the
--   invariant along the timer operations of the engine (Kept, Reach).
-- - src/internal/kcpmux_hash.c and src/internal/kcpmux_hashtable.c: Hash and Htb.
-- - src/kcpmux_engine.c: Engine (operations with deferred releases, timer nodes, the external
--   one-shot timer, the transport), Route (the connection maps), Loop (update, input, finish_batch,
--   create and destroy).
-- - src/kcpmux_conn.c: Route (stream map and stream IDs), Conn (deadlines and states), ConnLife
--   (creation, close, connect), ConnUpdate (the timer callback).
-- - src/kcpmux_stream.c: Stream (states and deadlines), Vectored (the cursor over fragments),
--   Transfer (send, batch, receive), StreamLife (creation, close), StreamUpdate (the timer
--   callback), StreamPeer (incoming messages).
-- - src/internal/kcpmux_list.h: Links, the intrusive list over a store of links. The other files
--   write a list of the program as the list of its entries (Links.Ring relates the two).
-- - src/kcpmux_kcp.c: Kcp, the default KCP table over a KCP library that is a parameter.
-- - the queries of src/kcpmux_conn.c, src/kcpmux_stream.c and src/kcpmux_engine.c: Query.
-- - demo/demo_common.c: Demo, the addresses and the wake-up time of an endpoint.
-- - include/kcpmux/kcpmux.h as a whole: Run, the calls of a host as a step relation (Run.Reach).
--   Life, which it stands on, has what each action may do to the objects that are there before it
--   (Life.Follows) and one rule for each way of putting actions together; its children follow the
--   calls of the program from the timers and the messages up to kcpmux_protocol_input.
-- An incoming packet goes from Loop.engine_input through Protocol.protocol_input and Route to the
-- handlers of ConnMessages and StreamMessages; a tick goes from Loop.engine_update through
-- Timer.collect_due to conn_update and stream_update; sends go through Transfer and Send to
-- Engine.engine_write_socketv.
--
-- State: World/Objects has the structs as records, World/Monad has the world that every operation
-- takes and returns: the engine, its timers, the connections and streams by address, the trace of
-- what the program did to its surroundings (newest first), and the host. The host is what the
-- program only calls: the callbacks of the application, the KCP implementation, `malloc`,
-- `realloc` and `rand`. It is a record of functions from the number of calls made so far to the
-- answer, so that a theorem holds for all behaviours of the host. NULL is the address 0, or `none`
-- of an optional. A timer node is named by the address of its owner.
--
-- Conventions: numbers are natural numbers, and a machine integer wraps with its `% 2 ^ w` written
-- out (u8, u16, u32, u64, sub32, sub64 of Base/Words). Times come from a monotonic clock and are
-- not negative. Buffers are lists of bytes of the given length and not NULL, and the tests for NULL
-- of internal functions whose callers never pass NULL are left out. An extension is the list of
-- its bytes. A callback of the application may call the setters of a new connection or stream, as
-- the reply of the host says; other calls back into the library are not modelled. The free
-- callbacks of the hash tables do nothing, in the program too.
--
-- Loops: sift_up has index + 1 rounds, sift_down, collect_due and the batch and due lists have as
-- many rounds as the list has entries, since each round takes one out; grow_capacity has 64
-- doublings, which pass every `size_t`; the loops over fragments have one round for each fragment
-- and one more; send_loop has as many rounds as there are bytes, since a chunk is not empty;
-- close_all has as many rounds as there are connections, and alloc_loop has the stream count and
-- one, as in the program.
--
-- Not modelled: third_party/kcp (a copy of another project, called through the operations of the
-- host), the release and setoutput entries of src/kcpmux_kcp.c (they hand on a pointer), calls of
-- the host from inside a callback, kcpmux_hash32_str (not called), the freeing of the tables and
-- of the heap's array, the rest of the demo programs (sockets, arguments, printing), the tests and
-- the build files.
pub mod Base
pub mod Types
pub mod Config
pub mod Wire
pub mod Hash
pub mod Htb
pub mod Links
pub mod Timer
pub mod World
pub mod Engine
pub mod Route
pub mod Send
pub mod Conn
pub mod Stream
pub mod Vectored
pub mod Transfer
pub mod StreamLife
pub mod StreamUpdate
pub mod StreamPeer
pub mod ConnLife
pub mod ConnUpdate
pub mod ConnMessages
pub mod StreamMessages
pub mod Protocol
pub mod Loop
pub mod Life
pub mod Run
pub mod Query
pub mod Kcp
pub mod Demo
mod Scenarios
