-- ===== src/Life.antt =====
-- What an action of src/kcpmux_engine.c, src/kcpmux_conn.c, src/kcpmux_stream.c and
-- src/kcpmux_protocol.c may do to the objects that are there before it, with a rule for each way
-- in which actions are put together.
pub mod Relation
pub mod Combinators
pub mod Changes
pub mod At
pub mod DueList
pub mod Timing
pub mod Messages
pub mod Quiet
pub mod Maps
pub mod Forward
pub mod Ends
pub mod Moves
pub mod Fresh
pub mod Data
pub mod Streams
pub mod Conns
pub mod Packets
