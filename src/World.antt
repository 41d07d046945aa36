-- ===== src/World.antt =====
-- The state that the functions of src/ share: the engine, the timers, and the connections and
-- streams in memory, with the host that answers the program's calls.
-- An object is named by its address and NULL is 0. Statistics are `uint64_t` counters.
pub mod Objects
mod Monad
pub mod Stats
pub use Objects.*
pub use Monad.*
