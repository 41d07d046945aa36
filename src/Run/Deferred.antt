-- ===== src/Run/Deferred.antt =====
-- Objects that end inside an operation of src/kcpmux_engine.c stay in memory until it is left.
use kcp_mux.Base.{◌≡◌, List, ◌++◌}
use kcp_mux.World.{World, Release}
use kcp_mux.Life.Relation.{freed_in}

-- No object that was there has been freed, and what was queued to be freed is queued still, in its
-- order.
pub record IsDeferred (w v : World) : Type 0 where
  pub none_freed : freed_in w.next_address v.trace ≡ freed_in w.next_address w.trace
  pub queued : List Release
  pub queue : v.engine.pending_release_list ≡ w.engine.pending_release_list ++ queued
