-- ===== src/Engine/Examples.antt =====
-- The end of an operation of src/kcpmux_engine.c with two objects to free.
use kcp_mux.Base.{ℕ, ◌+◌, ◌≡◌, [], ◌∷◌, refl}
use kcp_mux.World.{World, conn_release, stream_free, freed}
use kcp_mux.Loop.{blank_world}
use kcp_mux.Scenarios.{fresh}
use kcp_mux.Engine.{operation_leave}
use kcp_mux.Engine.Operations.{Left, operation_leave_correct}

abbrev inside : World
inside = record fresh {
  engine = record (fresh.engine) {
    operation_depth = 1;
    pending_release_list = stream_free 2 ∷ conn_release 1 ∷ [];
  };
}

frees_in_order : (operation_leave inside).1.trace ≡ freed 1 ∷ freed 2 ∷ []
unfolding operation_leave blank_world
frees_in_order = refl

operation_leave_correct_example :
    ((n : ℕ)
      → inside.engine.operation_depth ≡ n + 2
      → (operation_leave inside).1
        ≡ record inside { engine = record (inside.engine) { operation_depth = n + 1 } })
    × (inside.engine.operation_depth ≡ 1 → Left inside (operation_leave inside).1)
operation_leave_correct_example = operation_leave_correct inside
