-- ===== src/Vectored/Examples.antt =====
-- The cursor of a vectored send of src/kcpmux_stream.c on three fragments, one of them empty.
use kcp_mux.Base.{◌≡◌, refl, arith, List, [], ◌∷◌}
use kcp_mux.Types.{Iovec, fragment}
use kcp_mux.Vectored.{Cursor, vectored_copy, vectored_advance}
use kcp_mux.Vectored.Bytes.{vectored_copy_correct}
use kcp_mux.Vectored.Advance.{Advanced, AtBytes, vectored_advance_correct}

abbrev fragments : List Iovec
fragments = fragment (1 ∷ 2 ∷ []) ∷ fragment [] ∷ fragment (3 ∷ 4 ∷ 5 ∷ []) ∷ []

abbrev inside_first : Cursor
inside_first = record { index = 0; offset = 1 }

advance_over_empty : vectored_advance fragments inside_first 1 ≡ record { index = 2; offset = 0 }
unfolding vectored_advance
advance_over_empty = refl

vectored_copy_correct_example : vectored_copy fragments inside_first 3 ≡ 2 ∷ 3 ∷ 4 ∷ []
vectored_copy_correct_example =
    vectored_copy_correct fragments inside_first 3 (omega arith, omega arith) (omega arith)

vectored_advance_correct_example :
    Advanced fragments inside_first 3 (vectored_advance fragments inside_first 3)
    × AtBytes fragments (vectored_advance fragments inside_first 3)
vectored_advance_correct_example =
    vectored_advance_correct fragments inside_first 3 (omega arith, omega arith) (omega arith)
