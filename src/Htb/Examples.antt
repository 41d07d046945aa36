-- ===== src/Htb/Examples.antt =====
-- A table of src/internal/kcpmux_hashtable.c with one node in its first bucket.
use kcp_mux.Base.{ℕ, ◌≡◌, arith, refl, [], ◌∷◌, none, some, true, false, ◌==◌}
use kcp_mux.Htb.{Htb, add, del, linked}
use kcp_mux.Htb.Lookup.{Key, Added, Deleted, lookup, add_correct, del_correct}

abbrev small : Htb
small = record { hashtable = (5 ∷ []) ∷ [] ∷ [] ∷ []; num = 1 }

abbrev seven : Key
seven = record { hash = 3; cmp = λ n. n == 7 }

add_correct_example :
    ((p : ℕ) → lookup small seven ≡ some p → add small 7 seven.cmp seven.hash ≡ small)
    × (lookup small seven ≡ none → Added small 7 seven.hash (add small 7 seven.cmp seven.hash))
add_correct_example = add_correct small 7 seven (omega arith)

del_correct_example :
    (linked small.hashtable 5 ≡ true → Deleted small 5 (del small 5))
    × (linked small.hashtable 5 ≡ false → del small 5 ≡ small)
del_correct_example = del_correct small 5

shares_bucket : (add small 7 seven.cmp seven.hash).hashtable ≡ (7 ∷ 5 ∷ []) ∷ [] ∷ [] ∷ []
unfolding add
shares_bucket = refl
