-- ===== src/Htb.antt =====
-- src/internal/kcpmux_hashtable.c over src/internal/kcpmux_list.h: a chained hash table of a fixed
-- number of buckets. A node is named by its address and a bucket lists the nodes from its head;
-- `cmp` is the comparison callback applied to the key. The free callbacks of the program do
-- nothing, so `cb_free` has no effect here. Keys and nodes are not NULL.
pub mod Lookup
mod Examples
use kcp_mux.Base.{
  ℕ, ◌+◌, ◌-◌, ◌%◌, max, Bool, false, ◌||◌, if◌then◌else◌, List, [], ◌∷◌, ◌++◌, map, Option, none,
  some, length, get_or, set, replicate, find, contains, remove,
}
use mathlib.Core.List.{reverse}

pub record Htb : Type 0 where
  pub hashtable : List (List ℕ)
  pub num : ℕ

-- `none` is NULL, when `calloc` fails.
unfoldable pub new : Bool → ℕ → Option Htb
new calloc_ok size =
    if calloc_ok then some (record { hashtable = replicate (max 11 size) []; num = 0 }) else none

-- The index of the bucket of a hash, and the bucket.
abbrev pub home : Htb → ℕ → ℕ
home ht hash = hash % length ht.hashtable

abbrev pub bucket : Htb → ℕ → List ℕ
bucket ht hash = get_or ht.hashtable (home ht hash) []

unfoldable pub find_node : Htb → (ℕ → Bool) → ℕ → Option ℕ
find_node ht cmp hash = find cmp (bucket ht hash)

-- The search from the tail, which moves what it finds to the tail.
unfoldable pub find_lru : Htb → (ℕ → Bool) → ℕ → Htb × Option ℕ
find_lru ht cmp hash = elim (find cmp (reverse (bucket ht hash))) [
  | none ↦ (ht, none)
  | some p ↦ (
    record ht {
      hashtable = set ht.hashtable (home ht hash) (remove (bucket ht hash) p ++ (p ∷ []));
    },
    some p,
  )
]

unfoldable pub add_direct : Htb → ℕ → ℕ → Htb
add_direct ht node hash = record {
  hashtable = set ht.hashtable (home ht hash) (node ∷ bucket ht hash);
  num = ht.num + 1;
}

unfoldable pub add : Htb → ℕ → (ℕ → Bool) → ℕ → Htb
unfolding find_node add_direct
add ht node cmp hash = elim (find_node ht cmp hash) [ none ↦ add_direct ht node hash | some p ↦ ht ]

-- Whether a node's links lead anywhere but to itself.
unfoldable pub linked : List (List ℕ) → ℕ → Bool
linked [] node = false
linked (b ∷ bs) node = contains b node || linked bs node

unfoldable pub del : Htb → ℕ → Htb
unfolding linked
del ht node =
    if linked ht.hashtable node
    then record { hashtable = map (λ b. remove b node) ht.hashtable; num = ht.num - 1 }
    else ht

unfoldable pub del_by_key : Htb → (ℕ → Bool) → ℕ → Htb
unfolding find_node del
del_by_key ht cmp hash = elim (find_node ht cmp hash) [ none ↦ ht | some node ↦ del ht node ]

unfoldable pub flush : Htb → Htb
flush ht = record { hashtable = map (λ b. []) ht.hashtable; num = 0 }

-- The nodes in the order in which the program walks the whole table.
abbrev pub all_nodes : List (List ℕ) → List ℕ
all_nodes [] = []
all_nodes (b ∷ bs) = b ++ all_nodes bs
