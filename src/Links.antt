-- ===== src/Links.antt =====
-- src/internal/kcpmux_list.h: the intrusive doubly linked list of the hash buckets, of the due
-- timers, of the pending batches and of the pending releases. A link is named by its address; the
-- store holds the two fields of every link, and the operations write them in the order of the code.
pub mod Ring
pub mod Unlink
pub mod Edits
pub mod Walk
mod Examples
use kcp_mux.Base.{
  ℕ, zero, suc, Bool, ◌==◌, if◌then◌else◌, Option, none, some, List, [], ◌∷◌, update,
}

-- The fields of every `list_head`.
pub record Links : Type 0 where
  pub next : ℕ → ℕ
  pub prev : ℕ → ℕ

abbrev pub set_next : ℕ → ℕ → Links → Links
set_next node value s = record s { next = update s.next node value }

abbrev pub set_prev : ℕ → ℕ → Links → Links
set_prev node value s = record s { prev = update s.prev node value }

unfoldable pub list_init : ℕ → Links → Links
list_init list s = set_prev list list (set_next list list s)

unfoldable pub list_empty : ℕ → Links → Bool
list_empty head s = s.next head == head

-- __list_add, between two neighbours.
unfoldable pub add_between : ℕ → ℕ → ℕ → Links → Links
add_between node prev next s =
    set_next prev node (set_prev node prev (set_next node next (set_prev next node s)))

unfoldable pub list_add_head : ℕ → ℕ → Links → Links
unfolding add_between
list_add_head node head s = add_between node head (s.next head) s

unfoldable pub list_add_tail : ℕ → ℕ → Links → Links
unfolding add_between
list_add_tail node head s = add_between node (s.prev head) head s

-- The first two writes of list_del, which list_dequeue makes too. The second one reads the links
-- that the first one has left.
unfoldable pub bypass : ℕ → Links → Links
bypass entry s =
    let s1 = set_prev (s.next entry) (s.prev entry) s in set_next (s1.prev entry) (s1.next entry) s1

unfoldable pub list_del : ℕ → Links → Links
unfolding bypass
list_del entry s = set_prev entry entry (set_next entry entry (bypass entry s))

-- The entry keeps its own links.
unfoldable pub list_dequeue : ℕ → Links → Links × Option ℕ
unfolding bypass
list_dequeue head s =
    let entry = s.next head in if entry == head then (s, none) else (bypass entry s, some entry)

unfoldable pub list_move_tail : ℕ → ℕ → Links → Links
unfolding list_del list_add_tail
list_move_tail entry head s = list_add_tail entry head (list_del entry s)

-- The entries that `list_for_each` visits, in a number of rounds that is given.
unfoldable pub for_each : ℕ → ℕ → ℕ → Links → List ℕ
for_each zero pos head s = []
for_each (suc fuel) pos head s =
    let rest = for_each fuel (s.next pos) head s in if pos == head then [] else pos ∷ rest

unfoldable pub for_each_prev : ℕ → ℕ → ℕ → Links → List ℕ
for_each_prev zero pos head s = []
for_each_prev (suc fuel) pos head s =
    let rest = for_each_prev fuel (s.prev pos) head s in if pos == head then [] else pos ∷ rest
