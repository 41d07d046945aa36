-- ===== src/Htb/Lookup.antt =====
-- What lookups in the hash table of src/internal/kcpmux_hashtable.c answer after an entry was added
-- or deleted.
use kcp_mux.Base.{
  ℕ, zero, suc, ◌+◌, ◌-◌, ◌%◌, ◌<◌, ◌≡◌, refl, subst, sym, ap, arith, List, [], ◌∷◌, Bool, true,
  false, Option, none, some, length, get_or, find, remove, map, length-set, get_or-set, ◌==◌,
  if◌then◌else◌, Bool-cases, inl, inr,
}
use kcp_mux.Htb.{Htb, home, bucket, find_node, add, add_direct, del, linked}

-- A key as the program looks it up: the hash of the key, and the comparison with a node.
pub record Key : Type 0 where
  pub hash : ℕ
  pub cmp : ℕ → Bool

abbrev pub lookup : Htb → Key → Option ℕ
lookup ht k = find_node ht k.cmp k.hash

pub bucket-add_direct :
    (ht : Htb) (node hash hash' : ℕ)
    → 0 < length ht.hashtable
    → bucket (add_direct ht node hash) hash'
      ≡ (if home ht hash == home ht hash' then node ∷ bucket ht hash else bucket ht hash')
unfolding add_direct
bucket-add_direct ht node hash hash' h =
    let size = length-set ht.hashtable (home ht hash) (node ∷ bucket ht hash) in
    rw size (
      get_or-set ht.hashtable (home ht hash) (home ht hash') (node ∷ bucket ht hash) []
        (omega arith))

-- What an addition does: the key of the new node finds it, every key that the node does not match
-- finds what it found before, and one more node is counted.
pub record Added (ht : Htb) (node hash : ℕ) (u : Htb) : Type 0 where
  pub here : (k : Key) → k.hash ≡ hash → k.cmp node ≡ true → lookup u k ≡ some node
  pub others : (k : Key) → k.cmp node ≡ false → lookup u k ≡ lookup ht k
  pub counted : u.num ≡ ht.num + 1

num-add_direct : (ht : Htb) (node hash : ℕ) → (add_direct ht node hash).num ≡ ht.num + 1
unfolding add_direct
num-add_direct ht node hash = refl

add_direct_lem :
    (ht : Htb) (node hash : ℕ)
    → 0 < length ht.hashtable
    → Added ht node hash (add_direct ht node hash)
unfolding find_node
add_direct_lem ht node hash h = record {
  here = λ k e m.
      let same : (home ht hash == home ht k.hash) ≡ true = ground arith in
      rw (bucket-add_direct ht node hash k.hash h, same, m) refl;
  others = λ k m.
      rw (bucket-add_direct ht node hash k.hash h)
        (elim (Bool-cases (home ht hash == home ht k.hash)) [
          | inl e ↦ let b : home ht hash ≡ home ht k.hash = ground arith in rw (e, m, b) refl
          | inr e ↦ rw e refl
        ]);
  counted = num-add_direct ht node hash;
}

-- In a table with a bucket, kcpmux_htb_add inserts a node under a key exactly when no node has the
-- key yet: a key that is found already leaves the table as it was, and a new one finds the node
-- from then on, while every key that the node does not match finds what it found before.
pub add_correct :
    (ht : Htb) (node : ℕ) (k : Key)
    → 0 < length ht.hashtable
    → ((p : ℕ) → lookup ht k ≡ some p → add ht node k.cmp k.hash ≡ ht)
      × (lookup ht k ≡ none → Added ht node k.hash (add ht node k.cmp k.hash))
unfolding add
add_correct ht node k h = (
  λ p e. ap (λ o. elim o [ none ↦ add_direct ht node k.hash | some q ↦ ht ]) e,
  λ e.
      subst (Added ht node k.hash)
        (sym (ap (λ o. elim o [ none ↦ add_direct ht node k.hash | some q ↦ ht ]) e))
        (add_direct_lem ht node k.hash h),
)

length-map {ℓ ℓ'} :
    {A : Type ℓ} {B : Type ℓ'} (f : A → B) (xs : List A) → length (map f xs) ≡ length xs
length-map f [] = refl
length-map f (x ∷ xs) = ap suc (length-map f xs)

get_or-map :
    (f : List ℕ → List ℕ) (xs : List (List ℕ)) (i : ℕ)
    → f [] ≡ []
    → get_or (map f xs) i [] ≡ f (get_or xs i [])
get_or-map f [] i e = sym e
get_or-map f (x ∷ xs) zero e = refl
get_or-map f (x ∷ xs) (suc i) e = get_or-map f xs i e

find-remove :
    (cmp : ℕ → Bool) (xs : List ℕ) (a : ℕ) → cmp a ≡ false → find cmp (remove xs a) ≡ find cmp xs
find-remove cmp [] a h = refl
find-remove cmp (x ∷ xs) a h = elim (Bool-cases (x == a)) [
  | inl e ↦
      let same : x ≡ a = ground arith in
      let skipped : cmp x ≡ false = rw same h in rw (e, skipped) refl
  | inr e ↦
      rw e (elim (Bool-cases (cmp x)) [ inl m ↦ rw m refl | inr m ↦ rw m (find-remove cmp xs a h) ])
]

-- What a deletion does to a table that holds the node: the node leaves its bucket, every key that
-- the node does not match finds what it found before, and one node less is counted.
pub record Deleted (ht : Htb) (node : ℕ) (u : Htb) : Type 0 where
  pub gone : (hash : ℕ) → bucket u hash ≡ remove (bucket ht hash) node
  pub others : (k : Key) → k.cmp node ≡ false → lookup u k ≡ lookup ht k
  pub counted : u.num ≡ ht.num - 1

deleted_bucket :
    (ht : Htb) (node hash : ℕ)
    → get_or
        (map (λ b. remove b node) ht.hashtable)
        (hash % length (map (λ b. remove b node) ht.hashtable))
        []
      ≡ remove (bucket ht hash) node
deleted_bucket ht node hash =
    rw (length-map (λ b. remove b node) ht.hashtable)
      (get_or-map (λ b. remove b node) ht.hashtable (home ht hash) refl)

-- kcpmux_htb_del takes a node out of the table if it is linked in it, and changes nothing
-- otherwise; the keys that the node does not match find what they found before.
pub del_correct :
    (ht : Htb) (node : ℕ)
    → (linked ht.hashtable node ≡ true → Deleted ht node (del ht node))
      × (linked ht.hashtable node ≡ false → del ht node ≡ ht)
unfolding del find_node
del_correct ht node = (
  λ e. rw e (record {
    gone = deleted_bucket ht node;
    others =
        λ k m. rw (deleted_bucket ht node k.hash) (find-remove k.cmp (bucket ht k.hash) node m);
    counted = refl;
  }),
  λ e. rw e refl,
)
