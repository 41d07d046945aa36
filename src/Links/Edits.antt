-- ===== src/Links/Edits.antt =====
-- The operations of src/internal/kcpmux_list.h on the list that the links stand for.
use kcp_mux.Base.{
  ℕ, ◌≡◌, refl, sym, ap, subst, arith, true, false, ◌==◌, List, [], ◌∷◌, ◌++◌, contains, remove,
  Option, none, some, append-Distinct, contains-remove,
}
use kcp_mux.Links.{
  Links, list_init, add_between, list_add_head, list_add_tail, bypass, list_del, list_dequeue,
  list_move_tail,
}
use kcp_mux.Links.Unlink.{bypass-IsRing, list_del-IsRing}
use kcp_mux.Links.Ring.{IsRing, Chain-frame, Chain-join, Chain-last, Chain-redirect}

init-IsRing : (s : Links) (h : ℕ) → IsRing (list_init h s) h []
unfolding list_init
init-IsRing s h = ground arith

add_head-IsRing :
    (s : Links) (h n : ℕ) (xs : List ℕ)
    → contains (h ∷ xs) n ≡ false
    → IsRing s h xs
    → IsRing (list_add_head n h s) h (n ∷ xs)
unfolding list_add_head add_between
add_head-IsRing s h n [] out ((a, b), d) = ground arith
add_head-IsRing s h n (x ∷ xs) out ((a, p, c), d) =
    let t = list_add_head n h s in
    (
      (
        ground arith,
        ground (arith, d.0),
        (
          ground arith,
          ground arith,
          Chain-frame s t x xs h (λ q i. ground (arith, d.0)) (λ q i. ground (arith, d.0, d.1.0)) c,
        ),
      ),
      (ground (arith, d.0), (ground arith, d.1)),
    )

add_tail-IsRing :
    (s : Links) (h n : ℕ) (xs : List ℕ)
    → contains (h ∷ xs) n ≡ false
    → IsRing s h xs
    → IsRing (list_add_tail n h s) h (xs ++ (n ∷ []))
unfolding list_add_tail add_between
add_tail-IsRing s h n xs out (c, d) =
    let t = list_add_tail n h s in
    let last = Chain-last s h xs h c in
    (
      Chain-join t h xs n [] h
          (Chain-redirect s t h xs h n d (λ q i e. ground arith) (λ q i. ground (arith, d.0))
            (ground arith) (ground arith) c)
          (ground arith, ground arith),
      append-Distinct (h ∷ xs) n d out,
    )

dequeue-IsRing :
    (s : Links) (h x : ℕ) (xs : List ℕ)
    → IsRing s h (x ∷ xs)
    → (list_dequeue h s ≡ (bypass x s, some x)) × IsRing (bypass x s) h xs
unfolding list_dequeue
dequeue-IsRing s h x xs r =
    let e : (x == h) ≡ false = ground (arith, r.1.0) in
    let b = bypass-IsRing s h x (x ∷ xs) (ground arith) r in
    let left : remove (x ∷ xs) x ≡ xs = ground arith in
    (rw (r.0.0, e) refl, subst (IsRing (bypass x s) h) left b)

dequeue_none :
    (s : Links) (h : ℕ)
    → IsRing s h []
    → ((list_dequeue h s).1 ≡ none) × IsRing (list_dequeue h s).0 h []
unfolding list_dequeue
dequeue_none s h r = let e : (h == h) ≡ true = ground arith in rw (r.0.0, e) (refl, r)

-- The entry is out of the list, and then the last of it.
move_tail-IsRing :
    (s : Links) (h n : ℕ) (xs : List ℕ)
    → contains xs n ≡ true
    → IsRing s h xs
    → IsRing (list_move_tail n h s) h (remove xs n ++ (n ∷ []))
unfolding list_move_tail
move_tail-IsRing s h n xs i r =
    add_tail-IsRing (list_del n s) h n (remove xs n)
      (ground (arith, contains-remove xs n n r.1.1, r.1.0)) (list_del-IsRing s h n xs i r)

-- An operation on the list at a head, with the link that it takes.
pub data Edit : Type 0 where
  init dequeue : Edit
  add_head add_tail del move_tail : ℕ → Edit

-- The operation on links, with its answer.
unfoldable pub edited : Edit → ℕ → Links → Links × Option ℕ
unfolding list_init list_add_head list_add_tail list_del list_move_tail list_dequeue
edited Edit.init h s = (list_init h s, none)
edited Edit.dequeue h s = list_dequeue h s
edited (Edit.add_head n) h s = (list_add_head n h s, none)
edited (Edit.add_tail n) h s = (list_add_tail n h s, none)
edited (Edit.del n) h s = (list_del n s, none)
edited (Edit.move_tail n) h s = (list_move_tail n h s, none)

-- The same on the list that the links stand for.
abbrev pub listed : Edit → List ℕ → List ℕ × Option ℕ
listed Edit.init xs = ([], none)
listed Edit.dequeue [] = ([], none)
listed Edit.dequeue (x ∷ xs) = (xs, some x)
listed (Edit.add_head n) xs = (n ∷ xs, none)
listed (Edit.add_tail n) xs = (xs ++ (n ∷ []), none)
listed (Edit.del n) xs = (remove xs n, none)
listed (Edit.move_tail n) xs = (remove xs n ++ (n ∷ []), none)

-- Links that are added are not on the list, and links that are taken out or moved are.
abbrev pub IsAllowed : Edit → ℕ → List ℕ → Type 0
IsAllowed Edit.init h xs = Unit {0}
IsAllowed Edit.dequeue h xs = Unit {0}
IsAllowed (Edit.add_head n) h xs = contains (h ∷ xs) n ≡ false
IsAllowed (Edit.add_tail n) h xs = contains (h ∷ xs) n ≡ false
IsAllowed (Edit.del n) h xs = contains xs n ≡ true
IsAllowed (Edit.move_tail n) h xs = contains xs n ≡ true

-- The operations of the intrusive list implement those of an ordinary list: from links that stand
-- for a list, adding at either end, deleting, moving to the tail, dequeuing and starting anew give
-- links that stand for the list so changed, and dequeuing answers its first entry, or NULL.
pub edit_correct :
    (e : Edit) (s : Links) (h : ℕ) (xs : List ℕ)
    → IsRing s h xs
    → IsAllowed e h xs
    → ((edited e h s).1 ≡ (listed e xs).1) × IsRing (edited e h s).0 h (listed e xs).0
unfolding edited
edit_correct Edit.init s h xs r a = (refl, init-IsRing s h)
edit_correct Edit.dequeue s h [] r a = dequeue_none s h r
edit_correct Edit.dequeue s h (x ∷ xs) r a =
    let (e, left) = dequeue-IsRing s h x xs r in
    (ap (λ p. p.1) e, subst (λ p. IsRing p.0 h xs) (sym e) left)
edit_correct (Edit.add_head n) s h xs r a = (refl, add_head-IsRing s h n xs a r)
edit_correct (Edit.add_tail n) s h xs r a = (refl, add_tail-IsRing s h n xs a r)
edit_correct (Edit.del n) s h xs r a = (refl, list_del-IsRing s h n xs a r)
edit_correct (Edit.move_tail n) s h xs r a = (refl, move_tail-IsRing s h n xs a r)
