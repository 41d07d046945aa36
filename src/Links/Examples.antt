-- ===== src/Links/Examples.antt =====
-- A list of two links at the head 0.
use kcp_mux.Base.{◌≡◌, refl, arith, false, ◌==◌, if◌then◌else◌, [], ◌∷◌, none, some}
use kcp_mux.Links.{Links, list_empty, list_dequeue, for_each, for_each_prev}
use kcp_mux.Links.Ring.{IsRing}
use kcp_mux.Links.Edits.{Edit, edited, edit_correct}
use kcp_mux.Links.Walk.{traversal_correct}

abbrev two_links : Links
two_links = record {
  next = λ a. if a == 0 then 4 else if a == 4 then 7 else 0;
  prev = λ a. if a == 0 then 7 else if a == 7 then 4 else 0;
}

two_links-IsRing : IsRing two_links 0 (4 ∷ 7 ∷ [])
two_links-IsRing = ((refl, refl, (refl, refl, (refl, refl))), (refl, (refl, (refl, tt))))

edit_correct_example :
    ((edited (Edit.move_tail 4) 0 two_links).1 ≡ none)
    × IsRing (edited (Edit.move_tail 4) 0 two_links).0 0 (7 ∷ 4 ∷ [])
edit_correct_example =
    edit_correct (Edit.move_tail 4) two_links 0 (4 ∷ 7 ∷ []) two_links-IsRing refl

traversal_correct_example :
    (list_empty 0 two_links ≡ false)
    × (for_each 2 4 0 two_links ≡ 4 ∷ 7 ∷ [])
    × (for_each_prev 2 7 0 two_links ≡ 7 ∷ 4 ∷ [])
traversal_correct_example =
    traversal_correct two_links 0 (4 ∷ 7 ∷ []) 2 two_links-IsRing (omega arith)

-- The first entry is dequeued.
dequeues : (edited Edit.dequeue 0 two_links).1 ≡ some 4
unfolding edited list_dequeue
dequeues = refl
