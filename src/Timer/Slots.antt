-- ===== src/Timer/Slots.antt =====
-- Writes to slots of the heap while a sift holds one node out of the array.
use kcp_mux.Base.{
  ℕ, ◌<◌, ◌≡◌, ◌≢◌, refl, ◌==◌, if◌then◌else◌, arith, length, length-set, get_or-set, ◌∙◌,
}
use kcp_mux.Timer.{Node, Timers, slot, set_slot}
use kcp_mux.Timer.Order.{Keys}

pub slot-set_slot :
    (t : Timers) (i m j : ℕ)
    → i < length t.heap
    → slot (set_slot t i m) j ≡ (if i == j then m else slot t j)
unfolding set_slot
slot-set_slot t i m j h = get_or-set t.heap i j m 0 h

pub heap_index-set_slot :
    (t : Timers) (i m j : ℕ)
    → ((set_slot t i m).nodes j).heap_index ≡ (if j == m then i else (t.nodes j).heap_index)
unfolding set_slot
heap_index-set_slot t i m j = ground arith

-- All of `t` but the order of the heap and the indices of the nodes.
pub record Kept (t u : Timers) : Type 0 where
  pub size : length u.heap ≡ length t.heap
  pub deadline : (m : ℕ) → (u.nodes m).deadline_ms ≡ (t.nodes m).deadline_ms
  pub sequence : (m : ℕ) → (u.nodes m).insertion_sequence ≡ (t.nodes m).insertion_sequence
  pub owner : (m : ℕ) → (u.nodes m).owner ≡ (t.nodes m).owner
  pub callback : (m : ℕ) → (u.nodes m).timeout_cb ≡ (t.nodes m).timeout_cb
  pub state : (m : ℕ) → (u.nodes m).state ≡ (t.nodes m).state
  pub capacity : u.capacity ≡ t.capacity
  pub next_sequence : u.next_sequence ≡ t.next_sequence
  pub due : u.due ≡ t.due

pub set_slot-Kept : (t : Timers) (i m : ℕ) → Kept t (set_slot t i m)
unfolding set_slot
set_slot-Kept t i m = record {
  size = length-set t.heap i m;
  deadline = λ k. ground arith;
  sequence = λ k. ground arith;
  owner = λ k. ground arith;
  callback = λ k. ground arith;
  state = λ k. ground arith;
  capacity = refl;
  next_sequence = refl;
  due = refl;
}

pub Kept-trans : (t u v : Timers) → Kept t u → Kept u v → Kept t v
Kept-trans t u v p q = record {
  size = q.size ∙ p.size;
  deadline = λ m. q.deadline m ∙ p.deadline m;
  sequence = λ m. q.sequence m ∙ p.sequence m;
  owner = λ m. q.owner m ∙ p.owner m;
  callback = λ m. q.callback m ∙ p.callback m;
  state = λ m. q.state m ∙ p.state m;
  capacity = q.capacity ∙ p.capacity;
  next_sequence = q.next_sequence ∙ p.next_sequence;
  due = q.due ∙ p.due;
}

pub Kept-Keys : (ns : ℕ → Node) (t u : Timers) → Keys ns t → Kept t u → Keys ns u
Kept-Keys ns t u k p = λ m. (p.deadline m ∙ (k m).0, p.sequence m ∙ (k m).1)

-- The array in which `node` is put back into the hole.
abbrev pub filled : Timers → ℕ → ℕ → ℕ → ℕ
filled t hole node j = if hole == j then node else slot t j

-- Every node outside of the hole knows its slot, and `node` is none of them.
pub record IsHole (t : Timers) (hole node : ℕ) : Type 0 where
  pub inside : hole < length t.heap
  pub indexed : (j : ℕ) → j < length t.heap → j ≢ hole → (t.nodes (slot t j)).heap_index ≡ j
  pub apart : (j : ℕ) → j < length t.heap → j ≢ hole → slot t j ≢ node

-- Every entry of `f` is an entry of `g`.
abbrev pub Covered : ℕ → (ℕ → ℕ) → (ℕ → ℕ) → Type 0
Covered n f g = (j : ℕ) → j < n → (k : ℕ) × (k < n) × (f j ≡ g k)

pub Covered-trans : (n : ℕ) (f g h : ℕ → ℕ) → Covered n f g → Covered n g h → Covered n f h
Covered-trans n f g h p q j lt =
    let (k, k_lt, e) = p j lt in let (l, l_lt, e') = q k k_lt in (l, l_lt, e ∙ e')

-- A round of a sift: the node at `src` moves into the hole, and `src` is the next hole.
module _ (t : Timers) (hole node src : ℕ) (h : IsHole t hole node) (s : src < length t.heap)
    (ne : src ≢ hole) where
  abbrev pub moved : Timers
  moved = set_slot t hole (slot t src)

  pub move-filled :
      (j : ℕ)
      → filled moved src node j
        ≡ (if src == j then node else if hole == j then slot t src else slot t j)
  move-filled j = ground (arith, slot-set_slot t hole (slot t src) j h.inside)

  pub move-IsHole : IsHole moved src node
  move-IsHole =
      let size = (set_slot-Kept t hole (slot t src)).size in
      record {
        inside = omega arith;
        indexed = λ j lt n. ground (
          arith,
          slot-set_slot t hole (slot t src) j h.inside,
          heap_index-set_slot t hole (slot t src) (slot moved j),
          h.indexed j,
          h.indexed src,
        );
        apart = λ j lt n.
            ground (arith, slot-set_slot t hole (slot t src) j h.inside, h.apart j, h.apart src);
      }

  -- The round exchanges two entries of the filled array.
  exchange : ℕ → ℕ
  exchange j = if j == hole then src else if j == src then hole else j

  pub move-into : Covered (length t.heap) (filled t hole node) (filled moved src node)
  unfolding exchange
  move-into j lt =
      (exchange j, ground (arith, h.inside), ground (arith, h.inside, move-filled (exchange j)))

  pub move-from : Covered (length t.heap) (filled moved src node) (filled t hole node)
  unfolding exchange
  move-from j lt = (exchange j, ground (arith, h.inside), ground (arith, h.inside, move-filled j))

-- The end of a sift: the node is put into the hole.
module _ (t : Timers) (hole node : ℕ) (h : IsHole t hole node) where
  pub fill-slot : (j : ℕ) → slot (set_slot t hole node) j ≡ filled t hole node j
  fill-slot j = slot-set_slot t hole node j h.inside

  pub fill-indexed :
      (j : ℕ)
      → j < length t.heap
      → ((set_slot t hole node).nodes (slot (set_slot t hole node) j)).heap_index ≡ j
  fill-indexed j lt = ground (
    arith,
    slot-set_slot t hole node j h.inside,
    heap_index-set_slot t hole node (slot (set_slot t hole node) j),
    h.indexed j,
    h.apart j,
  )
