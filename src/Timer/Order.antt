-- ===== src/Timer/Order.antt =====
-- The order of nodes by deadline and insertion, and the heap order of an array of nodes.
use kcp_mux.Base.{ℕ, ◌-◌, ◌/◌, ◌<◌, ◌≡◌, ◌≢◌, true, false, arith}
use kcp_mux.Timer.{Node, Timers, less}

abbrev pub parent : ℕ → ℕ
parent c = (c - 1) / 2

-- `a` may stand above `b`.
abbrev pub NotAfter : Node → Node → Type 0
NotAfter a b = less b a ≡ false

pub NotAfter-trans : (a b c : Node) → NotAfter a b → NotAfter b c → NotAfter a c
unfolding less
NotAfter-trans a b c p q = ground arith

pub NotAfter-refl : (a : Node) → NotAfter a a
unfolding less
NotAfter-refl a = ground arith

pub less-NotAfter : (a b : Node) → less a b ≡ true → NotAfter a b
unfolding less
less-NotAfter a b p = ground arith

-- The nodes of `t` have the deadlines and the sequence numbers of `ns`.
abbrev pub Keys : (ℕ → Node) → Timers → Type 0
Keys ns t =
    (m : ℕ)
    → ((t.nodes m).deadline_ms ≡ (ns m).deadline_ms)
      × ((t.nodes m).insertion_sequence ≡ (ns m).insertion_sequence)

pub Keys-less :
    (ns : ℕ → Node) (t : Timers) (a b : ℕ)
    → Keys ns t
    → less (t.nodes a) (t.nodes b) ≡ less (ns a) (ns b)
unfolding less
Keys-less ns t a b k = ground (arith, k a, k b)

-- An array `f` of `n` nodes, its edges from the parent of each child.
module _ (ns : ℕ → Node) (n : ℕ) (f : ℕ → ℕ) where
  abbrev pub Edge : ℕ → Type 0
  Edge c = NotAfter (ns (f (parent c))) (ns (f c))

  abbrev pub Ordered : Type 0
  Ordered = (c : ℕ) → 0 < c → c < n → Edge c

  -- Every edge but those at `i` is in order.
  abbrev pub OrderedOff : ℕ → Type 0
  OrderedOff i = (c : ℕ) → 0 < c → c < n → c ≢ i → parent c ≢ i → Edge c

  -- The parent of `i` may stand above the children of `i`.
  abbrev pub Bridged : ℕ → Type 0
  Bridged i =
      (c : ℕ) → 0 < c → c < n → parent c ≡ i → 0 < i → NotAfter (ns (f (parent i))) (ns (f c))

  -- The edges from `i` to its children are in order.
  abbrev pub OrderedBelow : ℕ → Type 0
  OrderedBelow i = (c : ℕ) → 0 < c → c < n → parent c ≡ i → Edge c

  -- Every edge but those from `i` to its children is in order.
  abbrev pub OrderedAbove : ℕ → Type 0
  OrderedAbove i = (c : ℕ) → 0 < c → c < n → parent c ≢ i → Edge c
