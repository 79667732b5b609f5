-- ===== src/Set/Invariant.antt =====
-- The well-formed sets: no key twice, no negative key, and a count that is the list's length.
use cs58_yalnix.Base.{
  ◌≡◌, refl, true, false, Option, none, some, List, [], ◌∷◌, arith, if◌then◌else◌, length, ◌+◌,
}
use cs58_yalnix.Base.Int.{ℤ, pos, ◌==ℤ◌, ==ℤ_iff, is_neg}
use cs58_yalnix.Base.Alloc.{Mem}
use cs58_yalnix.Set.{Set, find_node, has_key, unlink, assign_node, empty, insert, find, pop, assign}
use cs58_yalnix.Set.Laws.{has_key-find_node, find_node-unlink_ne}

module _ {ℓ} {A : Type ℓ} where
  abbrev pub Distinct : List (ℤ × A) → Type 0
  Distinct [] = Unit
  Distinct ((k, x) ∷ nodes) = (has_key k nodes ≡ false) × (is_neg k ≡ false) × Distinct nodes

  pub record IsWf (s : Set A) : Type 0 where
    pub distinct : Distinct s.nodes
    pub counted : s.node_count ≡ pos (length s.nodes)

  pub empty-IsWf : IsWf (empty {A = A})
  empty-IsWf = record { distinct = tt; counted = refl }

  pub has_key-unlink :
      (key other : ℤ) (nodes : List (ℤ × A))
      → has_key other nodes ≡ false
      → has_key other (unlink key nodes) ≡ false
  has_key-unlink key other [] h = refl
  has_key-unlink key other ((k, x) ∷ nodes) h = ground (arith, has_key-unlink key other nodes)

  Distinct-unlink : (key : ℤ) (nodes : List (ℤ × A)) → Distinct nodes → Distinct (unlink key nodes)
  Distinct-unlink key [] d = tt
  Distinct-unlink key ((k, x) ∷ nodes) d =
      ground (arith, has_key-unlink key k nodes, Distinct-unlink key nodes d.2)

  pub length-unlink :
      (key : ℤ) (nodes : List (ℤ × A))
      → has_key key nodes ≡ true
      → length nodes ≡ length (unlink key nodes) + 1
  length-unlink key [] h = cc
  length-unlink key ((k, x) ∷ nodes) h = ground (arith, length-unlink key nodes)

  find_node-unlink_self :
      (key : ℤ) (nodes : List (ℤ × A)) → Distinct nodes → find_node key (unlink key nodes) ≡ none
  find_node-unlink_self key [] d = refl
  find_node-unlink_self key ((k, x) ∷ nodes) d =
      ground (arith, find_node-unlink_self key nodes d.2, has_key-find_node key nodes)

  pub has_key-assign_node :
      (key other : ℤ) (y : A) (nodes : List (ℤ × A))
      → has_key other (assign_node key y nodes) ≡ has_key other nodes
  has_key-assign_node key other y [] = refl
  has_key-assign_node key other y ((k, x) ∷ nodes) =
      ground (arith, has_key-assign_node key other y nodes)

  Distinct-assign_node :
      (key : ℤ) (y : A) (nodes : List (ℤ × A)) → Distinct nodes → Distinct (assign_node key y nodes)
  Distinct-assign_node key y [] d = tt
  Distinct-assign_node key y ((k, x) ∷ nodes) d =
      ground (arith, has_key-assign_node key k y nodes, Distinct-assign_node key y nodes d.2)

  pub length-assign_node :
      (key : ℤ) (y : A) (nodes : List (ℤ × A)) → length (assign_node key y nodes) ≡ length nodes
  length-assign_node key y [] = refl
  length-assign_node key y ((k, x) ∷ nodes) = ground (arith, length-assign_node key y nodes)

  pub insert-IsWf :
      (s : Set A) (key : ℤ) (item : Option A) (m : Mem) → IsWf s → IsWf (insert s key item m).1
  unfolding insert
  insert-IsWf s key none m w = w
  insert-IsWf s key (some x) m w = ground arith

  pub pop-IsWf : (s : Set A) (key : ℤ) → IsWf s → IsWf (pop s key).1
  unfolding pop
  pop-IsWf s key w = ground (
    arith,
    Distinct-unlink key s.nodes w.distinct,
    length-unlink key s.nodes,
    has_key-find_node key s.nodes,
  )

  pub assign-IsWf : (s : Set A) (key : ℤ) (y : A) → IsWf s → IsWf (assign s key y)
  unfolding assign
  assign-IsWf s key y w =
      ground
        (arith, Distinct-assign_node key y s.nodes w.distinct, length-assign_node key y s.nodes)

  -- `set_insert` and `set_pop` keep a set well-formed, whatever they return: the keys distinct and
  -- not negative, and `node_count` equal to the number of nodes.
  pub insert-pop-IsWf :
      (s : Set A) (key : ℤ) (item : Option A) (m : Mem)
      → IsWf s
      → IsWf (insert s key item m).1 × IsWf (pop s key).1
  insert-pop-IsWf s key item m w = (insert-IsWf s key item m w, pop-IsWf s key w)

  -- After `set_pop` on a well-formed set the key is gone, and every other key finds what it found
  -- before.
  pub find-pop :
      (s : Set A) (key other : ℤ)
      → IsWf s
      → find (pop s key).1 other ≡ (if key ==ℤ other then none else find s other)
  unfolding find pop
  find-pop s key other w = ground (
    arith,
    find_node-unlink_self key s.nodes w.distinct,
    find_node-unlink_ne key other s.nodes,
    ==ℤ_iff key other,
  )
