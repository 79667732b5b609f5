-- ===== src/Set/Laws.antt =====
-- What the operations of a set do to its lookups.
use cs58_yalnix.Base.{
  ◌≡◌, refl, ◌⊎◌, inl, inr, ◌≢◌, true, false, Option, none, some, List, [], ◌∷◌, arith,
  if◌then◌else◌,
}
use cs58_yalnix.Base.Int.{ℤ, pos, ◌==ℤ◌, ==ℤ_refl, ==ℤ_iff, +ℤ_cancel, is_neg}
use cs58_yalnix.Base.Alloc.{Mem}
use cs58_yalnix.Set.{Set, error, find_node, has_key, unlink, assign_node, insert, find, pop, assign}

module _ {ℓ} {A : Type ℓ} where
  pub has_key-find_node :
      (key : ℤ) (nodes : List (ℤ × A))
      → has_key key nodes ≡ elim (find_node key nodes) [ none ↦ false | some x ↦ true ]
  has_key-find_node key [] = refl
  has_key-find_node key ((k, x) ∷ nodes) = ground (arith, has_key-find_node key nodes)

  pub find_node-unlink_ne :
      (key other : ℤ) (nodes : List (ℤ × A))
      → (key ==ℤ other) ≡ false
      → find_node other (unlink key nodes) ≡ find_node other nodes
  find_node-unlink_ne key other [] h = refl
  find_node-unlink_ne key other ((k, x) ∷ nodes) h =
      ground (arith, find_node-unlink_ne key other nodes)

  pub find_node-assign_node :
      (key other : ℤ) (y : A) (nodes : List (ℤ × A))
      → find_node other (assign_node key y nodes) ≡ (
          if key ==ℤ other
          then elim (find_node key nodes) [ none ↦ none | some x ↦ some y ]
          else find_node other nodes)
  find_node-assign_node key other y [] = ground arith
  find_node-assign_node key other y ((k, x) ∷ nodes) =
      ground (arith, find_node-assign_node key other y nodes)

  -- A successful `set_insert` adds exactly one binding: the new key finds the new item, and every
  -- other key what it found before.
  pub find-insert :
      (s : Set A) (key other : ℤ) (x : A) (m : Mem)
      → (insert s key (some x) m).0 ≡ pos 0
      → find (insert s key (some x) m).1 other ≡ (if key ==ℤ other then some x else find s other)
  unfolding insert find
  find-insert s key other x m h = ground arith

  -- `set_insert` refuses a negative key, a NULL item, a key in use and a failed allocation, and
  -- then leaves the set as it was; it accepts all else.
  insert_cases :
      (s : Set A) (key : ℤ) (item : Option A) (m : Mem)
      → ((insert s key item m).0 ≡ error)
          × ((insert s key item m).1 ≡ s)
          × ((is_neg key ≡ true) ⊎ (item ≡ none) ⊎ (find s key ≢ none) ⊎ (m 0 ≡ false))
        ⊎ ((insert s key item m).0 ≡ pos 0)
          × (is_neg key ≡ false)
          × (item ≢ none)
          × (find s key ≡ none)
          × (m 0 ≡ true)
  unfolding insert find
  insert_cases s key none m = inl (refl, refl, inr (inl refl))
  insert_cases s key (some x) m = ground (arith, has_key-find_node key s.nodes)

  pub insert-fresh :
      (s : Set A) (key : ℤ) (x : A) (m : Mem)
      → is_neg key ≡ false
      → find s key ≡ none
      → m 0 ≡ true
      → find (insert s key (some x) m).1 key ≡ some x
  unfolding insert find
  insert-fresh s key x m valid fresh room =
      let unused : find_node key s.nodes ≡ none = ground arith in
      let new : has_key key s.nodes ≡ false = rw (has_key-find_node key s.nodes, unused) in
      rw (valid, new, room, ==ℤ_refl key)

  -- `set_pop` returns what `set_find` finds.
  pub pop_eq_find : (s : Set A) (key : ℤ) → (pop s key).0 ≡ find s key
  unfolding pop find
  pop_eq_find s key = ground arith

  find_node-cons_self :
      (key : ℤ) (x : A) (nodes : List (ℤ × A)) → find_node key ((key, x) ∷ nodes) ≡ some x
  find_node-cons_self key x nodes = ground arith

  -- Popping a key that was just inserted with success gives the item back and restores the set.
  pub pop-insert :
      (s : Set A) (key : ℤ) (x : A) (m : Mem)
      → (insert s key (some x) m).0 ≡ pos 0
      → pop (insert s key (some x) m).1 key ≡ (some x, s)
  unfolding insert pop
  pop-insert s key x m h =
      let valid : is_neg key ≡ false = ground arith in
      let fresh : has_key key s.nodes ≡ false = ground arith in
      let got : m 0 ≡ true = ground arith in
      rw (valid, fresh, got, ==ℤ_refl key, +ℤ_cancel s.node_count, ==ℤ_refl key)

  -- A write through a found pointer changes that binding alone.
  pub find-assign :
      (s : Set A) (key other : ℤ) (y : A)
      → find (assign s key y) other ≡ (
          if key ==ℤ other
          then elim (find s key) [ none ↦ none | some x ↦ some y ]
          else find s other)
  unfolding find assign
  find-assign s key other y =
      ground (arith, find_node-assign_node key other y s.nodes, ==ℤ_iff key other)
