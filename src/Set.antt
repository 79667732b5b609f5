-- ===== src/Set.antt =====
-- src/datastructures/set.c as seen by its clients: the linked list of a `set_t` is the list of its
-- (key, item) pairs, newest first. A NULL item is `none`; the set pointers of the kernel are not
-- NULL. Allocation outcomes come from the caller.
pub mod Laws
pub mod Invariant
use cs58_yalnix.Base.{ℕ, ◌≡◌, Bool, true, false, Option, none, some, List, [], ◌∷◌, if◌then◌else◌}
use cs58_yalnix.Base.Int.{ℤ, pos, negsuc, ◌+ℤ◌, ◌-ℤ◌, ◌==ℤ◌, is_neg}
use cs58_yalnix.Base.Alloc.{Mem, rest}

-- `ERROR` of yalnix.h.
abbrev pub error : ℤ
error = negsuc 0

module _ {ℓ} {A : Type ℓ} where
  -- The walk of `set_find` from a node.
  abbrev pub find_node : ℤ → List (ℤ × A) → Option A
  find_node key [] = none
  find_node key ((k, x) ∷ nodes) = if key ==ℤ k then some x else find_node key nodes

  -- The walk of `set_insert` over the keys in use.
  abbrev pub has_key : ℤ → List (ℤ × A) → Bool
  has_key key [] = false
  has_key key ((k, x) ∷ nodes) = if key ==ℤ k then true else has_key key nodes

  -- The list that `set_pop` leaves behind: its first node with the key is unlinked.
  abbrev pub unlink : ℤ → List (ℤ × A) → List (ℤ × A)
  unlink key [] = []
  unlink key ((k, x) ∷ nodes) = if key ==ℤ k then nodes else (k, x) ∷ unlink key nodes

  -- An assignment through the pointer that `set_find` returned.
  abbrev pub assign_node : ℤ → A → List (ℤ × A) → List (ℤ × A)
  assign_node key y [] = []
  assign_node key y ((k, x) ∷ nodes) =
      if key ==ℤ k then (k, y) ∷ nodes else (k, x) ∷ assign_node key y nodes

pub record Set {ℓ} (A : Type ℓ) : Type ℓ where
  pub nodes : List (ℤ × A)
  pub node_count : ℤ

module _ {ℓ} {A : Type ℓ} where
  abbrev pub empty : Set A
  empty = record { nodes = []; node_count = pos 0 }

  -- `none` where `malloc` fails.
  unfoldable pub new : Mem → Option (Set A) × Mem
  new m = (if m 0 then some empty else none, rest m)

  abbrev linked : Set A → ℤ → A → Mem → ℤ × Set A × Mem
  linked s key x m =
      if m 0
      then (
        pos 0,
        record { nodes = (key, x) ∷ s.nodes; node_count = s.node_count +ℤ pos 1 },
        rest m,
      )
      else (error, s, rest m)

  unfoldable pub insert : Set A → ℤ → Option A → Mem → ℤ × Set A × Mem
  insert s key none m = (error, s, m)
  insert s key (some x) m =
      if is_neg key
      then (error, s, m)
      else if has_key key s.nodes
      then (error, s, m)
      else linked s key x m

  unfoldable pub find : Set A → ℤ → Option A
  find s key = if is_neg key then none else find_node key s.nodes

  abbrev popped : Set A → ℤ → Option A → Option A × Set A
  popped s key none = (none, s)
  popped s key (some x) =
      (some x, record { nodes = unlink key s.nodes; node_count = s.node_count -ℤ pos 1 })

  unfoldable pub pop : Set A → ℤ → Option A × Set A
  pop s key = if is_neg key then (none, s) else popped s key (find_node key s.nodes)

  -- The item under the key overwritten in place.
  unfoldable pub assign : Set A → ℤ → A → Set A
  assign s key y = record s { nodes = assign_node key y s.nodes }
