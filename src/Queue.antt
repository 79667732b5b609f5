-- ===== src/Queue.antt =====
-- src/datastructures/queue.c as seen by its clients: the linked list from `front` to `rear` is the
-- list of its data pointers, oldest first. NULL data is `none`; the queue pointers of the kernel are
-- not NULL.
pub mod Laws
use cs58_yalnix.Base.{ℕ, Option, none, some, List, [], ◌∷◌, ◌++◌, if◌then◌else◌, ◌+◌, ◌%◌, ◌^◌}
use cs58_yalnix.Base.Int.{ℤ, pos, negsuc, ◌+ℤ◌, ◌-ℤ◌}
use cs58_yalnix.Base.Alloc.{Mem, rest}

-- `next_key` is the bit pattern of the `int`.
pub record Queue {ℓ} (A : Type ℓ) : Type ℓ where
  pub items : List A
  pub next_key : ℕ
  pub count : ℤ

module _ {ℓ} {A : Type ℓ} where
  abbrev pub empty : Queue A
  empty = record { items = []; next_key = 0; count = pos 0 }

  -- `none` where `malloc` fails.
  unfoldable pub new : Mem → Option (Queue A) × Mem
  new m = (if m 0 then some empty else none, rest m)

  unfoldable pub push : Queue A → Option A → Mem → ℤ × Queue A × Mem
  push q none m = (negsuc 0, q, m)
  push q (some x) m =
      if m 0
      then (
        pos 0,
        record {
          items = q.items ++ x ∷ [];
          next_key = (q.next_key + 1) % 2 ^ 32;
          count = q.count +ℤ pos 1;
        },
        rest m,
      )
      else (negsuc 0, q, rest m)

  abbrev popped : Queue A → List A → Option A × Queue A
  popped q [] = (none, q)
  popped q (x ∷ xs) = (some x, record q { items = xs; count = q.count -ℤ pos 1 })

  unfoldable pub pop : Queue A → Option A × Queue A
  pop q = popped q q.items
