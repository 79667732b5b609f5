-- ===== src/Queue/Laws.antt =====
-- The well-formed queues, whose `count` is their length, and what leaves them.
use cs58_yalnix.Base.{
  ℕ, ◌≡◌, refl, Option, none, some, List, [], ◌∷◌, arith, length, length-append, All, ap, subst,
}
use cs58_yalnix.Base.Int.{ℤ, pos}
use cs58_yalnix.Base.Alloc.{Mem}
use cs58_yalnix.Queue.{Queue, empty, push, pop}

module _ {ℓ} {A : Type ℓ} where
  pub record IsWf (q : Queue A) : Type 0 where
    pub counted : q.count ≡ pos (length q.items)

  pub empty-IsWf : IsWf (empty {A = A})
  empty-IsWf = record { counted = refl }

  pub push-IsWf : (q : Queue A) (item : Option A) (m : Mem) → IsWf q → IsWf (push q item m).1
  unfolding push
  push-IsWf q none m w = w
  push-IsWf q (some x) m w = ground (arith, length-append q.items (x ∷ []))

  pop_items-IsWf :
      (xs : List A) (k : ℕ) (c : ℤ)
      → c ≡ pos (length xs)
      → IsWf (pop (record { items = xs; next_key = k; count = c })).1
  unfolding pop
  pop_items-IsWf [] k c w = record { counted = w }
  pop_items-IsWf (x ∷ xs) k c w = ground arith

  pub pop-IsWf : (q : Queue A) → IsWf q → IsWf (pop q).1
  pop-IsWf q w = pop_items-IsWf q.items q.next_key q.count w.counted

  -- `queue_push` and `queue_pop` keep `count` equal to the number of nodes, whatever they return.
  pub push-pop-IsWf :
      (q : Queue A) (item : Option A) (m : Mem) → IsWf q → IsWf (push q item m).1 × IsWf (pop q).1
  push-pop-IsWf q item m w = (push-IsWf q item m w, pop-IsWf q w)

  pub some-injective : (x y : A) → some x ≡ some y → x ≡ y
  some-injective x y e = ap (λ o. elim o [ none ↦ x | some z ↦ z ]) e

  pop_items-All {κ} :
      (P : A → Type κ) (xs : List A) (k : ℕ) (c : ℤ)
      → All P xs
      → (x : A) → (pop (record { items = xs; next_key = k; count = c })).0 ≡ some x
      → P x
  unfolding pop
  pop_items-All P [] k c all x e = ground arith
  pop_items-All P (y ∷ ys) k c all x e = subst P (some-injective y x e) all.0

  -- What leaves the queue was in it.
  pub pop-All {κ} :
      (P : A → Type κ) (q : Queue A) → All P q.items → (x : A) → (pop q).0 ≡ some x → P x
  pop-All P q = pop_items-All P q.items q.next_key q.count

  pop_items-All_rest {κ} :
      (P : A → Type κ) (xs : List A) (k : ℕ) (c : ℤ)
      → All P xs
      → All P (pop (record { items = xs; next_key = k; count = c })).1.items
  unfolding pop
  pop_items-All_rest P [] k c all = tt
  pop_items-All_rest P (y ∷ ys) k c all = all.1

  pub pop-All_rest {κ} : (P : A → Type κ) (q : Queue A) → All P q.items → All P (pop q).1.items
  pop-All_rest P q = pop_items-All_rest P q.items q.next_key q.count
