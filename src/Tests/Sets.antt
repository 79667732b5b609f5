-- ===== src/Tests/Sets.antt =====
-- Sets and queues at work.
use cs58_yalnix.Base.{ℕ, ◌≡◌, refl, true, Option, none, some, [], ◌∷◌, if◌then◌else◌}
use cs58_yalnix.Base.Int.{pos, ◌==ℤ◌}
use cs58_yalnix.Base.Alloc.{Mem}
use cs58_yalnix.Queue
use cs58_yalnix.Queue.Laws
use cs58_yalnix.Queue.Laws.{push-pop-IsWf}
use cs58_yalnix.Set
use cs58_yalnix.Set.{Set}
use cs58_yalnix.Set.Laws.{pop-insert}
use cs58_yalnix.Set.Invariant.{IsWf, insert-pop-IsWf, find-pop}

abbrev two : Set ℕ
two = record { nodes = (pos 4, 40) ∷ (pos 2, 20) ∷ []; node_count = pos 2 }

abbrev nine : Option ℕ
nine = some 9

abbrev memory : Mem
memory _ = true

abbrev two-IsWf : IsWf two
two-IsWf = record { distinct = (refl, refl, (refl, refl, tt)); counted = refl }

pop-insert_example : Set.pop (Set.insert two (pos 7) (some 70) memory).1 (pos 7) ≡ (some 70, two)
unfolding Set.insert
pop-insert_example = pop-insert two (pos 7) 70 memory refl

insert-pop-IsWf_example :
    IsWf (Set.insert two (pos 7) (some 70) memory).1 × IsWf (Set.pop two (pos 7)).1
insert-pop-IsWf_example = insert-pop-IsWf two (pos 7) (some 70) memory two-IsWf

find-pop_example :
    Set.find (Set.pop two (pos 4)).1 (pos 2)
    ≡ (if pos 4 ==ℤ pos 2 then none else Set.find two (pos 2))
find-pop_example = find-pop two (pos 4) (pos 2) two-IsWf

-- The first of two nodes leaves.
pop-two : Set.pop two (pos 4) ≡ (some 40, record { nodes = (pos 2, 20) ∷ []; node_count = pos 1 })
unfolding Set.pop
pop-two = refl

abbrev pair : Queue.Queue ℕ
pair = record { items = 5 ∷ 6 ∷ []; next_key = 9; count = pos 2 }

push-pop-IsWf_example :
    Queue.Laws.IsWf (Queue.push pair nine memory).1 × Queue.Laws.IsWf (Queue.pop pair).1
push-pop-IsWf_example = push-pop-IsWf pair nine memory (record { counted = refl })
