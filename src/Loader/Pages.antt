-- ===== src/Loader/Pages.antt =====
-- The page table that a program gets.
use cs58_yalnix.Base.{
  ℕ, zero, suc, ◌≡◌, ◌≤◌, ◌<◌, ◌⊎◌, inl, inr, refl, ◌∙◌, ◌+◌, ◌-◌, ◌*◌, Bool, true, false, ◌||◌,
  Option, none, some, List, [], ◌∷◌, length, ltb, leb, ◌==◌, ==_refl, arith,
}
use cs58_yalnix.Base.Int.{pos, ◌-ℤ◌}
use cs58_yalnix.Kernel.{Hardware, Kernel, Pte, ok, update}
use cs58_yalnix.Kernel.Ensures.{Returns, Returns-weaken}
use cs58_yalnix.Queue.{Queue}
use cs58_yalnix.Vm.UserMemory.Frames.{pop_some}
use cs58_yalnix.Loader.{
  Layout, Part, text, data_heap, stack, outside, part_of, new_entry, take_three, assign_pages,
}

-- The three frames that the page at a place takes off the queue, and what is left after `n` pages.
abbrev pub triple_at : List ℕ → ℕ → Option (ℕ × ℕ × ℕ)
triple_at (a ∷ b ∷ c ∷ items) zero = some (a, b, c)
triple_at (a ∷ b ∷ c ∷ items) (suc i) = triple_at items i
triple_at (a ∷ b ∷ []) i = none
triple_at (a ∷ []) i = none
triple_at [] i = none

abbrev pub after_triples : ℕ → List ℕ → List ℕ
after_triples zero items = items
after_triples (suc n) (a ∷ b ∷ c ∷ items) = after_triples n items
after_triples (suc n) (a ∷ b ∷ []) = []
after_triples (suc n) (a ∷ []) = []
after_triples (suc n) [] = []

abbrev pub OneOf : Option (ℕ × ℕ × ℕ) → ℕ → Type 0
OneOf none f = ⊥
OneOf (some (a, b, c)) f = (f ≡ a) ⊎ (f ≡ b) ⊎ (f ≡ c)

-- The pages up to the end of the data and those of the stack.
abbrev pub in_use : Hardware → Layout → ℕ → Bool
in_use hw lay j = ltb j (lay.data_pg1 + lay.data_npg) || leb (hw.num_pages - lay.stack_npg) j

-- A page's entry: it is mapped where it is in use, then with this protection and a frame of its own.
pub record IsEntry (hw : Hardware) (lay : Layout) (j p : ℕ) (frames : Option (ℕ × ℕ × ℕ)) (e : Pte)
    : Type 0 where
  pub valid : e.valid ≡ in_use hw lay j
  pub prot : e.valid ≡ true → e.prot ≡ p
  pub frame : e.valid ≡ true → OneOf frames e.pfn

frame_of-part :
    (hw : Hardware) (part : Part) (f1 f2 f3 : ℕ) (old : Pte)
    → (new_entry hw part f1 f2 f3 old).valid ≡ true
    → OneOf (some (f1, f2, f3)) (new_entry hw part f1 f2 f3 old).pfn
frame_of-part hw text f1 f2 f3 old v = inl refl
frame_of-part hw data_heap f1 f2 f3 old v = inr (inl refl)
frame_of-part hw stack f1 f2 f3 old v = inr (inr refl)
frame_of-part hw outside f1 f2 f3 old v = absurd (let v' = v in cc)

new_entry-IsEntry :
    (hw : Hardware) (lay : Layout) (j f1 f2 f3 : ℕ) (old : Pte)
    → IsEntry hw lay j hw.prot_read_write
        (some (f1, f2, f3))
        (new_entry hw (part_of hw lay j) f1 f2 f3 old)
new_entry-IsEntry hw lay j f1 f2 f3 old = record {
  valid = ground arith;
  prot = λ v. ground arith;
  frame = frame_of-part hw (part_of hw lay j) f1 f2 f3 old;
}

-- The kernel with another free frame queue.
abbrev pub with_free : Kernel → Queue ℕ → Kernel
with_free k q = record k { free_frame_queue = q }

take_three_lem :
    (k : Kernel) (f1 f2 f3 : ℕ) (fs : List ℕ)
    → k.free_frame_queue.items ≡ f1 ∷ f2 ∷ f3 ∷ fs
    → (q : Queue ℕ) × (q.items ≡ fs) × (take_three k ≡ ok (some (f1, f2, f3)) (with_free k q))
unfolding take_three
take_three_lem k f1 f2 f3 fs line =
    let q1 : Queue ℕ = record k.free_frame_queue {
      items = f2 ∷ f3 ∷ fs;
      count = k.free_frame_queue.count -ℤ pos 1;
    } in
    let q2 : Queue ℕ = record q1 { items = f3 ∷ fs; count = q1.count -ℤ pos 1 } in
    let q3 : Queue ℕ = record q2 { items = fs; count = q2.count -ℤ pos 1 } in
    (
      q3,
      refl,
      rw
          (
            pop_some k f1 (f2 ∷ f3 ∷ fs) line,
            pop_some (with_free k q1) f2 (f3 ∷ fs) refl,
            pop_some (with_free k q2) f3 fs refl,
          )
          refl,
    )

-- The first page, and those after it.
first_page :
    (hw : Hardware) (lay : Layout) (i n a b c : ℕ) (items : List ℕ) (after : ℕ → Pte)
    → IsEntry hw lay i hw.prot_read_write (some (a, b, c)) (after i)
    → ((m : ℕ)
        → m < n
        → IsEntry hw lay (i + 1 + m) hw.prot_read_write (triple_at items m) (after (i + 1 + m)))
    → (m : ℕ) → m < suc n
    → IsEntry hw lay (i + m) hw.prot_read_write (triple_at (a ∷ b ∷ c ∷ items) m) (after (i + m))
first_page hw lay i n a b c items after here later zero low =
    let e : i + 0 ≡ i = omega arith in rw e here
first_page hw lay i n a b c items after here later (suc m) low =
    let e : i + suc m ≡ i + 1 + m = omega arith in rw e (later m (omega arith))

-- What the loop over `n` pages from `i` on makes of the frames in `items`.
abbrev pub Assigned :
    Kernel → Layout → (i n : ℕ) → List ℕ → (ℕ → Pte) → Option (ℕ → Pte) → Kernel → Type 0
Assigned k lay i n items entries r k' =
    (after : ℕ → Pte) × (q : Queue ℕ) × (r ≡ some after)
    × (k' ≡ with_free k q)
    × (q.items ≡ after_triples n items)
    × ((m : ℕ)
        → m < n
        → IsEntry k.hardware lay (i + m) k.hardware.prot_read_write (triple_at items m)
            (after (i + m)))
    × ((j : ℕ) → j < i → after j ≡ entries j)

pub assign_pages-Assigned :
    (lay : Layout) (n i : ℕ) (items : List ℕ) (entries : ℕ → Pte) (k : Kernel)
    → k.free_frame_queue.items ≡ items
    → 3 * n ≤ length items
    → Returns (Assigned k lay i n items entries) (assign_pages lay i n entries k)
unfolding assign_pages
assign_pages-Assigned lay zero i items entries k line enough =
    (entries, k.free_frame_queue, refl, refl, line, λ m low. absurd (omega arith), λ j low. refl)
assign_pages-Assigned lay (suc n) i [] entries k line enough = absurd (omega arith)
assign_pages-Assigned lay (suc n) i (a ∷ []) entries k line enough = absurd (omega arith)
assign_pages-Assigned lay (suc n) i (a ∷ b ∷ []) entries k line enough = absurd (omega arith)
assign_pages-Assigned lay (suc n) i (a ∷ b ∷ c ∷ items) entries k line enough =
    let (q, left, taken) = take_three_lem k a b c items line in
    let e = new_entry k.hardware (part_of k.hardware lay i) a b c (entries i) in
    let entries' = update entries i e in
    rw taken (
      Returns-weaken _ _ (assign_pages lay (i + 1) n entries' (with_free k q))
        (assign_pages-Assigned lay n (i + 1) items entries' (with_free k q) left (omega arith))
        λ r k' s.
          let (after, q', r_eq, k_eq, rest, pages, before) = s in
          let at : after i ≡ e = before i (omega arith) ∙ rw (==_refl i) refl in
          let here = new_entry-IsEntry k.hardware lay i a b c (entries i) in
          let all = first_page k.hardware lay i n a b c items after (rw at here) pages in
          (
            after,
            q',
            r_eq,
            k_eq,
            rest,
            all,
            λ j low.
                before j (omega arith)
                ∙ (let apart : (i == j) ≡ false = ground arith in rw apart refl),
          ))
