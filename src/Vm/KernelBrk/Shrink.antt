-- ===== src/Vm/KernelBrk/Shrink.antt =====
-- What `shrink_heap_pages` unmaps.
use cs58_yalnix.Base.{
  ℕ, zero, suc, ◌+◌, ◌-◌, ◌≤◌, ◌<◌, ◌≡◌, refl, ◌⊎◌, ◌∙◌, ap, ==_refl, Bool, true, false,
  if◌then◌else◌, ltb, ◌==◌, arith, Bool-cases, inl, inr,
}
use cs58_yalnix.Base.Int.{ℤ, pos}
use cs58_yalnix.Kernel.{Kernel, Pte, pure, update, malloc, push_free_frame}
use cs58_yalnix.Kernel.Ensures.{Returns, Returns-weaken, Returns-bind}
use cs58_yalnix.Ipc.{error}
use cs58_yalnix.Vm.{put_region_0}
use cs58_yalnix.Vm.Boot.Layout.{region_0_at_lem}
use cs58_yalnix.Vm.KernelBrk.{give_back, release_page, shrink_loop, shrink_heap_pages}

-- The region 0 page table and what it takes to read it.
abbrev Same : Kernel → Kernel → Type 0
Same k k' = (k'.region_0_pages ≡ k.region_0_pages) × (k'.hardware ≡ k.hardware)

release_page-Same : (k : Kernel) (e : Pte) → Returns (λ _. Same k) (release_page e k)
unfolding release_page give_back malloc push_free_frame
release_page-Same k e = ground arith

-- What a loop over `n` pages from `i` down leaves.
abbrev Shrunk : (ℕ → Pte) → (i n : ℕ) → ℤ → (ℕ → Pte) → Type 0
Shrunk before i n rc after =
    (rc ≡ pos 0 → (j : ℕ) → j ≤ i → i < j + n → (after j).valid ≡ false)
    × ((j : ℕ) → (i < j) ⊎ (j + n ≤ i) → after j ≡ before j)

abbrev unmapped : (ℕ → Pte) → ℕ → ℕ → Pte
unmapped pages i = update pages i (record (pages i) { valid = false; prot = 0 })

not_mapped :
    (before after : ℕ → Pte) (i n : ℕ) (rc : ℤ)
    → suc n ≤ i
    → (before i).valid ≡ false
    → Shrunk before (i - 1) n rc after
    → Shrunk before i (suc n) rc after
not_mapped before after i n rc fits invalid s = (
  λ done j low high. elim (Bool-cases (i == j)) [
    | inl here ↦
        let e : i ≡ j = ground arith in
        let kept = s.1 i (inl (omega arith)) in
        let top : (after i).valid ≡ false = ap (λ x. x.valid) kept ∙ invalid in rw e at top
    | inr below ↦ s.0 done j (ground arith) (omega arith)
  ],
  λ j out. elim out [
    | inl above ↦ s.1 j (inl (omega arith))
    | inr below ↦ s.1 j (inr (omega arith))
  ],
)

was_mapped :
    (before after : ℕ → Pte) (i n : ℕ) (rc : ℤ)
    → suc n ≤ i
    → Shrunk (unmapped before i) (i - 1) n rc after
    → Shrunk before i (suc n) rc after
was_mapped before after i n rc fits s = (
  λ done j low high. elim (Bool-cases (i == j)) [
    | inl here ↦
        let e : i ≡ j = ground arith in
        let kept = s.1 i (inl (omega arith)) in
        let top : (after i).valid ≡ false = ap (λ x. x.valid) kept ∙ rw (==_refl i) refl in
        rw e at top
    | inr below ↦ s.0 done j (ground arith) (omega arith)
  ],
  λ j out. elim out [
    | inl above ↦
        let apart : (i == j) ≡ false = ground arith in s.1 j (inl (omega arith)) ∙ rw apart refl
    | inr below ↦
        let apart : (i == j) ≡ false = ground arith in s.1 j (inr (omega arith)) ∙ rw apart refl
  ],
)

-- Stopped after the first page for want of memory.
stopped :
    (before : ℕ → Pte) (i n : ℕ) → suc n ≤ i → Shrunk before i (suc n) error (unmapped before i)
stopped before i n fits = (
  λ done. absurd (let e = done in cc),
  λ j out. elim out [
    | inl above ↦ let apart : (i == j) ≡ false = ground arith in rw apart refl
    | inr below ↦ let apart : (i == j) ≡ false = ground arith in rw apart refl
  ],
)

abbrev cleared : Kernel → ℕ → Kernel
cleared k i = record k { region_0_pages = unmapped k.region_0_pages i }

after_release :
    (k : Kernel) (i n : ℕ)
    → suc n ≤ i
    → ((k1 : Kernel)
        → k1.hardware ≡ k.hardware
        → Returns
            (λ rc k'. Shrunk k1.region_0_pages (i - 1) n rc k'.region_0_pages)
            (shrink_loop (i - 1) n k1))
    → (done : Bool) (k1 : Kernel) → Same (cleared k i) k1
    → Returns
        (λ rc k'. Shrunk k.region_0_pages i (suc n) rc k'.region_0_pages)
        ((if done then shrink_loop (i - 1) n else pure error) k1)
after_release k i n fits later true k1 same =
    Returns-weaken _ _ (shrink_loop (i - 1) n k1) (later k1 (same.1))
      (λ rc k' s. was_mapped k.region_0_pages k'.region_0_pages i n rc fits (rw (same.0) at s))
after_release k i n fits later false k1 same = rw (same.0) (stopped k.region_0_pages i n fits)

shrink_loop-Shrunk :
    (k : Kernel) (i n : ℕ)
    → n ≤ i
    → i < k.hardware.num_pages
    → Returns (λ rc k'. Shrunk k.region_0_pages i n rc k'.region_0_pages) (shrink_loop i n k)
unfolding shrink_loop put_region_0
shrink_loop-Shrunk k i zero fits inside = (λ done j low high. absurd (omega arith), λ j out. refl)
shrink_loop-Shrunk k i (suc n) fits inside =
    let exists : ltb i k.hardware.num_pages ≡ true = ground arith in
    rw (region_0_at_lem k i exists) (elim (Bool-cases (k.region_0_pages i).valid) [
      | inr invalid ↦ rw invalid (
          Returns-weaken _ _ (shrink_loop (i - 1) n k)
            (shrink_loop-Shrunk k (i - 1) n (omega arith) (omega arith))
            (λ rc k' s. not_mapped k.region_0_pages k'.region_0_pages i n rc fits invalid s))
      | inl valid ↦ rw valid (
          Returns-bind (λ _. Same (cleared k i)) _ (release_page (k.region_0_pages i) (cleared k i))
            _ (release_page-Same (cleared k i) (k.region_0_pages i))
            (after_release k i n fits
              λ k1 e. shrink_loop-Shrunk k1 (i - 1) n (omega arith) (rw e (omega arith))))
    ])

-- `shrink_heap_pages` from one page of region 0 down to another returns. Where it returns 0, all pages
-- above the new top page, up to the old one, are unmapped; the new top page itself, like every page
-- beyond the two, has the entry that it had.
pub shrink_heap_pages-unmaps :
    (k : Kernel) (prev_top new_top : ℕ)
    → prev_top < k.hardware.num_pages
    → new_top ≤ prev_top
    → Returns
        (λ rc k'.
          (rc ≡ pos 0 → (j : ℕ) → new_top < j → j ≤ prev_top → (k'.region_0_pages j).valid ≡ false)
          × ((j : ℕ) → (j ≤ new_top) ⊎ (prev_top < j) → k'.region_0_pages j ≡ k.region_0_pages j))
        (shrink_heap_pages prev_top new_top k)
unfolding shrink_heap_pages
shrink_heap_pages-unmaps k prev_top new_top inside down =
    Returns-weaken _ _ (shrink_loop prev_top (prev_top - new_top) k)
      (shrink_loop-Shrunk k prev_top (prev_top - new_top) (omega arith) inside)
      λ rc k' s. (
        λ done j low high. s.0 done j high (omega arith),
        λ j out. elim out [ inl below ↦ s.1 j (inr (omega arith)) | inr above ↦ s.1 j (inl above) ],
      )
