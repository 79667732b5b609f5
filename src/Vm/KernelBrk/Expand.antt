-- ===== src/Vm/KernelBrk/Expand.antt =====
-- What `expand_heap_pages` maps.
use cs58_yalnix.Base.{
  ℕ, zero, suc, ◌+◌, ◌-◌, ◌≤◌, ◌<◌, ◌≡◌, refl, ◌⊎◌, ◌∙◌, ap, ==_refl, true, false, Option, none,
  some, if◌then◌else◌, ltb, ◌==◌, arith, Bool-cases, inl, inr,
}
use cs58_yalnix.Base.Int.{ℤ, ◌==ℤ◌}
use cs58_yalnix.Kernel.{Kernel, Pte, pure, update, ◌>>=◌}
use cs58_yalnix.Kernel.Ensures.{Returns, Returns-weaken, Returns-bind}
use cs58_yalnix.Ipc.{error}
use cs58_yalnix.Vm.{put_region_0, pop_free_frame}
use cs58_yalnix.Vm.Boot.Layout.{region_0_at_lem}
use cs58_yalnix.Vm.KernelBrk.{frame_for, map_page, expand_loop, expand_heap_pages}

abbrev Same : Kernel → Kernel → Type 0
Same k k' = (k'.region_0_pages ≡ k.region_0_pages) × (k'.hardware ≡ k.hardware)

frame_for-Same : (k : Kernel) (i : ℕ) → Returns (λ _. Same k) (frame_for i k)
unfolding frame_for pop_free_frame
frame_for-Same k i = ground arith

-- What a loop over `n` pages from `i` up leaves.
abbrev Expanded : (ℕ → Pte) → (i n : ℕ) → ℤ → (ℕ → Pte) → Type 0
Expanded before i n rc after =
    ((rc ==ℤ error) ≡ false → (j : ℕ) → i ≤ j → j < i + n → (after j).valid ≡ true)
    × ((j : ℕ) → ((before j).valid ≡ true) ⊎ ((j < i) ⊎ (i + n ≤ j)) → after j ≡ before j)

was_mapped :
    (before after : ℕ → Pte) (i n : ℕ) (rc : ℤ)
    → (before i).valid ≡ true
    → Expanded before (i + 1) n rc after
    → Expanded before i (suc n) rc after
was_mapped before after i n rc valid x = (
  λ done j low high. elim (Bool-cases (i == j)) [
    | inl here ↦
        let e : i ≡ j = ground arith in
        let top : (after i).valid ≡ true = ap (λ x. x.valid) (x.1 i (inl valid)) ∙ valid in
        rw e at top
    | inr above ↦ x.0 done j (ground arith) (omega arith)
  ],
  λ j out. x.1 j (elim out [
    | inl mapped ↦ inl mapped
    | inr (inl low) ↦ inr (inl (omega arith))
    | inr (inr high) ↦ inr (inr (omega arith))
  ]),
)

newly_mapped :
    (before after : ℕ → Pte) (i n : ℕ) (rc : ℤ) (e : Pte)
    → (before i).valid ≡ false
    → e.valid ≡ true
    → Expanded (update before i e) (i + 1) n rc after
    → Expanded before i (suc n) rc after
newly_mapped before after i n rc e free valid x = (
  λ done j low high. elim (Bool-cases (i == j)) [
    | inl here ↦
        let e' : i ≡ j = ground arith in
        let kept = x.1 i (inr (inl (omega arith))) in
        let top : (after i).valid ≡ true = ap (λ x. x.valid) kept ∙ rw (==_refl i) valid in
        rw e' at top
    | inr above ↦ x.0 done j (ground arith) (omega arith)
  ],
  λ j out. elim (Bool-cases (i == j)) [
    | inl here ↦
        let e' : i ≡ j = ground arith in
        elim out [
          | inl mapped ↦ absurd (let free' = rw e' at free in cc)
          | inr (inl low) ↦ absurd (omega arith)
          | inr (inr high) ↦ absurd (omega arith)
        ]
    | inr apart ↦
        let same : update before i e j ≡ before j = rw apart refl in
        x.1 j (elim out [
          | inl mapped ↦ inl (ap (λ x. x.valid) same ∙ mapped)
          | inr (inl low) ↦ inr (inl (omega arith))
          | inr (inr high) ↦ inr (inr (omega arith))
        ])
        ∙ same
  ],
)

no_frame : (before : ℕ → Pte) (i n : ℕ) → Expanded before i n error before
no_frame before i n = (λ done. absurd (let e = done in cc), λ j out. refl)

after_frame :
    (left_over : ℤ) (k : Kernel) (i n : ℕ)
    → (k.region_0_pages i).valid ≡ false
    → ltb i k.hardware.num_pages ≡ true
    → ((k1 : Kernel)
        → k1.hardware ≡ k.hardware
        → Returns
            (λ rc k'. Expanded k1.region_0_pages (i + 1) n rc k'.region_0_pages)
            (expand_loop left_over (i + 1) n k1))
    → (f : Option ℕ) (k1 : Kernel) → Same k k1
    → Returns
        (λ rc k'. Expanded k.region_0_pages i (suc n) rc k'.region_0_pages)
        ((do done ← map_page i f; if done then expand_loop left_over (i + 1) n else pure error) k1)
unfolding map_page put_region_0
after_frame left_over k i n free exists later none k1 same =
    rw (same.0) (no_frame k.region_0_pages i (suc n))
after_frame left_over k i n free exists later (some f) k1 same =
    let e : Pte = record { valid = true; prot = k1.hardware.prot_read_write; pfn = f } in
    let k2 : Kernel = record k1 { region_0_pages = update k1.region_0_pages i e } in
    Returns-weaken _ _ (expand_loop left_over (i + 1) n k2) (later k2 (same.1)) λ rc k' x.
      newly_mapped k.region_0_pages k'.region_0_pages i n rc e free refl (rw (same.0) at x)

expand_loop-Expanded :
    (left_over : ℤ) (k : Kernel) (i n : ℕ)
    → i + n ≤ k.hardware.num_pages
    → Returns
        (λ rc k'. Expanded k.region_0_pages i n rc k'.region_0_pages)
        (expand_loop left_over i n k)
unfolding expand_loop
expand_loop-Expanded left_over k i zero fits =
    (λ done j low high. absurd (omega arith), λ j out. refl)
expand_loop-Expanded left_over k i (suc n) fits =
    let exists : ltb i k.hardware.num_pages ≡ true = ground arith in
    rw (region_0_at_lem k i exists) (elim (Bool-cases (k.region_0_pages i).valid) [
      | inl valid ↦ rw valid (
          Returns-weaken _ _ (expand_loop left_over (i + 1) n k)
            (expand_loop-Expanded left_over k (i + 1) n (omega arith))
            (λ rc k' x. was_mapped k.region_0_pages k'.region_0_pages i n rc valid x))
      | inr free ↦ rw free (
          Returns-bind (λ _. Same k) _ (frame_for i k) _ (frame_for-Same k i)
            (after_frame left_over k i n free exists
              λ k1 e. expand_loop-Expanded left_over k1 (i + 1) n (rw e (omega arith))))
    ])

-- `expand_heap_pages` from one page of region 0, not the first, up to another returns, whatever its
-- missing return statement leaves to the caller. Where that is not ERROR, all pages from the one below
-- the old top up to the one below the new top are mapped. In any case, a page that was mapped
-- keeps its entry, and so does every page beyond the two.
pub expand_heap_pages-maps :
    (left_over : ℤ) (k : Kernel) (below_top new_top : ℕ)
    → below_top ≤ new_top
    → new_top ≤ k.hardware.num_pages
    → Returns
        (λ rc k'.
          ((rc ==ℤ error) ≡ false
            → (j : ℕ) → below_top ≤ j
            → j < new_top
            → (k'.region_0_pages j).valid ≡ true)
          × ((j : ℕ)
              → ((k.region_0_pages j).valid ≡ true) ⊎ ((j < below_top) ⊎ (new_top ≤ j))
              → k'.region_0_pages j ≡ k.region_0_pages j))
        (expand_heap_pages left_over (suc below_top) new_top k)
unfolding expand_heap_pages
expand_heap_pages-maps left_over k below_top new_top up inside =
    let whole : below_top + (new_top - below_top) ≡ new_top = omega arith in
    let x = expand_loop-Expanded left_over k below_top (new_top - below_top) (rw whole inside) in
    rw whole at x
