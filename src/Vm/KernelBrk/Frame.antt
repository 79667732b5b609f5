-- ===== src/Vm/KernelBrk/Frame.antt =====
-- What the loops over the pages of the kernel's heap leave as it was.
use cs58_yalnix.Base.{ℕ, zero, suc, ◌+◌, ◌-◌, ◌≡◌, Option, none, some, arith}
use cs58_yalnix.Base.Int.{ℤ}
use cs58_yalnix.Kernel.{Hardware, Kernel, Pte, malloc, push_free_frame}
use cs58_yalnix.Kernel.Preserves.{
  Preserves, Preserves-bind, Preserves-then, Preserves-if, structure,
}
use cs58_yalnix.Vm.{put_region_0, region_0_at, pop_free_frame}
use cs58_yalnix.Vm.KernelBrk.{
  shrink_heap_pages, expand_heap_pages, give_back, release_page, shrink_loop, shrink_heap_pages,
  frame_for, map_page, expand_loop, expand_heap_pages,
}

module _ (h : Hardware) (o : ℕ) where
  -- The machine and the break.
  abbrev pub Fixed : Kernel → Type 0
  Fixed k = (k.hardware ≡ h) × (k.kernel_brk_offset ≡ o)

  put_region_0-Fixed : (i : ℕ) (e : Pte) → Preserves Fixed (put_region_0 i e)
  unfolding put_region_0
  put_region_0-Fixed i e = record { keeps = λ k f. f }

  region_0_at-Fixed : (i : ℕ) → Preserves Fixed (region_0_at i)
  unfolding region_0_at
  region_0_at-Fixed i = record { keeps = λ k f. ground (arith, f) }

  push_free_frame-Fixed : (f : ℕ) → Preserves Fixed (push_free_frame f)
  unfolding push_free_frame
  push_free_frame-Fixed f = record { keeps = λ k f. f }

  malloc-Fixed : Preserves Fixed malloc
  unfolding malloc
  malloc-Fixed = record { keeps = λ k f. f }

  pop_free_frame-Fixed : Preserves Fixed pop_free_frame
  unfolding pop_free_frame
  pop_free_frame-Fixed = record { keeps = λ k f. f }

  release_page-Fixed : (e : Pte) → Preserves Fixed (release_page e)
  unfolding release_page give_back
  release_page-Fixed e = search (structure, malloc-Fixed, push_free_frame-Fixed) depth 20

  shrink_loop-Fixed : (i n : ℕ) → Preserves Fixed (shrink_loop i n)
  unfolding shrink_loop
  shrink_loop-Fixed i zero = search structure
  shrink_loop-Fixed i (suc n) =
      let later = shrink_loop-Fixed (i - 1) n in
      Preserves-bind Fixed (region_0_at i) _ (region_0_at-Fixed i) λ e.
        Preserves-if Fixed e.valid _ _
          (Preserves-then Fixed (put_region_0 i _) _ (put_region_0-Fixed i _) (
            Preserves-bind Fixed (release_page e) _ (release_page-Fixed e)
              λ done. Preserves-if Fixed done _ _ later (search structure)))
          later

  map_page-Fixed : (i : ℕ) (f : Option ℕ) → Preserves Fixed (map_page i f)
  unfolding map_page
  map_page-Fixed i none = search structure
  map_page-Fixed i (some f) = search (structure, put_region_0-Fixed) depth 20

  frame_for-Fixed : (i : ℕ) → Preserves Fixed (frame_for i)
  unfolding frame_for
  frame_for-Fixed i = search (structure, pop_free_frame-Fixed) depth 20

  expand_loop-Fixed : (left_over : ℤ) (i n : ℕ) → Preserves Fixed (expand_loop left_over i n)
  unfolding expand_loop
  expand_loop-Fixed left_over i zero = search structure
  expand_loop-Fixed left_over i (suc n) =
      let later = expand_loop-Fixed left_over (i + 1) n in
      Preserves-bind Fixed (region_0_at i) _ (region_0_at-Fixed i) λ e.
        Preserves-if Fixed e.valid _ _ later (
          Preserves-bind Fixed (frame_for i) _ (frame_for-Fixed i) λ f.
            Preserves-bind Fixed (map_page i f) _ (map_page-Fixed i f)
              λ done. Preserves-if Fixed done _ _ later (search structure))

  pub shrink_heap_pages-Fixed :
      (prev_top new_top : ℕ) → Preserves Fixed (shrink_heap_pages prev_top new_top)
  unfolding shrink_heap_pages
  shrink_heap_pages-Fixed prev_top new_top = shrink_loop-Fixed prev_top (prev_top - new_top)

  pub expand_heap_pages-Fixed :
      (left_over : ℤ) (prev_top new_top : ℕ)
      → Preserves Fixed (expand_heap_pages left_over prev_top new_top)
  unfolding expand_heap_pages
  expand_heap_pages-Fixed left_over zero new_top = search structure
  expand_heap_pages-Fixed left_over (suc below) new_top =
      expand_loop-Fixed left_over below (new_top - below)
