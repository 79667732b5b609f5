-- ===== src/Vm/KernelBrk/Heap.antt =====
-- The kernel's heap under `SetKernelBrk`.
use cs58_yalnix.Base.{
  ℕ, suc, ◌+◌, ◌-◌, ◌*◌, ◌≤◌, ◌<◌, ◌≡◌, refl, sym, ◌⊎◌, ◌∙◌, ap, true, false, ltb, arith,
  Bool-cases, inl, inr,
}
use cs58_yalnix.Base.Int.{ℤ, pos, ◌==ℤ◌}
use cs58_yalnix.Kernel.{Kernel}
use cs58_yalnix.Kernel.Ensures.{Returns, Returns-weaken, Returns-bind, Returns-Ensures}
use cs58_yalnix.Ipc.{error}
use cs58_yalnix.Vm.{up_to_page}
use cs58_yalnix.Vm.Boot.{stack_base}
use cs58_yalnix.Vm.KernelBrk.{shrink_heap_pages, expand_heap_pages, move_brk, set_kernel_brk}
use cs58_yalnix.Vm.KernelBrk.Shrink.{shrink_heap_pages-unmaps}
use cs58_yalnix.Vm.KernelBrk.Expand.{expand_heap_pages-maps}
use cs58_yalnix.Vm.KernelBrk.Frame.{Fixed, shrink_heap_pages-Fixed, expand_heap_pages-Fixed}

-- The pages of the kernel's heap below this one are mapped.
abbrev pub Mapped : Kernel → ℕ → Type 0
Mapped k top =
    (j : ℕ) → k.hardware.orig_kernel_brk_page ≤ j → j < top → (k.region_0_pages j).valid ≡ true

abbrev pub brk_page : Kernel → ℕ
brk_page k = k.hardware.orig_kernel_brk_page + k.kernel_brk_offset

-- What shrinking or expanding the heap up to the page `top` leaves.
abbrev Resized : Kernel → ℕ → ℤ → Kernel → Type 0
Resized k top rc k' =
    ((rc ==ℤ error) ≡ false → Mapped k' top)
    × (brk_page k ≤ top → Mapped k' (brk_page k))
    × Fixed k.hardware k.kernel_brk_offset k'

shrink-Resized :
    (k : Kernel) (top : ℕ)
    → brk_page k < k.hardware.num_pages
    → Mapped k (brk_page k)
    → top < brk_page k
    → Returns (Resized k top) (shrink_heap_pages (brk_page k) top k)
shrink-Resized k top inside mapped down =
    let fixed =
      (shrink_heap_pages-Fixed k.hardware k.kernel_brk_offset (brk_page k) top).keeps k
        (refl, refl) in
    let shrunk = shrink_heap_pages-unmaps k (brk_page k) top inside (omega arith) in
    Returns-weaken _ _ (shrink_heap_pages (brk_page k) top k)
      (Returns-Ensures _ _ (shrink_heap_pages (brk_page k) top k) shrunk fixed)
      λ rc k' s. (
        λ done j low high.
            ap (λ e. e.valid) (s.0.1 j (inl (omega arith)))
            ∙ mapped j (rw (s.1.0) at low) (omega arith),
        λ up. absurd (omega arith),
        s.1,
      )

expand-Resized :
    (left_over : ℤ) (k : Kernel) (top : ℕ)
    → 0 < brk_page k
    → top ≤ k.hardware.num_pages
    → Mapped k (brk_page k)
    → brk_page k ≤ top
    → Returns (Resized k top) (expand_heap_pages left_over (brk_page k) top k)
expand-Resized left_over k top positive inside mapped up =
    let below = brk_page k - 1 in
    let e : brk_page k ≡ suc below = omega arith in
    let fixed =
      (expand_heap_pages-Fixed k.hardware k.kernel_brk_offset left_over (suc below) top).keeps k
        (refl, refl) in
    let maps = expand_heap_pages-maps left_over k below top (omega arith) inside in
    rw e (
      Returns-weaken _ _ (expand_heap_pages left_over (suc below) top k)
        (Returns-Ensures _ _ (expand_heap_pages left_over (suc below) top k) maps fixed)
        λ rc k' s.
          let kept = λ (j : ℕ) (low : k'.hardware.orig_kernel_brk_page ≤ j) (high : j < brk_page k).
            let valid = mapped j (rw (s.1.0) at low) high in
            ap (λ e. e.valid) (s.0.1 j (inl valid)) ∙ valid in
          (
            λ done j low high. elim (Bool-cases (ltb j below)) [
              | inl old ↦ kept j low (ground arith)
              | inr new ↦ s.0.0 done j (ground arith) high
            ],
            λ up j low high. kept j low (omega arith),
            s.1,
          ))

-- The two outcomes of `SetKernelBrk` for the page `top`.
abbrev pub BrkSet : Kernel → ℕ → ℤ → Kernel → Type 0
BrkSet k top rc k' =
    ((rc ≡ pos 0) × (brk_page k' ≡ top) × Mapped k' (brk_page k'))
    ⊎ ((rc ≡ error)
        × (brk_page k' ≡ brk_page k)
        × ((top < k.hardware.orig_kernel_brk_page) ⊎ (brk_page k ≤ top) → Mapped k' (brk_page k')))

move_brk-BrkSet :
    (k : Kernel) (top : ℕ) (rc : ℤ) (k1 : Kernel)
    → k.hardware.orig_kernel_brk_page ≤ top
    → Resized k top rc k1
    → Returns (BrkSet k top) (move_brk top rc k1)
unfolding move_brk
move_brk-BrkSet k top rc k1 above r = elim (Bool-cases (rc ==ℤ error)) [
  | inl failed ↦
      let same : brk_page k1 ≡ brk_page k = rw (r.2.0, r.2.1) refl in
      rw failed (
        inr (
          refl,
          same,
          λ up. elim up [
            | inl low ↦ absurd (omega arith)
            | inr high ↦ let kept = r.1 high in rw (sym same) at kept
          ],
        ))
  | inr done ↦
      let k' : Kernel = record k1 { kernel_brk_offset = top - k1.hardware.orig_kernel_brk_page } in
      let set : brk_page k' ≡ top = rw (r.2.0) (omega arith) in
      rw done (inl (refl, set, λ j low high. r.0 done j low (rw set at high)))
]

-- `SetKernelBrk` returns, whatever the missing return statement of `expand_heap_pages` leaves, where the
-- kernel's heap is mapped up to the break, the break is in region 0 and not on its first page, and
-- the new one is at most the end of region 0. Either it returns 0, the break is on the page of the
-- address, and the heap is mapped up to it; or it returns ERROR and leaves the break, and the heap is
-- still mapped up to it unless the break was to be lowered.
pub set_kernel_brk-BrkSet :
    (left_over : ℤ) (k : Kernel) (addr : ℕ)
    → 0 < brk_page k
    → brk_page k < k.hardware.num_pages
    → up_to_page k.hardware addr ≤ k.hardware.num_pages
    → Mapped k (brk_page k)
    → Returns (BrkSet k (up_to_page k.hardware addr)) (set_kernel_brk left_over addr k)
unfolding set_kernel_brk
set_kernel_brk-BrkSet left_over k addr positive inside fits mapped =
    let top = up_to_page k.hardware addr in
    let orig = k.hardware.orig_kernel_brk_page in
    elim (Bool-cases (ltb top orig)) [
      | inl low ↦ rw low (inr (refl, refl, λ up. mapped))
      | inr above ↦ elim (Bool-cases (ltb (stack_base k.hardware * k.hardware.page_size) top)) [
        | inl high ↦ rw (above, high) (inr (refl, refl, λ up. mapped))
        | inr below ↦ elim (Bool-cases (ltb top (brk_page k))) [
          | inl down ↦
              rw (above, below, down)
                (Returns-bind (Resized k top) _ (shrink_heap_pages (brk_page k) top k) _
                  (shrink-Resized k top inside mapped (ground arith))
                  (λ rc k1 r. move_brk-BrkSet k top rc k1 (ground arith) r))
          | inr up ↦
              rw (above, below, up)
                (Returns-bind (Resized k top) _ (expand_heap_pages left_over (brk_page k) top k) _
                  (expand-Resized left_over k top positive fits mapped (ground arith))
                  (λ rc k1 r. move_brk-BrkSet k top rc k1 (ground arith) r))
        ]
      ]
    ]
