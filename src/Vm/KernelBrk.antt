-- ===== src/Vm/KernelBrk.antt =====
-- The kernel's own heap: `shrink_heap_pages`, `expand_heap_pages` and `SetKernelBrk` of src/kernel.c.
-- `expand_heap_pages` ends without a return statement; what its caller then gets is a parameter.
pub mod Shrink
pub mod Expand
pub mod Frame
pub mod Heap
use cs58_yalnix.Base.{
  ℕ, zero, suc, ◌+◌, ◌-◌, ◌*◌, Bool, true, false, Option, none, some, if◌then◌else◌, ltb, leb,
}
use cs58_yalnix.Base.Int.{ℤ, pos, negsuc, ◌==ℤ◌}
use cs58_yalnix.Kernel.{
  Hardware, Kernel, Pte, M, ok, pure, crash, gets, malloc, push_free_frame, ◌>>=◌, ◌>>◌,
}
use cs58_yalnix.Ipc.{error}
use cs58_yalnix.Vm.{pop_free_frame, region_0_at, put_region_0, up_to_page}
use cs58_yalnix.Vm.Boot.{stack_base}

-- The frame of a page that was unmapped goes on the free frame queue; the result of the push is
-- ignored. `false` where there is no memory.
give_back : ℕ → M Bool
give_back pfn = do got ← malloc; if got then (do push_free_frame pfn; pure true) else pure false

release_page : Pte → M Bool
unfolding give_back
release_page e = do
  virtual ← gets (λ k. k.virtual_mem_enabled)
  if virtual then give_back e.pfn else pure true

-- The loop over `n` pages from `i` down.
shrink_loop : ℕ → ℕ → M ℤ
unfolding release_page
shrink_loop i zero = pure (pos 0)
shrink_loop i (suc n) = do
  e ← region_0_at i
  if e.valid
      then (do
        put_region_0 i (record e { valid = false; prot = 0 })
        done ← release_page e
        if done then shrink_loop (i - 1) n else pure error)
      else shrink_loop (i - 1) n

-- `shrink_heap_pages`.
unfoldable pub shrink_heap_pages : ℕ → ℕ → M ℤ
unfolding shrink_loop
shrink_heap_pages prev_top new_top = shrink_loop prev_top (prev_top - new_top)

-- A frame for the page at `i`: before virtual memory is on, that of the same number.
frame_for : ℕ → M (Option ℕ)
frame_for i = do
  virtual ← gets (λ k. k.virtual_mem_enabled)
  if virtual then pop_free_frame else pure (some i)

map_page : ℕ → Option ℕ → M Bool
map_page i none = pure false
map_page i (some f) = do
  hw ← gets (λ k. k.hardware)
  put_region_0 i (record { valid = true; prot = hw.prot_read_write; pfn = f })
  pure true

-- The loop over `n` pages from `i` up.
expand_loop : ℤ → ℕ → ℕ → M ℤ
unfolding frame_for map_page
expand_loop left_over i zero = pure left_over
expand_loop left_over i (suc n) = do
  e ← region_0_at i
  if e.valid then expand_loop left_over (i + 1) n else (do
    f ← frame_for i
    done ← map_page i f
    if done then expand_loop left_over (i + 1) n else pure error)

-- `expand_heap_pages`. It starts one page below the old top.
unfoldable pub expand_heap_pages : ℤ → ℕ → ℕ → M ℤ
unfolding expand_loop
expand_heap_pages left_over zero new_top = crash
expand_heap_pages left_over (suc below_top) new_top =
    expand_loop left_over below_top (new_top - below_top)

move_brk : ℕ → ℤ → M ℤ
move_brk suggested rc k =
    if rc ==ℤ error
    then ok error k
    else ok (pos 0) (record k { kernel_brk_offset = suggested - k.hardware.orig_kernel_brk_page })

-- `SetKernelBrk`. Its second check compares a page number with an address.
unfoldable pub set_kernel_brk : ℤ → ℕ → M ℤ
unfolding move_brk
set_kernel_brk left_over addr = do
  hw ← gets (λ k. k.hardware)
  offset ← gets (λ k. k.kernel_brk_offset)
  let current_page = hw.orig_kernel_brk_page + offset
  let suggested = up_to_page hw addr
  if ltb suggested hw.orig_kernel_brk_page
      then pure error
      else if ltb (stack_base hw * hw.page_size) suggested
      then pure error
      else (do
        rc ←
            if ltb suggested current_page
            then shrink_heap_pages current_page suggested
            else expand_heap_pages left_over current_page suggested
        move_brk suggested rc)
