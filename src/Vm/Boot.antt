-- ===== src/Vm/Boot.antt =====
-- The region 0 page table and the free frames at boot: `init_page_tables` and
-- `init_free_frame_queue` of src/kernel.c. The kernel stack's pages are the last ones of region 0.
pub mod Layout
pub mod Frames
pub mod FreeFrames
use cs58_yalnix.Base.{
  ℕ, zero, suc, ◌+◌, ◌-◌, Bool, true, false, ◌&&◌, if◌then◌else◌, ltb, leb, some,
}
use cs58_yalnix.Kernel.{
  Hardware, Kernel, Pte, M, ok, pure, gets, malloc, push_free_frame, update, ◌>>=◌, ◌>>◌,
}
use cs58_yalnix.Vm.{region_0_at, put_region_0}

-- The regions of the switch in `init_page_tables`.
pub data Region : Type 0 where
  base_memory kernel_text kernel_dataheap kernel_stack unused : Region

abbrev pub stack_base : Hardware → ℕ
stack_base hw = hw.num_pages - hw.num_kstack_frames

-- The cascade of tests on a page number.
abbrev pub region_of_page : Hardware → (brk_offset : ℕ) → ℕ → Region
region_of_page hw offset page =
    if ltb page hw.first_kernel_text_page
    then base_memory
    else if ltb page hw.first_kernel_data_page
    then kernel_text
    else if ltb page (hw.orig_kernel_brk_page + offset)
    then kernel_dataheap
    else if leb (stack_base hw) page && ltb page hw.num_pages
    then kernel_stack
    else unused

-- The entry that the switch leaves. An entry that is not valid keeps its frame number.
abbrev pub entry_of : Hardware → Region → ℕ → Pte → Pte
entry_of hw base_memory page old = record old { valid = false; prot = 0 }
entry_of hw kernel_text page old = record { valid = true; prot = hw.prot_read_exec; pfn = page }
entry_of hw kernel_dataheap page old = record {
  valid = true;
  prot = hw.prot_read_write;
  pfn = page;
}
entry_of hw kernel_stack page old = record { valid = true; prot = hw.prot_read_write; pfn = page }
entry_of hw unused page old = record old { valid = false; prot = 0 }

-- The loop over the `n` pages of region 0 from `page` on.
init_region_0 : ℕ → ℕ → M (Unit {0})
init_region_0 page zero = pure tt
init_region_0 page (suc n) = do
  hw ← gets (λ k. k.hardware)
  offset ← gets (λ k. k.kernel_brk_offset)
  old ← region_0_at page
  put_region_0 page (entry_of hw (region_of_page hw offset page) page old)
  init_region_0 (page + 1) n

-- The same over the table at the address of `region_1_pages`.
init_region_1 : ℕ → ℕ → (ℕ → Pte) → ℕ → Pte
init_region_1 page zero entries = entries
init_region_1 page (suc n) entries =
    init_region_1 (page + 1) n
      (update entries page (record (entries page) { valid = false; prot = 0 }))

-- `init_page_tables`, given the table `region_1_pages` and its address.
unfoldable pub init_page_tables : ℕ → (ℕ → Pte) → M (Unit {0})
unfolding init_region_0 init_region_1
init_page_tables region_1 entries = do
  n ← gets (λ k. k.hardware.num_pages)
  init_region_0 0 n
  (λ k.
      ok tt (record k {
        page_tables = update k.page_tables region_1 (some (init_region_1 0 n entries));
      }))

-- The tests of `init_free_frame_queue`: the frame is in none of the regions.
abbrev pub is_free : Hardware → (brk_offset : ℕ) → ℕ → Bool
is_free hw offset frame =
    if ltb frame hw.first_kernel_text_page
    then false
    else if ltb frame hw.first_kernel_data_page
    then false
    else if leb frame (hw.orig_kernel_brk_page + offset + 1)
    then false
    else if leb (stack_base hw) frame && ltb frame hw.num_pages
    then false
    else true

-- The loop over `n` frames from `frame` on. It ends where `malloc` fails; the result of the push is
-- ignored. The heap has room for what the loop allocates: were a `malloc` to call `SetKernelBrk`
-- here, that would map the page of the same number as a frame that is on the queue by then.
free_frames : ℕ → ℕ → M (Unit {0})
free_frames frame zero = pure tt
free_frames frame (suc n) = do
  hw ← gets (λ k. k.hardware)
  offset ← gets (λ k. k.kernel_brk_offset)
  if is_free hw offset frame
      then (do
        got ← malloc
        if got then (do push_free_frame frame; free_frames (frame + 1) n) else pure tt)
      else free_frames (frame + 1) n

-- `init_free_frame_queue`. The queue has been allocated.
unfoldable pub init_free_frame_queue : ℕ → M (Unit {0})
unfolding free_frames
init_free_frame_queue num_frames = free_frames 0 num_frames
