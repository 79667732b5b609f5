-- ===== src/Vm/Fork/Windows.antt =====
-- `KCCopy` for a process that has its context and its kernel stack.
use cs58_yalnix.Base.{
  ℕ, zero, suc, ◌+◌, ◌-◌, ◌*◌, ◌/◌, ◌^◌, ◌≡◌, ◌≤◌, ◌<◌, ◌∙◌, refl, false, some, ◌==◌, leb, arith,
  Bool-cases, inl, inr,
}
use cs58_yalnix.Kernel.{Hardware, Kernel, Pcb, Pte, ok, update}
use cs58_yalnix.Kernel.Scheduler.Laws.{IsKernelAddress, IsKernelAddress-valid}
use cs58_yalnix.Vm.{put_region_0}
use cs58_yalnix.Vm.Boot.Layout.{IsLaidOut}
use cs58_yalnix.Vm.Fork.{clear_window, clear_windows, ensure_context, kc_copy}

-- The page table of region 0 is laid out as at boot.
abbrev pub AllLaidOut : Hardware → (offset : ℕ) → (ℕ → Pte) → Type 0
AllLaidOut hw offset pages = (j : ℕ) → j < hw.num_pages → IsLaidOut hw offset j (pages j)

-- An address in the kernel's text, data or heap.
abbrev pub InHeap : Hardware → (offset addr : ℕ) → Type 0
InHeap hw offset addr =
    (leb (2 ^ 31) addr ≡ false)
    × (hw.first_kernel_text_page ≤ addr / hw.page_size)
    × (addr / hw.page_size < hw.orig_kernel_brk_page + offset)

pub InHeap-IsKernelAddress :
    (hw : Hardware) (offset : ℕ) (pages : ℕ → Pte) (addr : ℕ)
    → hw.orig_kernel_brk_page + offset ≤ hw.num_pages
    → AllLaidOut hw offset pages
    → InHeap hw offset addr
    → IsKernelAddress hw pages addr
InHeap-IsKernelAddress hw offset pages addr fits laid (low, text, heap) =
    let how = laid (addr / hw.page_size) (omega arith) in
    record { low = low; region_0 = omega arith; mapped = how.0 ∙ ground arith }

-- A page between the heap and the stack is not mapped.
pub unmapped-AllLaidOut :
    (hw : Hardware) (offset i : ℕ) (pages : ℕ → Pte)
    → hw.orig_kernel_brk_page + offset ≤ i
    → i < hw.num_pages - hw.num_kstack_frames
    → AllLaidOut hw offset pages
    → AllLaidOut hw offset (update pages i (record { valid = false; prot = 0; pfn = 0 }))
unmapped-AllLaidOut hw offset i pages above below laid j inside = elim (Bool-cases (i == j)) [
  | inl here ↦ rw here (ground arith)
  | inr other ↦ rw other (laid j inside)
]

clear_windows-AllLaidOut :
    (n i : ℕ) (k : Kernel)
    → i + n ≤ k.hardware.num_kstack_frames
    → k.hardware.orig_kernel_brk_page + k.kernel_brk_offset + 2 * k.hardware.num_kstack_frames
      ≤ k.hardware.num_pages
    → AllLaidOut k.hardware k.kernel_brk_offset k.region_0_pages
    → (pages : ℕ → Pte) × (clear_windows i n k ≡ ok tt (record k { region_0_pages = pages }))
      × AllLaidOut k.hardware k.kernel_brk_offset pages
unfolding clear_windows clear_window put_region_0
clear_windows-AllLaidOut zero i k fits room laid = (k.region_0_pages, refl, laid)
clear_windows-AllLaidOut (suc n) i k fits room laid =
    let page = k.hardware.num_pages - 2 * k.hardware.num_kstack_frames + i in
    let cleared = update k.region_0_pages page (record { valid = false; prot = 0; pfn = 0 }) in
    clear_windows-AllLaidOut n (i + 1) (record k { region_0_pages = cleared }) (omega arith) room
      (unmapped-AllLaidOut k.hardware k.kernel_brk_offset page k.region_0_pages (omega arith)
        (omega arith) laid)

pub kc_copy-AllLaidOut :
    (context_at p : ℕ) (k : Kernel) (v : Pcb) (context : ℕ) (stack : ℕ → Pte)
    → IsKernelAddress k.hardware k.region_0_pages p
    → k.pcbs p ≡ some v
    → v.krn_ctx ≡ some context
    → v.kernel_stack_pages ≡ some stack
    → k.hardware.orig_kernel_brk_page + k.kernel_brk_offset + 2 * k.hardware.num_kstack_frames
      ≤ k.hardware.num_pages
    → AllLaidOut k.hardware k.kernel_brk_offset k.region_0_pages
    → (pages : ℕ → Pte) × (kc_copy context_at p k ≡ ok tt (record k { region_0_pages = pages }))
      × AllLaidOut k.hardware k.kernel_brk_offset pages
unfolding kc_copy ensure_context
kc_copy-AllLaidOut context_at p k v context stack address block has_context has_stack room laid =
    let (pages, run, laid') =
      clear_windows-AllLaidOut k.hardware.num_kstack_frames 0 k (omega arith) room laid in
    (
      pages,
      rw (IsKernelAddress-valid k p address)
          (rw (block, has_context) (rw (block, has_stack) (rw run refl))),
      laid',
    )
