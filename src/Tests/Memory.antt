-- ===== src/Tests/Memory.antt =====
-- Page tables, frames and traps at work.
use cs58_yalnix.Base.{
  ℕ, ◌≡◌, ◌≤◌, ◌<◌, ◌⊎◌, refl, inl, true, false, Option, none, some, List, [], ◌∷◌, ◌==◌, ◌++◌,
  if◌then◌else◌, arith, All, ◌≢◌,
}
use cs58_yalnix.Base.Int.{ℤ, pos, ◌==ℤ◌}
use cs58_yalnix.Kernel.{Kernel, Pte, UserContext, running, pure, returned}
use cs58_yalnix.Kernel.Ensures.{Returns}
use cs58_yalnix.Ipc.{error}
use cs58_yalnix.Ipc.Locks.{unlocked}
use cs58_yalnix.Vm.Boot.{init_page_tables, init_free_frame_queue, entry_of, region_of_page}
use cs58_yalnix.Vm.Boot.Layout.{IsLaidOut, init_page_tables-IsLaidOut, entry-IsLaidOut}
use cs58_yalnix.Vm.Boot.Frames.{Rising, init_free_frame_queue-unmapped}
use cs58_yalnix.Vm.KernelBrk.{shrink_heap_pages, expand_heap_pages, set_kernel_brk}
use cs58_yalnix.Vm.KernelBrk.Shrink.{shrink_heap_pages-unmaps}
use cs58_yalnix.Vm.KernelBrk.Expand.{expand_heap_pages-maps}
use cs58_yalnix.Vm.KernelBrk.Heap.{BrkSet, set_kernel_brk-BrkSet}
use cs58_yalnix.Vm.Fork.{copy_pages}
use cs58_yalnix.Vm.Fork.Copies.{Copied, copy_pages-Copied}
use cs58_yalnix.Traps.{Syscall, wait, getpid, trap_kernel_handler, finish_syscall}
use cs58_yalnix.Traps.Guards.{answered, trap_kernel_handler-refuses, trap_kernel_handler-getpid}
use cs58_yalnix.Tests.Sample.{machine, process, user_context, lock_of, line, page, hw}

abbrev pub plain_machine : Kernel
plain_machine = machine running (lock_of unlocked [] (pos 0))

init_page_tables-IsLaidOut_example :
    Returns
      (λ _ k'.
        ((i : ℕ) → i < 128 → IsLaidOut hw 10 i (k'.region_0_pages i))
        × ((table : ℕ → Pte) × (k'.page_tables 7000 ≡ some table)
            × ((i : ℕ) → i < 128 → (table i).valid ≡ false)))
      (init_page_tables 7000 (λ _. page) plain_machine)
init_page_tables-IsLaidOut_example =
    init_page_tables-IsLaidOut plain_machine 7000 (λ _. page) (omega arith) (omega arith)
      (omega arith)

-- The region 0 page table as it is laid out at boot.
abbrev pub booting_machine : Kernel
booting_machine = record plain_machine {
  region_0_pages = λ i. entry_of hw (region_of_page hw 10 i) i page;
}

init_free_frame_queue-unmapped_example :
    Returns
      (λ _ k'.
        (k'.region_0_pages ≡ booting_machine.region_0_pages)
        × ((fs : List ℕ) × (k'.free_frame_queue.items ≡ [] ++ fs)
            × Rising 0 512 fs
            × All
                (λ f.
                  (i : ℕ)
                  → i < 128
                  → (booting_machine.region_0_pages i).valid ≡ true
                  → (booting_machine.region_0_pages i).pfn ≢ f)
                fs))
      (init_free_frame_queue 512 booting_machine)
init_free_frame_queue-unmapped_example =
    init_free_frame_queue-unmapped booting_machine 512 (omega arith) (λ i inside.
      entry-IsLaidOut hw 10 i page (omega arith) (omega arith) (omega arith) (omega arith) inside)

shrink_heap_pages-unmaps_example :
    Returns
      (λ rc k'.
        (rc ≡ pos 0 → (j : ℕ) → 40 < j → j ≤ 45 → (k'.region_0_pages j).valid ≡ false)
        × ((j : ℕ) → (j ≤ 40) ⊎ (45 < j) → k'.region_0_pages j ≡ page))
      (shrink_heap_pages 45 40 plain_machine)
shrink_heap_pages-unmaps_example =
    shrink_heap_pages-unmaps plain_machine 45 40 (omega arith) (omega arith)

-- No page is mapped, and three frames are free.
abbrev unmapped : ℕ → Pte
unmapped i = record page { valid = false }

abbrev frugal_machine : Kernel
frugal_machine = record plain_machine {
  page_tables = λ _. some unmapped;
  free_frame_queue = line (50 ∷ 51 ∷ 52 ∷ []) (pos 3);
}

-- The kernel's heap is not mapped either.
abbrev bare_machine : Kernel
bare_machine = record frugal_machine { region_0_pages = unmapped }

expand_heap_pages-maps_example :
    Returns
      (λ rc k'.
        ((rc ==ℤ error) ≡ false → (j : ℕ) → 40 ≤ j → j < 43 → (k'.region_0_pages j).valid ≡ true)
        × ((j : ℕ) → (false ≡ true) ⊎ ((j < 40) ⊎ (43 ≤ j)) → k'.region_0_pages j ≡ unmapped j))
      (expand_heap_pages (pos 0) 41 43 bare_machine)
expand_heap_pages-maps_example =
    expand_heap_pages-maps (pos 0) bare_machine 40 43 (omega arith) (omega arith)

set_kernel_brk-BrkSet_example :
    Returns (BrkSet plain_machine 43) (set_kernel_brk (pos 0) 352256 plain_machine)
set_kernel_brk-BrkSet_example =
    set_kernel_brk-BrkSet (pos 0) plain_machine 352256 (omega arith) (omega arith) (omega arith)
      λ j low high. refl

-- The parent maps its second page.
abbrev pub parent : ℕ → Pte
parent i = if i == 1 then page else unmapped i

abbrev pub forking_machine : Kernel
forking_machine = record frugal_machine {
  page_tables = λ t. if 6000 == t then some unmapped else some parent;
}

copy_pages-Copied_example :
    Returns
      (Copied hw parent (λ a. a) 5000 6000 5000 0 128 unmapped (λ a. a) (50 ∷ 51 ∷ 52 ∷ []))
      (copy_pages 5000 6000 0 128 forking_machine)
copy_pages-Copied_example =
    copy_pages-Copied hw parent (λ a. a) 5000 6000 5000 refl refl 128 0 forking_machine unmapped
      (record {
        machine = refl;
        maps = refl;
        table = refl;
        source = refl;
        bytes = refl;
        unmapped = λ j low high. refl;
        fits = omega arith;
      })

-- System calls by number, as this machine knows them.
abbrev calls : ℤ → Option Syscall
calls (pos n) = if n == 4 then some wait else if n == 5 then some getpid else none
calls _ = none

abbrev asking : ℕ → UserContext
asking n = record user_context { code = pos n; regs = λ i. 64 }

trap_kernel_handler-refuses_example :
    Returns
      (λ rc k1.
        (rc ≡ returned error)
        × Returns
            (λ back k2.
              (back ≡ some (answered (asking 4) error))
              × (k2.pcbs 100
                  ≡ some (record (process (pos 1) running) {
                    usr_ctx = some (answered (asking 4) error);
                  }))
              × ((q : ℕ) → (100 == q) ≡ false → k2.pcbs q ≡ plain_machine.pcbs q)
              × (k2 ≡ record plain_machine { pcbs = k2.pcbs }))
            (finish_syscall error k1))
      (trap_kernel_handler calls (λ _ _. pure (pos 0)) (pure (pos 0)) (asking 4) plain_machine)
trap_kernel_handler-refuses_example =
    trap_kernel_handler-refuses plain_machine 100 (process (pos 1) running) user_context (asking 4)
      (record { current = refl; block = refl }) refl calls (λ _ _. pure (pos 0)) (pure (pos 0))
      (inl refl) refl

trap_kernel_handler-getpid_example :
    Returns
      (λ rc k1.
        (rc ≡ returned (pos 1))
        × Returns (λ back _. back ≡ some (answered (asking 5) (pos 1))) (finish_syscall (pos 1) k1))
      (trap_kernel_handler calls (λ _ _. pure (pos 0)) (pure (pos 0)) (asking 5) plain_machine)
trap_kernel_handler-getpid_example =
    trap_kernel_handler-getpid plain_machine 100 (process (pos 1) running) user_context (asking 5)
      (record { current = refl; block = refl }) refl calls (λ _ _. pure (pos 0)) (pure (pos 0)) refl
