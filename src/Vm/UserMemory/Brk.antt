-- ===== src/Vm/UserMemory/Brk.antt =====
-- `BrkHandler` with an address above the break.
use cs58_yalnix.Base.{ℕ, ◌+◌, ◌-◌, ◌*◌, ◌≡◌, ◌⊎◌, true, some, List, [], ◌++◌, All}
use mathlib.Core.List.{Perm}
use cs58_yalnix.Base.Int.{ℤ, pos}
use cs58_yalnix.Kernel.{Kernel, Pcb, Pte, UserContext}
use cs58_yalnix.Ipc.{error}
use cs58_yalnix.Vm.{up_to_page, down_to_page}
use cs58_yalnix.Vm.UserMemory.{pages_up}
use cs58_yalnix.Vm.UserMemory.Frames.{frames_of}

module _ (k : Kernel) (p : ℕ) (v : Pcb) (u : UserContext) (table : ℕ) (before : ℕ → Pte)
    (addr : ℕ) where
  abbrev first : ℕ
  first = down_to_page k.hardware v.current_brk - k.hardware.num_pages - 1

  abbrev last : ℕ
  last = down_to_page k.hardware addr - k.hardware.num_pages

  -- The pages from the one below the old break to that of the new one.
  abbrev pub heap_pages : List ℕ
  heap_pages = pages_up first (last + 1 - first)

  -- What it leaves of the caller's page table and block.
  abbrev pub Raised : ℤ → Kernel → Type 0
  Raised rc k' =
      (after : ℕ → Pte) × (k'.page_tables table ≡ some after)
      × Perm (frames_of after 0 k.hardware.num_pages ++ k'.free_frame_queue.items)
          (frames_of before 0 k.hardware.num_pages ++ k.free_frame_queue.items)
      × ((j : ℕ) → (before j).valid ≡ true → after j ≡ before j)
      × ((rc ≡ pos 0)
            × All (λ i. (after i).valid ≡ true) heap_pages
            × ((v' : Pcb) × (k'.pcbs p ≡ some v')
                × (v'.current_brk ≡ up_to_page k.hardware addr * k.hardware.page_size))
          ⊎ (rc ≡ error) × (k'.free_frame_queue.items ≡ []))
