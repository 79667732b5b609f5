-- ===== src/Start/Memory.antt =====
-- The memory that `KernelStart` sets up.
use cs58_yalnix.Base.{ℕ, ◌+◌, ◌≤◌, ◌<◌, ◌≡◌, refl, false, true, some}
use cs58_yalnix.Kernel.{Kernel, Pte, ok, update}
use cs58_yalnix.Queue
use cs58_yalnix.Queue.{Queue}
use cs58_yalnix.Ipc.{new_queue}
use cs58_yalnix.Vm.Boot.{stack_base}
use cs58_yalnix.Vm.Boot.Layout.{init_page_tables_lem}
use cs58_yalnix.Vm.Boot.FreeFrames.{free_from, init_free_frame_queue_lem}
use cs58_yalnix.Vm.Fork.Windows.{AllLaidOut}
use cs58_yalnix.Start.{NewTable, start_memory}

-- The kernel with these pages and tables.
abbrev pub with_memory : Kernel → NewTable → (pages table : ℕ → Pte) → Queue ℕ → Kernel
with_memory k region_1 pages table frames = record k {
  mem = λ _. true;
  virtual_mem_enabled = true;
  region_0_pages = pages;
  page_tables = update k.page_tables region_1.at (some table);
  ptbr1 = some region_1.at;
  free_frame_queue = frames;
}

pub start_memory_lem :
    (k : Kernel) (region_1 : NewTable) (num_frames : ℕ)
    → k.hardware.first_kernel_text_page ≤ k.hardware.first_kernel_data_page
    → k.hardware.first_kernel_data_page ≤ k.hardware.orig_kernel_brk_page + k.kernel_brk_offset
    → k.hardware.first_kernel_data_page ≤ stack_base k.hardware
    → (pages table : ℕ → Pte) × (frames : Queue ℕ) × (start_memory region_1 num_frames
          (record k { mem = λ _. true })
        ≡ ok tt (with_memory k region_1 pages table frames))
      × AllLaidOut k.hardware k.kernel_brk_offset pages
      × ((j : ℕ) → j < k.hardware.num_pages → (table j).valid ≡ false)
      × (frames.items ≡ free_from k.hardware k.kernel_brk_offset 0 num_frames)
unfolding start_memory new_queue Queue.new
start_memory_lem k region_1 num_frames text heap below =
    let k1 : Kernel = record k { mem = λ _. true; virtual_mem_enabled = false } in
    let (pages, table, run, laid, unmapped) =
      init_page_tables_lem k1 region_1.at region_1.entries text heap below in
    let k2 : Kernel = record k1 {
      region_0_pages = pages;
      page_tables = update k.page_tables region_1.at (some table);
      ptbr1 = some region_1.at;
      free_frame_queue = Queue.empty;
    } in
    let (frames, run', items) = init_free_frame_queue_lem num_frames k2 in
    (pages, table, frames, rw run (rw run' refl), laid, unmapped, items)
