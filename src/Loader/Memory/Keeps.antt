-- ===== src/Loader/Memory/Keeps.antt =====
-- What `LoadProgram`'s changes of the memory of a process leave alone.
use cs58_yalnix.Base.{ℕ, zero, suc, ◌≡◌, ◌+◌, some, if◌then◌else◌}
use cs58_yalnix.Kernel.{Kernel, Pcb, Pte, ok, pure, gets, store, malloc, update, push_free_frame}
use cs58_yalnix.Kernel.Preserves.{
  Preserves, Preserves-bind, Preserves-then, Preserves-if, Preserves-pure, Preserves-gets,
  structure,
}
use cs58_yalnix.Kernel.Memory.Reads.{check_memory_validity-reads}
use cs58_yalnix.Vm.{pop_free_frame}
use cs58_yalnix.Vm.UserMemory.{entry_at, put_entry}
use cs58_yalnix.Loader.{ProgramFile}
use cs58_yalnix.Loader.Memory.{
  change_bytes, release_number, free_page_frame, free_old_pages, install_table, read_segment,
  protect_text,
}

module _ (k0 : Kernel) where
  -- The same machine, processes of the kernel's own, sets, objects and page table of region 0.
  abbrev pub Kept : Kernel → Type 0
  Kept k =
      (k.hardware ≡ k0.hardware)
      × (k.kernel_brk_offset ≡ k0.kernel_brk_offset)
      × (k.idle_process ≡ k0.idle_process)
      × (k.init_process ≡ k0.init_process)
      × (k.process_ready_queue ≡ k0.process_ready_queue)
      × (k.blocked_pcbs ≡ k0.blocked_pcbs)
      × (k.dead_pcbs ≡ k0.dead_pcbs)
      × (k.delayed_pcbs ≡ k0.delayed_pcbs)
      × (k.ipc_wrapper ≡ k0.ipc_wrapper)
      × (k.region_0_pages ≡ k0.region_0_pages)

  pub store-Kept : (p : ℕ) (v : Pcb) → Preserves Kept (store p v)
  store-Kept p v = record { keeps = λ k c. c }

  pub malloc-Kept : Preserves Kept malloc
  unfolding malloc
  malloc-Kept = record { keeps = λ k c. c }

  pub pop_free_frame-Kept : Preserves Kept pop_free_frame
  unfolding pop_free_frame
  pop_free_frame-Kept = record { keeps = λ k c. c }

  push_free_frame-Kept : (f : ℕ) → Preserves Kept (push_free_frame f)
  unfolding push_free_frame
  push_free_frame-Kept f = record { keeps = λ k c. c }

  pub change_bytes-Kept : (f : (ℕ → ℕ) → ℕ → ℕ) → Preserves Kept (change_bytes f)
  unfolding change_bytes
  change_bytes-Kept f = search structure depth 20

  entry_at-Kept : (table i : ℕ) → Preserves Kept (entry_at table i)
  unfolding entry_at
  entry_at-Kept table i = search structure depth 20

  entries-Kept :
      (table : ℕ) (entries : ℕ → Pte)
      → Preserves Kept
          (λ k. ok tt (record k { page_tables = update k.page_tables table (some entries) }))
  entries-Kept table entries = record { keeps = λ k c. c }

  put_entry-Kept : (table i : ℕ) (e : Pte) → Preserves Kept (put_entry table i e)
  unfolding put_entry
  put_entry-Kept table i e = search (structure, entries-Kept) depth 20

  release_number-Kept : (f : ℕ) → Preserves Kept (release_number f)
  unfolding release_number
  release_number-Kept f = search (structure, malloc-Kept, push_free_frame-Kept) depth 20

  free_page_frame-Kept : (page : ℕ) → Preserves Kept (free_page_frame page)
  unfolding free_page_frame
  free_page_frame-Kept page =
      search
        (
          structure, check_memory_validity-reads, change_bytes-Kept, entry_at-Kept, put_entry-Kept,
          release_number-Kept,
        )
        depth 40

  pub free_old_pages-Kept : (table n i : ℕ) → Preserves Kept (free_old_pages table i n)
  unfolding free_old_pages
  free_old_pages-Kept table zero i = search structure
  free_old_pages-Kept table (suc n) i =
      let later = free_old_pages-Kept table n (i + 1) in
      Preserves-bind Kept (entry_at table i) _ (entry_at-Kept table i) λ e.
        Preserves-then Kept (if e.valid then free_page_frame i else pure tt) _
          (Preserves-if Kept e.valid (free_page_frame i) (pure tt) (free_page_frame-Kept i)
            (Preserves-pure Kept tt))
          later

  pub install_table-Kept :
      (table : ℕ) (entries : ℕ → Pte) (stale : ℕ → ℕ)
      → Preserves Kept (install_table table entries stale)
  unfolding install_table
  install_table-Kept table entries stale = search structure depth 20

  pub read_segment-Kept :
      (file : ProgramFile) (offset npg vaddr : ℕ)
      → Preserves Kept (read_segment file offset npg vaddr)
  unfolding read_segment
  read_segment-Kept file offset npg vaddr = search (structure, change_bytes-Kept) depth 20

  pub protect_text-Kept : (table n i : ℕ) → Preserves Kept (protect_text table i n)
  unfolding protect_text
  protect_text-Kept table zero i = search structure
  protect_text-Kept table (suc n) i =
      let later = protect_text-Kept table n (i + 1) in
      Preserves-bind Kept (gets (λ k. k.hardware)) _ (Preserves-gets Kept (λ k. k.hardware)) λ hw.
        Preserves-bind Kept (entry_at table i) _ (entry_at-Kept table i) λ e.
          Preserves-then Kept
            (if e.valid then put_entry table i (record e { prot = hw.prot_read_exec }) else pure tt)
            _
            (Preserves-if Kept e.valid (put_entry table i (record e { prot = hw.prot_read_exec }))
              (pure tt) (put_entry-Kept table i _) (Preserves-pure Kept tt))
            later

-- A kernel that is kept, by its other fields.
abbrev pub with_kept : (k0 kl : Kernel) → Kernel
with_kept k0 kl = record k0 {
  mem = kl.mem;
  junk = kl.junk;
  pcbs = kl.pcbs;
  current_process = kl.current_process;
  free_frame_queue = kl.free_frame_queue;
  tty_state = kl.tty_state;
  transmitted = kl.transmitted;
  virtual_mem_enabled = kl.virtual_mem_enabled;
  page_tables = kl.page_tables;
  ptbr1 = kl.ptbr1;
  user_mem = kl.user_mem;
}

pub with_kept_lem : (k0 kl : Kernel) → Kept k0 kl → kl ≡ with_kept k0 kl
with_kept_lem k0 kl (hw, brk, idle, init, ready, blocked, dead, delayed, wrapper, region) = λ i.
    record kl {
      hardware = hw i;
      kernel_brk_offset = brk i;
      idle_process = idle i;
      init_process = init i;
      process_ready_queue = ready i;
      blocked_pcbs = blocked i;
      dead_pcbs = dead i;
      delayed_pcbs = delayed i;
      ipc_wrapper = wrapper i;
      region_0_pages = region i;
    }
