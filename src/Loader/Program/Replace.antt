-- ===== src/Loader/Program/Replace.antt =====
-- The middle part of `LoadProgram`: the new page table replaces the old one, and the file is read.
use cs58_yalnix.Base.{
  ℕ, zero, suc, ◌≡◌, ◌≤◌, ◌<◌, refl, ◌+◌, ◌*◌, ◌%◌, ◌^◌, true, false, some, List, if◌then◌else◌,
  ltb, ==_refl, arith,
}
use cs58_yalnix.Base.Int.{ℤ, pos, ◌==ℤ◌}
use cs58_yalnix.Kernel.{Hardware, Kernel, Pcb, Pte, UserContext, ok, update}
use cs58_yalnix.Kernel.Ensures.{Returns}
use cs58_yalnix.Vm.UserMemory.Frames.{entry_at_lem}
use cs58_yalnix.Loader.{ProgramFile, LoadInfo, Layout, base_1}
use cs58_yalnix.Loader.Memory.{with_bytes, read_count, read_segment, free_old_pages, install_table}
use cs58_yalnix.Loader.Program.{set_brk, read_program, replace_memory}
use cs58_yalnix.Loader.Program.Finish.{
  OnTable, Finished, FinishedFrom, change_bytes_lem, finish_program-Finished,
}

-- The file gives all bytes of this segment.
abbrev pub Whole : Hardware → ProgramFile → (offset npg : ℕ) → Type 0
Whole hw file offset npg =
    ((file.read offset (npg * hw.page_size % 2 ^ 32)).0 ==ℤ pos (npg * hw.page_size % 2 ^ 32))
    ≡ true

read_segment_lem :
    (file : ProgramFile) (offset npg vaddr : ℕ) (k : Kernel) (table : ℕ)
    → k.ptbr1 ≡ some table
    → Whole k.hardware file offset npg
    → (mem : ℕ → ℕ → ℕ) × (read_segment file offset npg vaddr k
        ≡ ok true (record k { user_mem = mem }))
unfolding read_segment
read_segment_lem file offset npg vaddr k table register whole =
    let size = npg * k.hardware.page_size % 2 ^ 32 in
    let result = file.read offset size in
    let change = with_bytes vaddr (read_count (result.0)) (result.1) in
    (
      update k.user_mem table (change (k.user_mem table)),
      rw (change_bytes_lem change k table register) (rw whole refl),
    )

-- No page of the old memory is mapped.
free_old_pages-none :
    (table n i : ℕ) (entries : ℕ → Pte) (k : Kernel)
    → k.page_tables table ≡ some entries
    → ((j : ℕ) → j < k.hardware.num_pages → (entries j).valid ≡ false)
    → i + n ≤ k.hardware.num_pages
    → free_old_pages table i n k ≡ ok tt k
unfolding free_old_pages
free_old_pages-none table zero i entries k e unmapped inside = refl
free_old_pages-none table (suc n) i entries k e unmapped inside =
    let exists : ltb i k.hardware.num_pages ≡ true = ground arith in
    rw (entry_at_lem k table entries e i exists, unmapped i (omega arith))
      (free_old_pages-none table n (i + 1) entries k e unmapped (omega arith))

-- What the process is once it has its break.
abbrev pub with_brk : Layout → Hardware → Pcb → Pcb
with_brk lay hw v = record v {
  current_brk = (lay.data_pg1 + lay.data_npg + 1) * hw.page_size + base_1 hw;
}

module _ (argbuf : ℕ) (fresh : ℕ → Pte) (stale : ℕ → ℕ) (kill : ℤ) (file : ProgramFile)
    (li : LoadInfo) (lay : Layout) (args : List (List ℕ)) (p table : ℕ) where
  read_program-Finished :
      (w : Pcb) (u : UserContext) (entries : ℕ → Pte) (k : Kernel)
      → OnTable k p table w u entries
      → lay.data_pg1 ≤ k.hardware.num_pages
      → lay.text_pg1 ≤ k.hardware.num_pages
      → Whole k.hardware file li.t_faddr li.t_npg
      → Whole k.hardware file li.id_faddr li.id_npg
      → Returns
          (λ rc k'. (rc ≡ pos 0) × FinishedFrom k li lay args p table w u entries k')
          (read_program argbuf fresh stale kill file li lay args p k)
  unfolding read_program
  read_program-Finished w u entries k o fits fits' text initialized =
      let (mem, read) =
        read_segment_lem file li.t_faddr li.t_npg li.t_vaddr k table o.register text in
      let k1 : Kernel = record k { user_mem = mem } in
      let (mem', read') =
        read_segment_lem file li.id_faddr li.id_npg li.id_vaddr k1 table o.register initialized in
      let o' : OnTable (record k1 { user_mem = mem' }) p table w u entries = record {
        block = o.block;
        context = o.context;
        own_table = o.own_table;
        entries_at = o.entries_at;
        register = o.register;
      } in
      rw (read, read')
        (finish_program-Finished li lay args p table w u entries (record k1 { user_mem = mem' }) o'
          fits fits')

  pub replace_memory-Finished :
      (v : Pcb) (u : UserContext) (entries old : ℕ → Pte) (cur : ℕ) (before : ℕ → Pte) (k : Kernel)
      → k.pcbs p ≡ some v
      → v.usr_ctx ≡ some u
      → v.page_table ≡ some table
      → k.page_tables table ≡ some old
      → k.ptbr1 ≡ some cur
      → k.page_tables cur ≡ some before
      → ((j : ℕ) → j < k.hardware.num_pages → (before j).valid ≡ false)
      → lay.data_pg1 ≤ k.hardware.num_pages
      → lay.text_pg1 ≤ k.hardware.num_pages
      → Whole k.hardware file li.t_faddr li.t_npg
      → Whole k.hardware file li.id_faddr li.id_npg
      → Returns
          (λ rc k'.
            (rc ≡ pos 0)
            × Finished k.hardware
                (update k.pcbs p (some (with_brk lay k.hardware v)))
                k.free_frame_queue
                li
                lay
                args
                p
                table
                (with_brk lay k.hardware v)
                u
                (λ i. if ltb i k.hardware.num_pages then entries i else old i)
                k')
          (replace_memory argbuf fresh stale kill file li lay args p (some entries) k)
  unfolding replace_memory set_brk install_table
  replace_memory-Finished v u entries old cur before k block context own at register cur_at unmapped
        fits fits' text initialized =
      let k1 : Kernel = record k { pcbs = update k.pcbs p (some (with_brk lay k.hardware v)) } in
      let all = λ (i : ℕ). if ltb i k.hardware.num_pages then entries i else old i in
      let k2 : Kernel = record k1 {
        page_tables = update k.page_tables table (some all);
        ptbr1 = some table;
        user_mem = update k.user_mem table stale;
      } in
      let start : replace_memory argbuf fresh stale kill file li lay args p (some entries) k
          ≡ read_program argbuf fresh stale kill file li lay args p k2 =
        rw (block, register)
          (rw
            (free_old_pages-none cur k.hardware.num_pages 0 before (record k1 { ptbr1 = some cur })
              cur_at unmapped (omega arith))
            (rw (==_refl p) (rw own (rw at refl)))) in
      let o : OnTable k2 p table (with_brk lay k.hardware v) u all = record {
        block = rw (==_refl p) refl;
        context = context;
        own_table = own;
        entries_at = rw (==_refl table) refl;
        register = refl;
      } in
      rw start
        (read_program-Finished (with_brk lay k.hardware v) u all k2 o fits fits' text initialized)
