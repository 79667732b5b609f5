-- ===== src/Loader/Program/Loads.antt =====
-- What a successful `LoadProgram` makes of a process.
use cs58_yalnix.Base.{
  ℕ, ◌≡◌, ◌≤◌, ◌<◌, refl, ap, ◌∙◌, ◌+◌, ◌*◌, true, false, Option, some, List, length, if◌then◌else◌,
  ltb, ◌==◌, ==_refl, arith,
}
use cs58_yalnix.Base.Int.{ℤ, pos}
use cs58_yalnix.Kernel.{Kernel, Pcb, Pte, UserContext}
use cs58_yalnix.Kernel.Ensures.{Returns, Returns-weaken, Returns-bind}
use cs58_yalnix.Kernel.Scheduler.Laws.{IsKernelAddress}
use cs58_yalnix.Loader.{
  ProgramFile, LoadInfo, Layout, layout, base_1, words_start, stack_pointer, assign_pages,
}
use cs58_yalnix.Loader.Fit.{ArgsFit, words_start-le}
use cs58_yalnix.Loader.Pages.{Assigned, IsEntry, triple_at, after_triples, assign_pages-Assigned}
use cs58_yalnix.Loader.Memory.Arguments.{StackOf, new_stack-StackOf}
use cs58_yalnix.Loader.Program.{replace_memory, load_program}
use cs58_yalnix.Loader.Program.Commit.{CanCommit, prepared, load_program_lem}
use cs58_yalnix.Loader.Program.Protect.{protection, protected-IsEntry}
use cs58_yalnix.Loader.Program.Replace.{Whole, replace_memory-Finished}

-- The process at `p`, with the block `v`, the context `u` and a page table of its own at `table`, can
-- be given the program: the file is one for this machine and gives all its bytes, program and
-- arguments fit into region 1, memory and frames do not run out, and no page of region 1 is mapped
-- as yet.
pub record CanLoad (k : Kernel) (argbuf : ℕ) (file : ProgramFile) (li : LoadInfo)
    (args : List (List ℕ)) (p : ℕ) (v : Pcb) (u : UserContext) (table : ℕ) : Type 0 where
  pub known : file.info ≡ some li
  pub linked : base_1 k.hardware ≤ li.entry
  pub room :
      (layout k.hardware li args).stack_npg
        + (layout k.hardware li args).data_pg1
        + (layout k.hardware li args).data_npg
      < k.hardware.max_pt_len
  pub tables_fit : k.hardware.max_pt_len ≤ k.hardware.num_pages
  pub text_first : (layout k.hardware li args).text_pg1 ≤ (layout k.hardware li args).data_pg1
  pub args_fit : ArgsFit k.hardware args
  pub text : Whole k.hardware file li.t_faddr li.t_npg
  pub initialized : Whole k.hardware file li.id_faddr li.id_npg
  pub memory : (n : ℕ) → k.mem n ≡ true
  pub buffer : IsKernelAddress k.hardware k.region_0_pages argbuf
  pub frames : 3 * k.hardware.num_pages ≤ length k.free_frame_queue.items
  pub block : k.pcbs p ≡ some v
  pub context : v.usr_ctx ≡ some u
  pub own_table : v.page_table ≡ some table
  pub own_entries : ℕ → Pte
  pub own_entries_at : k.page_tables table ≡ some own_entries
  pub cur : ℕ
  pub before : ℕ → Pte
  pub register : k.ptbr1 ≡ some cur
  pub before_at : k.page_tables cur ≡ some before
  pub unmapped : (j : ℕ) → j < k.hardware.num_pages → (before j).valid ≡ false

-- The process is the program: its context begins at the entry point with the stack pointer under the
-- arguments, which are there to be read; its pages are mapped, with frames of the free frame queue
-- and with these protections; other blocks are as they were.
pub record Loaded (k : Kernel) (li : LoadInfo) (args : List (List ℕ)) (p table : ℕ)
    (u : UserContext) (k' : Kernel) : Type 0 where
  pub block : Pcb
  pub block_at : k'.pcbs p ≡ some block
  pub starts : block.usr_ctx ≡ some (record u { sp = stack_pointer k.hardware args; pc = li.entry })
  pub has_table : block.page_table ≡ some table
  pub register : k'.ptbr1 ≡ some table
  pub pages : ℕ → Pte
  pub pages_at : k'.page_tables table ≡ some pages
  pub entries :
      (j : ℕ)
      → j < k.hardware.num_pages
      → IsEntry k.hardware
          (layout k.hardware li args)
          j
          (protection k.hardware (layout k.hardware li args) j)
          (triple_at k.free_frame_queue.items j)
          (pages j)
  pub arguments : StackOf (k'.user_mem table) (words_start k.hardware args) args
  pub left : k'.free_frame_queue.items ≡ after_triples k.hardware.num_pages k.free_frame_queue.items
  pub others : (q : ℕ) → (p == q) ≡ false → k'.pcbs q ≡ k.pcbs q

module _ (argbuf : ℕ) (fresh : ℕ → Pte) (stale : ℕ → ℕ) (kill : ℤ) (k : Kernel) (file : ProgramFile)
    (li : LoadInfo) (args : List (List ℕ)) (p : ℕ) (v : Pcb) (u : UserContext) (table : ℕ)
    (c : CanLoad k argbuf file li args p v u table) where
  abbrev lay : Layout
  lay = layout k.hardware li args

  abbrev can_commit : CanCommit k argbuf file li args p v u
  can_commit = record {
    known = c.known;
    linked = c.linked;
    room = c.room;
    memory = c.memory;
    buffer = c.buffer;
    frames = c.frames;
    block = c.block;
    context = c.context;
  }

  abbrev with_sp : Pcb
  with_sp = record v { usr_ctx = some (record u { sp = lay.sp }) }

  -- The end of the run, from the frames that were assigned.
  finished_Loaded :
      (r : Option (ℕ → Pte)) (k1 : Kernel)
      → Assigned
          (prepared k lay p v u)
          lay
          0
          k.hardware.num_pages
          k.free_frame_queue.items
          fresh
          r
          k1
      → Returns
          (λ rc k'. (rc ≡ pos 0) × Loaded k li args p table u k')
          (replace_memory argbuf fresh stale kill file li lay args p r k1)
  finished_Loaded r k1 s =
      let (after, q, r_eq, k_eq, left, pages, before) = s in
      let room = c.room in
      let fit = c.tables_fit in
      let first = c.text_first in
      let k2 : Kernel = record (prepared k lay p v u) { free_frame_queue = q } in
      rw (r_eq, k_eq)
        (Returns-weaken _ _
          (replace_memory argbuf fresh stale kill file li lay args p (some after) k2)
          (replace_memory-Finished argbuf fresh stale kill file li lay args p table with_sp
            (record u { sp = lay.sp }) after c.own_entries c.cur c.before k2 (rw (==_refl p) refl)
            refl c.own_table c.own_entries_at c.register c.before_at c.unmapped (omega arith)
            (omega arith) c.text c.initialized)
          λ rc k' d. (
            d.0,
            record {
              block = _;
              block_at = d.1.block;
              starts = refl;
              has_table = c.own_table;
              register = d.1.register;
              pages = d.1.after;
              pages_at = d.1.after_at;
              entries = λ j inside.
                  let exists : ltb j k.hardware.num_pages ≡ true = ground arith in
                  let e : 0 + j ≡ j = omega arith in
                  let page = rw e at (pages j inside) in
                  rw (d.1.pages j) (
                    protected-IsEntry k.hardware lay j (triple_at k.free_frame_queue.items j)
                      (λ i. if ltb i k.hardware.num_pages then after i else c.own_entries i) first
                      (rw exists page));
              arguments = rw (d.1.stack) (
                  new_stack-StackOf k.hardware lay.cpp lay.cp args d.1.bytes
                    (words_start-le k.hardware args c.args_fit) (omega arith));
              left = ap (λ q'. q'.items) d.1.free_kept ∙ left;
              others = λ q' apart. d.1.others q' apart ∙ rw apart refl;
            },
          ))

  -- Where the file is one for this machine and gives all its bytes, program and arguments fit into
  -- region 1, memory and frames do not run out, and no page of region 1 is mapped as yet,
  -- `LoadProgram` returns 0. The process's context then begins at the program's entry point, with
  -- the stack pointer below the arguments: the stack holds the number of arguments, a pointer to
  -- each, which leads to its bytes with a NUL after them, and the two NULL pointers. Of the pages
  -- of its table, now in the register, those up to the end of the data and those of the stack are
  -- mapped and no others, the text without write permission, each to one of three frames that it
  -- alone took off the free frame queue; the other two are gone from the queue as well. No other
  -- block is changed.
  pub load_program-loads :
      Returns
        (λ rc k'. (rc ≡ pos 0) × Loaded k li args p table u k')
        (load_program argbuf fresh stale kill (some file) args (some p) k)
  load_program-loads =
      rw (load_program_lem argbuf fresh stale kill k file li args p v u can_commit) (
        Returns-bind
          (Assigned (prepared k lay p v u) lay 0 k.hardware.num_pages k.free_frame_queue.items
            fresh)
          _ (assign_pages lay 0 k.hardware.num_pages fresh (prepared k lay p v u)) _
          (assign_pages-Assigned lay k.hardware.num_pages 0 k.free_frame_queue.items fresh
            (prepared k lay p v u) refl c.frames)
          finished_Loaded)
