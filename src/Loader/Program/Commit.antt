-- ===== src/Loader/Program/Commit.antt =====
-- The first part of `LoadProgram`, up to the assignment of frames.
use cs58_yalnix.Base.{
  ℕ, ◌≡◌, ◌≤◌, ◌<◌, refl, ◌∙◌, ◌+◌, ◌*◌, true, false, some, List, length, ltb, leb, ==_refl, arith,
}
use cs58_yalnix.Base.Int.{ℤ}
use cs58_yalnix.Base.Alloc.{rest}
use cs58_yalnix.Kernel.{
  Kernel, Pcb, Pte, UserContext, M, Res, ok, fault, halt, update, bind_res, malloc,
}
use cs58_yalnix.Kernel.Ensures.{Returns}
use cs58_yalnix.Kernel.Scheduler.Laws.{IsKernelAddress, IsKernelAddress-valid}
use cs58_yalnix.Loader.{ProgramFile, LoadInfo, Layout, layout, base_1, assign_pages}
use cs58_yalnix.Loader.Memory.Faults.{free_old_pages-fault}
use cs58_yalnix.Loader.Pages.{Assigned, assign_pages-Assigned}
use cs58_yalnix.Loader.Program.{
  set_sp, set_brk, replace_memory, commit, check_program, load_program,
}

-- The checks of `LoadProgram` succeed for the process at `p`, with the block `v` and the context `u`,
-- and memory and frames do not run out.
pub record CanCommit (k : Kernel) (argbuf : ℕ) (file : ProgramFile) (li : LoadInfo)
    (args : List (List ℕ)) (p : ℕ) (v : Pcb) (u : UserContext) : Type 0 where
  pub known : file.info ≡ some li
  pub linked : base_1 k.hardware ≤ li.entry
  pub room :
      (layout k.hardware li args).stack_npg
        + (layout k.hardware li args).data_pg1
        + (layout k.hardware li args).data_npg
      < k.hardware.max_pt_len
  pub memory : (n : ℕ) → k.mem n ≡ true
  pub buffer : IsKernelAddress k.hardware k.region_0_pages argbuf
  pub frames : 3 * k.hardware.num_pages ≤ length k.free_frame_queue.items
  pub block : k.pcbs p ≡ some v
  pub context : v.usr_ctx ≡ some u

-- The kernel when the frames are assigned: the block has its stack pointer.
abbrev pub prepared : Kernel → Layout → ℕ → Pcb → UserContext → Kernel
prepared k lay p v u = record k {
  pcbs = update k.pcbs p (some (record v { usr_ctx = some (record u { sp = lay.sp }) }));
  mem = rest (rest k.mem);
}

-- A run that comes to a fault after its first part.
fault-bind :
    {A B : Type 0} (P : A → Kernel → Type 0) (r : Res A) (f : A → M B)
    → Returns P r
    → ((a : A) (k : Kernel) → P a k → f a k ≡ fault)
    → bind_res r f ≡ fault
fault-bind P (ok a k) f h next = next a k h
fault-bind P fault f h next = refl
fault-bind P halt f h next = absurd h

module _ (argbuf : ℕ) (fresh : ℕ → Pte) (stale : ℕ → ℕ) (kill : ℤ) (k : Kernel) (file : ProgramFile)
    (li : LoadInfo) (args : List (List ℕ)) (p : ℕ) (v : Pcb) (u : UserContext)
    (c : CanCommit k argbuf file li args p v u) where
  abbrev lay : Layout
  lay = layout k.hardware li args

  checked_lem :
      load_program argbuf fresh stale kill (some file) args (some p) k
      ≡ commit argbuf fresh stale kill file li lay args (some p) k
  unfolding load_program check_program
  checked_lem =
      let linked = c.linked in
      let room = c.room in
      let e : ltb li.entry (base_1 k.hardware) ≡ false = ground arith in
      let e' : leb k.hardware.max_pt_len (lay.stack_npg + lay.data_pg1 + lay.data_npg) ≡ false =
        ground arith in
      rw c.known (rw (e, e') refl)

  commit_lem :
      commit argbuf fresh stale kill file li lay args (some p) k
      ≡ bind_res
          (assign_pages lay 0 k.hardware.num_pages fresh (prepared k lay p v u))
          (replace_memory argbuf fresh stale kill file li lay args p)
  unfolding commit set_sp malloc
  commit_lem =
      let with_sp = record v { usr_ctx = some (record u { sp = lay.sp }) } in
      let k1 : Kernel = record k { pcbs = update k.pcbs p (some with_sp); mem = rest k.mem } in
      rw c.block (
        rw c.context
          (rw (c.memory 0) (rw (IsKernelAddress-valid k1 argbuf c.buffer) (rw (c.memory 1) refl))))

  -- What is left of `LoadProgram` once its checks have succeeded.
  pub load_program_lem :
      load_program argbuf fresh stale kill (some file) args (some p) k
      ≡ bind_res
          (assign_pages lay 0 k.hardware.num_pages fresh (prepared k lay p v u))
          (replace_memory argbuf fresh stale kill file li lay args p)
  load_program_lem = checked_lem ∙ commit_lem

  -- The old memory is given back from its first page on, which `free_page_frame` cannot do.
  pub load_program-fault :
      (cur : ℕ) (entries : ℕ → Pte)
      → k.ptbr1 ≡ some cur
      → k.page_tables cur ≡ some entries
      → (entries 0).valid ≡ true
      → 0 < k.hardware.page_size
      → 0 < k.hardware.num_pages
      → load_program argbuf fresh stale kill (some file) args (some p) k ≡ fault
  unfolding replace_memory set_brk
  load_program-fault cur entries register at mapped positive pages =
      let items = k.free_frame_queue.items in
      load_program_lem
      ∙ fault-bind (Assigned (prepared k lay p v u) lay 0 k.hardware.num_pages items fresh)
          (assign_pages lay 0 k.hardware.num_pages fresh (prepared k lay p v u))
          (replace_memory argbuf fresh stale kill file li lay args p)
          (assign_pages-Assigned lay k.hardware.num_pages 0 items fresh (prepared k lay p v u) refl
            c.frames)
          λ r k1 s.
            let (after, q, r_eq, k_eq, left, given, before) = s in
            let with_sp : Pcb = record v { usr_ctx = some (record u { sp = lay.sp }) } in
            let with_brk = record with_sp {
              current_brk =
                  (lay.data_pg1 + lay.data_npg + 1) * k.hardware.page_size + base_1 k.hardware;
            } in
            let k2 : Kernel = record (prepared k lay p v u) {
              free_frame_queue = q;
              pcbs = update (update k.pcbs p (some with_sp)) p (some with_brk);
              ptbr1 = some cur;
            } in
            let lost =
              free_old_pages-fault k2 cur entries k.hardware.num_pages positive pages at mapped
                pages in
            rw (r_eq, k_eq) (rw (==_refl p) (rw register (rw lost refl)))
