-- ===== src/Start/Boots.antt =====
-- `KernelStart` boots the machine.
use cs58_yalnix.Base.{
  ℕ, ◌≡◌, ◌≤◌, ◌<◌, refl, sym, subst, ap, ◌∙◌, ◌+◌, ◌*◌, true, false, Option, some, List, ◌∷◌,
  length, if◌then◌else◌, ==_refl, arith,
}
use cs58_yalnix.Base.Int.{ℤ, pos, ◌==ℤ◌}
use cs58_yalnix.Base.Alloc.{Mem}
use cs58_yalnix.Kernel.{Terminal, Kernel, Pcb, Pte, UserContext, M, Res, bind_res, halt}
use cs58_yalnix.Kernel.Ensures.{Returns, Returns-bind, Returns-Ensures}
use cs58_yalnix.Kernel.Scheduler.Laws.{IsKernelAddress}
use cs58_yalnix.Queue.{Queue}
use cs58_yalnix.Ipc.Calls.{fresh_wrapper-IsValid}
use cs58_yalnix.Tty.Boot.{AllFresh, tty_state_init-Fresh}
use cs58_yalnix.Vm.{pop_free_frame}
use cs58_yalnix.Vm.Boot.FreeFrames.{free_from, free_from-length}
use cs58_yalnix.Vm.Fork.{blank}
use cs58_yalnix.Vm.Fork.Windows.{AllLaidOut, InHeap, InHeap-IsKernelAddress, kc_copy-AllLaidOut}
use cs58_yalnix.Loader.{ProgramFile, LoadInfo}
use cs58_yalnix.Loader.Memory.Keeps.{Kept, with_kept, with_kept_lem}
use cs58_yalnix.Loader.Program.{load_program}
use cs58_yalnix.Loader.Program.Keeps.{load_program-Kept}
use cs58_yalnix.Loader.Program.Loads.{CanLoad, Loaded, load_program-loads}
use cs58_yalnix.Start.{
  Given, idle_context, program_name, kernel_start, start_processes, start_user, start_idle,
}
use cs58_yalnix.Start.Memory.{with_memory, start_memory_lem}
use cs58_yalnix.Start.Processes.{
  without_processes, start_processes_lem, idle_ready, init_made, before_loading, start_idle_lem,
}
use cs58_yalnix.Start.Machine.{CanBoot, Booted, split_three, Fresh-IsUsable}

module _ (k : Kernel) (num_frames : ℕ) (given : Given) (argbuf : ℕ) (fresh : ℕ → Pte)
    (stale : ℕ → ℕ) (kill : ℤ) (files : List ℕ → Option ProgramFile) (default : List ℕ)
    (cmd_args : List (List ℕ)) (u : UserContext) (file : ProgramFile) (li : LoadInfo)
    (c : CanBoot k num_frames given argbuf file li cmd_args)
    (found : files (program_name default cmd_args) ≡ some file) where
  -- `LoadProgram` with these files.
  abbrev loading : List ℕ → List (List ℕ) → Option ℕ → M ℤ
  loading name args proc = load_program argbuf fresh stale kill (files name) args proc

  abbrev first_context : UserContext
  first_context = idle_context k.hardware given.do_idle u

  module _ (pages table : ℕ → Pte) (q : Queue ℕ) (f1 f2 f3 : ℕ) (frames : List ℕ)
      (laid : AllLaidOut k.hardware k.kernel_brk_offset pages)
      (unmapped : (j : ℕ) → j < k.hardware.num_pages → (table j).valid ≡ false)
      (all : free_from k.hardware k.kernel_brk_offset 0 num_frames ≡ f1 ∷ f2 ∷ f3 ∷ frames)
      (enough : 3 * k.hardware.num_pages ≤ length frames) where
    abbrev empty : Kernel
    empty = without_processes (with_memory k given.region_1 pages table q)

    abbrev ready_to_load : Kernel
    ready_to_load = before_loading given loading default cmd_args u q f1 f2 f3 frames empty

    abbrev init_new : Pcb
    init_new = init_made given loading default cmd_args u q f1 f2 f3 frames empty

    address :
        (addr : ℕ)
        → InHeap k.hardware k.kernel_brk_offset addr
        → IsKernelAddress k.hardware pages addr
    address addr inside =
        let room = c.room in
        InHeap-IsKernelAddress k.hardware k.kernel_brk_offset pages addr (omega arith) laid inside

    loading-CanLoad :
        CanLoad ready_to_load argbuf file li cmd_args given.init_block.at init_new first_context
          given.init_pages.at
    loading-CanLoad = record {
      known = c.known;
      linked = c.linked;
      room = c.program_room;
      tables_fit = c.tables_fit;
      text_first = c.program_text;
      args_fit = c.args_fit;
      text = c.text;
      initialized = c.initialized;
      memory = λ n. refl;
      buffer = address argbuf c.buffer;
      frames = enough;
      block = rw (==_refl given.init_block.at) refl;
      context = refl;
      own_table = refl;
      own_entries = blank k.hardware.num_pages given.init_pages.entries;
      own_entries_at = rw (==_refl given.init_pages.at) refl;
      cur = given.region_1.at;
      before = table;
      register = refl;
      before_at = rw c.init_table (rw c.idle_table (rw (==_refl given.region_1.at) refl));
      unmapped = unmapped;
    }

    loaded :
        Returns
          (λ rc k'.
            ((rc ≡ pos 0)
              × Loaded ready_to_load li cmd_args given.init_block.at given.init_pages.at
                  first_context k')
            × Kept ready_to_load k')
          (loading
            (program_name default cmd_args)
            cmd_args
            (some given.init_block.at)
            ready_to_load)
    loaded = rw found (
        Returns-Ensures _ _
          (load_program argbuf fresh stale kill (some file) cmd_args (some given.init_block.at)
            ready_to_load)
          (load_program-loads argbuf fresh stale kill ready_to_load file li cmd_args
            given.init_block.at init_new first_context given.init_pages.at loading-CanLoad)
          ((load_program-Kept ready_to_load argbuf fresh stale kill file cmd_args
              (some given.init_block.at)).keeps
            ready_to_load (refl, refl, refl, refl, refl, refl, refl, refl, refl, refl)))

    abbrev idle_new : Pcb
    idle_new = idle_ready given loading default cmd_args u q f1 f2 f3 frames empty

    -- The kernel when `KernelStart` is over, with these terminals and pages.
    abbrev over : Kernel → Mem → Option (ℕ → Terminal) → (ℕ → Pte) → Kernel
    over kl m o region = record (with_kept ready_to_load kl) {
      mem = m;
      tty_state = o;
      current_process = some given.init_block.at;
      region_0_pages = region;
    }

    over-Booted :
        (kl : Kernel) (m : Mem) (o : Option (ℕ → Terminal)) (region : ℕ → Pte)
        → (d : Loaded ready_to_load li cmd_args given.init_block.at given.init_pages.at
            first_context kl)
        → kl.pcbs given.idle_block.at ≡ some idle_new
        → AllFresh k.hardware.num_terminals o
        → AllLaidOut k.hardware k.kernel_brk_offset region
        → Booted k num_frames given li cmd_args u d.block.usr_ctx (over kl m o region)
    over-Booted kl m o region d block terminals region_laid =
        let address' = λ (a : ℕ).
          InHeap-IsKernelAddress k.hardware k.kernel_brk_offset region a (omega (arith, c.room))
            region_laid in
        record {
          context = d.starts;
          current = refl;
          idle_process = refl;
          idle_block = idle_new;
          idle_runs = record {
            block = block;
            address = address' given.idle_block.at c.idle_block;
            context = given.idle_context_at;
            has_context = refl;
            context_address = address' given.idle_context_at c.idle_context;
            stack = _;
            has_stack = refl;
          };
          init_block = d.block;
          init_at = d.block_at;
          init_table = d.has_table;
          register = d.register;
          arguments = d.arguments;
          f1 = f1;
          f2 = f2;
          f3 = f3;
          frames = frames;
          free_frames = all;
          pages = d.pages;
          pages_at = d.pages_at;
          entries = d.entries;
          left = d.left;
          region_0 = region_laid;
          nobody_ready = refl;
          nobody_blocked = refl;
          nobody_dead = refl;
          nobody_delayed = refl;
          objects = fresh_wrapper-IsValid;
          terminals = Fresh-IsUsable k.hardware o terminals;
        }

    start_user-Booted :
        (kl : Kernel)
        → Loaded ready_to_load li cmd_args given.init_block.at given.init_pages.at first_context kl
        → Returns
            (Booted k num_frames given li cmd_args u)
            (start_user given loading (with_kept ready_to_load kl))
    unfolding start_user
    start_user-Booted kl d =
        let (o, m, run, terminals) =
          tty_state_init-Fresh given.raw_terminals (with_kept ready_to_load kl) in
        let block : kl.pcbs given.idle_block.at ≡ some idle_new =
          d.others given.idle_block.at c.apart ∙ rw (c.apart, ==_refl given.idle_block.at) refl in
        let (region, copied, laid') =
          kc_copy-AllLaidOut given.kc_context_at given.idle_block.at (over kl m o pages) idle_new
            given.idle_context_at _ (address given.idle_block.at c.idle_block) block refl refl
            c.room laid in
        let booted = over-Booted kl m o region d block terminals laid' in
        rw run (rw copied (rw d.block_at (rw d.starts (rw d.starts at booted))))

    started :
        (rc : ℤ) (kl : Kernel)
        → ((rc ≡ pos 0)
            × Loaded ready_to_load li cmd_args given.init_block.at given.init_pages.at first_context
                kl)
          × Kept ready_to_load kl
        → Returns
            (Booted k num_frames given li cmd_args u)
            ((if rc ==ℤ pos 0 then start_user given loading else (λ k'. halt)) kl)
    started rc kl ((done, d), keeps) = rw done (
        subst
          (λ kl'. Returns (Booted k num_frames given li cmd_args u) (start_user given loading kl'))
          (sym (with_kept_lem ready_to_load kl keeps)) (start_user-Booted kl d))

    -- The rest of `KernelStart`, from the page tables and frames on.
    abbrev from_memory : Queue ℕ → Res (Option UserContext)
    from_memory q1 =
        bind_res (start_processes (with_memory k given.region_1 pages table q1))
          (λ _ k1. bind_res (pop_free_frame k1) (start_idle given loading default cmd_args u))

    from_memory-Booted :
        Returns
          (Booted k num_frames given li cmd_args u)
          (from_memory (record q { items = f1 ∷ f2 ∷ f3 ∷ frames }))
    from_memory-Booted =
        let line : Queue ℕ = record q { items = f1 ∷ f2 ∷ f3 ∷ frames } in
        rw
          (
            start_processes_lem (with_memory k given.region_1 pages table line),
            start_idle_lem given loading default cmd_args u q f1 f2 f3 frames empty,
          )
          (Returns-bind _ _
            (loading (program_name default cmd_args) cmd_args (some given.init_block.at)
              ready_to_load)
            _ loaded started)

  abbrev with_all_memory : Kernel
  with_all_memory = record k { mem = λ _. true }

  abbrev Starts : Kernel → Type 0
  Starts k0 =
      Returns (Booted k num_frames given li cmd_args u)
        (kernel_start given loading default cmd_args num_frames u k0)

  with_all_memory-Starts : Starts with_all_memory
  unfolding kernel_start
  with_all_memory-Starts =
      let text = c.text_first in
      let heap = c.data_first in
      let room = c.room in
      let stack = c.stack in
      let (pages, table, q, run, laid, unmapped, items) =
        start_memory_lem k given.region_1 num_frames text heap (omega arith) in
      let many : 4 * k.hardware.num_pages + 3 ≤ num_frames = c.frames in
      let long =
        free_from-length k.hardware k.kernel_brk_offset (omega arith) (omega arith) (omega arith)
          num_frames 0 (omega arith) in
      let (f1, f2, f3, frames, split, enough) =
        split_three (3 * k.hardware.num_pages)
          (free_from k.hardware k.kernel_brk_offset 0 num_frames) (omega arith) in
      let line : q ≡ record q { items = f1 ∷ f2 ∷ f3 ∷ frames } =
        ap (λ l. record q { items = l }) (items ∙ split) in
      rw run (
        subst
          (λ q1.
            Returns (Booted k num_frames given li cmd_args u)
              (from_memory pages table q f1 f2 f3 frames laid unmapped split enough q1))
          (sym line) (from_memory-Booted pages table q f1 f2 f3 frames laid unmapped split enough))

  all_memory : k ≡ with_all_memory
  all_memory = λ i. record k { mem = λ n. c.memory n i }

  -- Where no allocation fails, the kernel's regions lie in order with room below its stack, the
  -- blocks and tables that `malloc` gives are in the kernel's heap and apart, there are four frames for
  -- each page of a region and three more, and the program and its arguments fit and can be read,
  -- `KernelStart` reaches its end. The user gets the context of init's program, which begins at its
  -- entry point with the stack pointer below the arguments, whose strings, pointers and number are on
  -- init's stack. Init is the current process and its page table is in the register, with the pages of
  -- the program mapped to free frames. Idle can be given the CPU; no process is ready, blocked, dead or
  -- delayed; region 0 is laid out as by `init_page_tables`; the wrapper of the objects is well-formed;
  -- and a terminal that nobody writes to is available and holds a line at most.
  pub kernel_start-boots :
      Returns
        (Booted k num_frames given li cmd_args u)
        (kernel_start given loading default cmd_args num_frames u k)
  kernel_start-boots = subst Starts (sym all_memory) with_all_memory-Starts
