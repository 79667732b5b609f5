-- ===== src/Start.antt =====
-- `KernelStart` of src/kernel.c, `count_cmd_args`, and `RegisterTrapHandlers` of src/traps.c, whose
-- vector of addresses is the machine's. Where `malloc` gives no block for one of the kernel's own
-- queues or sets, the code goes on with NULL; that is taken for a fault. What `malloc` and
-- `helper_new_pid` give is a parameter, and so is `LoadProgram`, with the files that it reads.
pub mod Memory
pub mod Processes
pub mod Machine
pub mod Boots
use cs58_yalnix.Base.{ℕ, ◌-◌, true, false, Option, none, some, List, [], ◌∷◌, if◌then◌else◌}
use cs58_yalnix.Base.Int.{ℤ, pos, ◌==ℤ◌}
use cs58_yalnix.Kernel.{
  Hardware, Pcb, Pte, UserContext, ReadBuffer, Terminal, M, ok, halt, pure, gets, deref, load,
  store, malloc, current, update, ◌>>=◌, ◌>>◌,
}
use cs58_yalnix.Ipc.{error, new_set, new_queue, ipc_wrapper_init}
use cs58_yalnix.Process.Create.{pcb_new}
use cs58_yalnix.Tty.{tty_state_init}
use cs58_yalnix.Vm.{pop_free_frame}
use cs58_yalnix.Vm.Boot.{init_page_tables, init_free_frame_queue}
use cs58_yalnix.Vm.Fork.{blank, stack_pages, kc_copy}
use cs58_yalnix.Loader.{limit_1}

-- `RegisterTrapHandlers`. Its result is only printed.
unfoldable pub register_trap_handlers : M ℤ
register_trap_handlers = do
  virtual ← gets (λ k. k.virtual_mem_enabled)
  if virtual then (do got ← malloc; pure (if got then pos 0 else error)) else pure error

-- The arguments end with a NULL, which `count_cmd_args` looks for. The program is the first one.
abbrev pub program_name : List ℕ → List (List ℕ) → List ℕ
program_name default [] = default
program_name default (name ∷ args) = name

-- What a call of `pcbNew` is given by `malloc`.
pub record NewBlock : Type 0 where
  pub at : ℕ
  pub context_at : ℕ
  pub raw : Pcb
  pub fresh : ℕ → Pte
  pub input : ReadBuffer

-- A page table that `malloc` gives: its address and what is in it.
pub record NewTable : Type 0 where
  pub at : ℕ
  pub entries : ℕ → Pte

new_process : NewBlock → ℤ → ℕ → UserContext → Option ℕ → M (Option ℕ)
new_process b pid table u context =
    pcb_new b.at b.context_at b.raw b.fresh b.input pid (some table) none none (some u) context

-- The page tables and the frames, before virtual memory is on and after.
pub start_memory : NewTable → ℕ → M (Unit {0})
start_memory region_1 num_frames = do
  (λ k. ok tt (record k { virtual_mem_enabled = false }))
  init_page_tables region_1.at region_1.entries
  (λ k. ok tt (record k { ptbr1 = some region_1.at }))
  made ← new_queue
  frames ← deref made
  (λ k. ok tt (record k { free_frame_queue = frames }))
  init_free_frame_queue num_frames
  (λ k. ok tt (record k { virtual_mem_enabled = true }))

-- The queue and the sets of processes.
pub start_processes : M (Unit {0})
unfolding register_trap_handlers
start_processes = do
  made ← new_queue
  ready_queue ← deref made
  (λ k. ok tt (record k { process_ready_queue = ready_queue }))
  made_blocked ← new_set
  blocked ← deref made_blocked
  (λ k. ok tt (record k { blocked_pcbs = blocked }))
  made_dead ← new_set
  dead ← deref made_dead
  (λ k. ok tt (record k { dead_pcbs = dead; current_process = none }))
  register_trap_handlers
  made_delayed ← new_set
  delayed ← deref made_delayed
  (λ k. ok tt (record k { delayed_pcbs = delayed }))

-- The page table of idle: one page, for its user stack.
abbrev idle_table : Hardware → (ℕ → Pte) → ℕ → ℕ → Pte
idle_table hw raw f =
    update (blank hw.num_pages raw) (hw.num_pages - 1)
      (record { valid = true; prot = hw.prot_read_write; pfn = f })

-- The context that idle and init begin with.
abbrev idle_context : Hardware → ℕ → UserContext → UserContext
idle_context hw do_idle u = record u { pc = do_idle; sp = limit_1 hw - 4 }

-- The kernel stack of idle. A frame that is missing is read through NULL.
start_idle_stack : Option ℕ → M (Unit {0})
start_idle_stack idle = do
  (λ k. ok tt (record k { idle_process = idle }))
  f1 ← pop_free_frame
  f2 ← pop_free_frame
  hw ← gets (λ k. k.hardware)
  p ← deref idle
  v ← load p
  old ← deref v.kernel_stack_pages
  f ← deref f1
  g ← deref f2
  store p (record v { kernel_stack_pages = some (stack_pages hw old f g) })

-- What `malloc` and `helper_new_pid` give to `KernelStart`, and the address of `DoIdle`.
pub record Given : Type 0 where
  pub region_1 : NewTable
  pub idle_pages : NewTable
  pub init_pages : NewTable
  pub idle_block : NewBlock
  pub init_block : NewBlock
  pub idle_context_at : ℕ
  pub init_context_at : ℕ
  pub kc_context_at : ℕ
  pub idle_pid : ℤ
  pub init_pid : ℤ
  pub do_idle : ℕ
  pub raw_terminals : ℕ → Terminal

module _ (given : Given) (load_program : List ℕ → List (List ℕ) → Option ℕ → M ℤ) where
  -- Init becomes the current process; idle gets a copy of the kernel's context. What the user gets
  -- back is the context of the process that then runs.
  pub start_user : M (Option UserContext)
  start_user = do
    terminals ← tty_state_init given.raw_terminals
    (λ k. ok tt (record k { tty_state = terminals; current_process = k.init_process }))
    idle ← gets (λ k. k.idle_process)
    i ← deref idle
    kc_copy given.kc_context_at i
    p ← current
    v ← load p
    u ← deref v.usr_ctx
    pure (some u)

  start_init : List ℕ → List (List ℕ) → UserContext → M (Option UserContext)
  unfolding new_process start_user
  start_init default cmd_args u = do
    wrapper ← ipc_wrapper_init
    (λ k. ok tt (record k { ipc_wrapper = wrapper }))
    got ← malloc
    if got
        then (do
          n ← gets (λ k. k.hardware.num_pages)
          (λ k. ok tt (record k {
            page_tables =
                update k.page_tables given.init_pages.at (some (blank n given.init_pages.entries));
          }))
          got' ← malloc
          init ←
              new_process given.init_block given.init_pid given.init_pages.at u
                (if got' then some given.init_context_at else none)
          (λ k. ok tt (record k { init_process = init }))
          rc ← load_program (program_name default cmd_args) cmd_args init
          if rc ==ℤ pos 0 then start_user else (λ k. halt))
        else pure none

  pub start_idle : List ℕ → List (List ℕ) → UserContext → Option ℕ → M (Option UserContext)
  unfolding new_process start_idle_stack start_init
  start_idle default cmd_args u none = pure none
  start_idle default cmd_args u (some f) = do
    got ← malloc
    if got
        then (do
          hw ← gets (λ k. k.hardware)
          (λ k. ok tt (record k {
            page_tables =
                update k.page_tables given.idle_pages.at
                  (some (idle_table hw given.idle_pages.entries f));
          }))
          got' ← malloc
          if got'
              then (do
                let u' = idle_context hw given.do_idle u
                idle ←
                    new_process given.idle_block given.idle_pid given.idle_pages.at u'
                      (some given.idle_context_at)
                start_idle_stack idle
                start_init default cmd_args u')
              else pure none)
        else pure none

  -- `KernelStart`: the context that the user gets, or `none` where it returns before that.
  unfoldable pub kernel_start :
      List ℕ → List (List ℕ) → (num_frames : ℕ) → UserContext → M (Option UserContext)
  unfolding start_memory start_processes start_idle
  kernel_start default cmd_args num_frames u = do
    start_memory given.region_1 num_frames
    start_processes
    f ← pop_free_frame
    start_idle default cmd_args u f
