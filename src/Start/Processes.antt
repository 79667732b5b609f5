-- ===== src/Start/Processes.antt =====
-- The processes that `KernelStart` sets up, with memory for everything.
use cs58_yalnix.Base.{
  ℕ, ◌≡◌, refl, ==_refl, false, true, none, some, List, ◌∷◌, Option, if◌then◌else◌,
}
use cs58_yalnix.Base.Int.{ℤ, pos, ◌-ℤ◌, ◌==ℤ◌}
use cs58_yalnix.Kernel.{Kernel, Pcb, UserContext, M, ok, halt, malloc, update, ready, bind_res}
use cs58_yalnix.Set
use cs58_yalnix.Queue
use cs58_yalnix.Queue.{Queue}
use cs58_yalnix.Ipc.{new_set, new_queue, ipc_wrapper_init}
use cs58_yalnix.Ipc.Calls.{fresh_wrapper}
use cs58_yalnix.Process.Create.{pcb_new}
use cs58_yalnix.Vm.{pop_free_frame}
use cs58_yalnix.Vm.Fork.{blank, stack_pages}
use cs58_yalnix.Start.{
  NewBlock, Given, new_process, start_processes, register_trap_handlers, idle_table, idle_context,
  start_idle_stack, start_user, start_init, start_idle, program_name,
}

-- The block that `pcbNew` makes of a new one.
abbrev pub made : NewBlock → ℤ → ℕ → UserContext → ℕ → Pcb
made b pid table u context = record b.raw {
  state = ready;
  waiting = false;
  pid = pid;
  delay_ticks = pos 0;
  exit_status = pos 0;
  child_exit_status = pos 0;
  parent = none;
  children = some Set.empty;
  zombies = some Set.empty;
  page_table = some table;
  usr_ctx = some u;
  krn_ctx = some context;
  kernel_stack_pages = some b.fresh;
  tty_read_buffer_r0 = some b.input;
  tty_read_buffer_r1 = none;
  tty_has_bytes = false;
  tty_num_bytes_read = pos 0;
  tty_write_waiting = false;
}

new_process_lem :
    (b : NewBlock) (pid : ℤ) (table : ℕ) (u : UserContext) (context : ℕ) (k : Kernel)
    → new_process b pid table u (some context) (record k { mem = λ _. true })
      ≡ ok (some b.at) (record k {
        mem = λ _. true;
        pcbs = update k.pcbs b.at (some (made b pid table u context));
      })
unfolding new_process pcb_new malloc new_set Set.new
new_process_lem b pid table u context k = refl

abbrev pub without_processes : Kernel → Kernel
without_processes k = record k {
  mem = λ _. true;
  process_ready_queue = Queue.empty;
  blocked_pcbs = Set.empty;
  dead_pcbs = Set.empty;
  delayed_pcbs = Set.empty;
  current_process = none;
}

pub start_processes_lem :
    (k : Kernel)
    → start_processes (record k { mem = λ _. true; virtual_mem_enabled = true })
      ≡ ok tt (without_processes (record k { virtual_mem_enabled = true }))
unfolding start_processes register_trap_handlers malloc new_set new_queue Set.new Queue.new
start_processes_lem k = refl

module _ (given : Given) (load_program : List ℕ → List (List ℕ) → Option ℕ → M ℤ) (default : List ℕ)
    (cmd_args : List (List ℕ)) (u : UserContext) (q : Queue ℕ) (f1 f2 f3 : ℕ) (frames : List ℕ)
    (k : Kernel) where
  abbrev pub idle_made : Pcb
  idle_made =
      made given.idle_block given.idle_pid given.idle_pages.at
        (idle_context k.hardware given.do_idle u) given.idle_context_at

  abbrev pub idle_ready : Pcb
  idle_ready = record idle_made {
    kernel_stack_pages = some (stack_pages k.hardware given.idle_block.fresh f2 f3);
  }

  abbrev pub init_made : Pcb
  init_made =
      made given.init_block given.init_pid given.init_pages.at
        (idle_context k.hardware given.do_idle u) given.init_context_at

  -- The kernel when init is about to be loaded.
  abbrev pub before_loading : Kernel
  before_loading = record k {
    mem = λ _. true;
    free_frame_queue = record q { items = frames; count = q.count -ℤ pos 1 -ℤ pos 1 -ℤ pos 1 };
    page_tables =
        update
          (update k.page_tables given.idle_pages.at
            (some (idle_table k.hardware given.idle_pages.entries f1)))
          given.init_pages.at (some (blank k.hardware.num_pages given.init_pages.entries));
    pcbs =
        update
          (update (update k.pcbs given.idle_block.at (some idle_made)) given.idle_block.at
            (some idle_ready))
          given.init_block.at (some init_made);
    idle_process = some given.idle_block.at;
    init_process = some given.init_block.at;
    ipc_wrapper = some fresh_wrapper;
  }

  pub start_idle_lem :
      bind_res
        (pop_free_frame (record k {
          mem = λ _. true;
          free_frame_queue = record q { items = f1 ∷ f2 ∷ f3 ∷ frames };
        }))
        (start_idle given load_program default cmd_args u)
      ≡ bind_res
          (load_program
            (program_name default cmd_args)
            cmd_args
            (some given.init_block.at)
            before_loading)
          (λ rc. if rc ==ℤ pos 0 then start_user given load_program else (λ k'. halt))
  unfolding start_idle start_init start_idle_stack new_process pcb_new malloc new_set Set.new
      pop_free_frame Queue.pop ipc_wrapper_init
  start_idle_lem = rw (==_refl given.idle_block.at) refl
