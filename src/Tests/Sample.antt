-- ===== src/Tests/Sample.antt =====
-- The machine of the tests.
use cs58_yalnix.Base.{
  ◌≡◌, refl, arith, ℕ, Bool, true, Option, none, some, List, [], ◌∷◌, if◌then◌else◌, ◌==◌, ◌+◌,
}
use cs58_yalnix.Base.Int.{ℤ, pos}
use cs58_yalnix.Kernel.{
  Hardware, Pte, ProcessState, Pcb, UserContext, Terminal, Lock, Cvar, Pipe, IpcWrapper, Kernel,
}
use cs58_yalnix.Kernel.Scheduler.Laws.{IsKernelAddress, CanRun}
use cs58_yalnix.Queue
use cs58_yalnix.Queue.{Queue}
use cs58_yalnix.Set
use cs58_yalnix.Set.{Set}

abbrev pub hw : Hardware
hw = record {
  page_size = 8192;
  num_pages = 128;
  num_kstack_frames = 2;
  pipe_buffer_len = 256;
  num_terminals = 4;
  terminal_max_line = 1024;
  max_processes = 128;
  first_kernel_text_page = 8;
  first_kernel_data_page = 20;
  orig_kernel_brk_page = 30;
  max_pt_len = 128;
  initial_stack_frame_size = 32;
  post_argv_null_space = 1;
  prot_read_write = 3;
  prot_read_exec = 5;
}

abbrev pub page : Pte
page = record { valid = true; prot = 3; pfn = 7 }

abbrev pub user_context : UserContext
user_context = record { code = pos 0; addr = 0; sp = 2097152; pc = 1048576; regs = λ _. 0 }

abbrev pub process : ℤ → ProcessState → Pcb
process id s = record {
  state = s;
  waiting = Bool.false;
  pid = id;
  current_brk = 1056768;
  delay_ticks = pos 0;
  exit_status = pos 0;
  child_exit_status = pos 0;
  parent = none;
  children = some Set.empty;
  zombies = some Set.empty;
  page_table = some 5000;
  usr_ctx = some user_context;
  krn_ctx = some 64;
  kernel_stack_pages = some (λ _. page);
  tty_read_buffer_r0 = some (record { address = 80; bytes = λ _. 0 });
  tty_read_buffer_r1 = none;
  tty_has_bytes = Bool.false;
  tty_num_bytes_requested = pos 2;
  tty_num_bytes_read = pos 0;
  tty_write_waiting = Bool.false;
}

abbrev pub line : List ℕ → ℤ → Queue ℕ
line ps n = record { items = ps; next_key = 1; count = n }

-- A lock, free or owned, with id 0.
abbrev pub lock_of : ℤ → List ℕ → ℤ → Lock
lock_of o ps n = record { lock_id = pos 0; owner = o; waiters = line ps n }

abbrev pub cvar : Cvar
cvar = record { cvar_id = pos 1; waiters = line (200 ∷ []) (pos 1) }

abbrev pub pipe : Pipe
pipe = record {
  pipe_id = pos 2;
  buffer = λ i. i;
  num_bytes_available = pos 2;
  readers = Queue.empty;
  writers = Set.empty;
}

abbrev pub single : {A : Type 0} → ℤ → A → Set A
single key x = record { nodes = (key, x) ∷ []; node_count = pos 1 }

abbrev pub wrapper_of : Lock → IpcWrapper
wrapper_of l = record {
  next_ipc_id = pos 3;
  locks = single (pos 0) l;
  cvars = single (pos 1) cvar;
  pipes = single (pos 2) pipe;
}

abbrev pub blocks : Pcb → Pcb → ℕ → Option Pcb
blocks a b p = if p == 100 then some a else if p == 200 then some b else none

-- Terminals on which nobody reads or writes.
abbrev pub terminal : Terminal
terminal = record {
  availability = true;
  curr_writer = none;
  curr_readers = some Set.empty;
  buffer = λ i. i + 65;
  bytes_available = 0;
  write_queue = some Queue.empty;
}

-- Process 1 runs in this state, process 2 is on the ready queue.
abbrev pub machine : ProcessState → Lock → Kernel
machine s l = record {
  hardware = hw;
  mem = λ _. true;
  junk = λ _. 0;
  pcbs = blocks (process (pos 1) s) (process (pos 2) ProcessState.ready);
  current_process = some 100;
  init_process = some 100;
  idle_process = some 200;
  process_ready_queue = line (200 ∷ []) (pos 1);
  free_frame_queue = Queue.empty;
  delayed_pcbs = Set.empty;
  dead_pcbs = Set.empty;
  blocked_pcbs = Set.empty;
  ipc_wrapper = some (wrapper_of l);
  tty_state = some (λ _. terminal);
  transmitted = [];
  virtual_mem_enabled = true;
  kernel_brk_offset = 10;
  region_0_pages = λ _. page;
  page_tables = λ _. some (λ _. page);
  ptbr1 = some 5000;
  user_mem = λ _ a. a;
}

-- A block of the sample can be given the CPU.
abbrev pub fit :
    (pcbs : ℕ → Option Pcb) (p : ℕ) (id : ℤ) (s : ProcessState)
    → pcbs p ≡ some (process id s)
    → IsKernelAddress hw (λ _. page) p
    → CanRun hw (λ _. page) pcbs p (process id s)
fit pcbs p id s block address = record {
  block = block;
  address = address;
  context = 64;
  has_context = refl;
  context_address = record { low = refl; region_0 = omega arith; mapped = refl };
  stack = λ _. page;
  has_stack = refl;
}

abbrev pub first_address : IsKernelAddress hw (λ _. page) 100
first_address = record { low = refl; region_0 = omega arith; mapped = refl }

abbrev pub second_address : IsKernelAddress hw (λ _. page) 200
second_address = record { low = refl; region_0 = omega arith; mapped = refl }
