-- ===== src/Kernel.antt =====
-- The kernel's global state (src/kernel.h, src/datastructures/pcb.h, lock.h, cvar.h, pipe.h and
-- ipc_wrapper.h, tty_state.h) and the monad in which its functions are written. Process control blocks are
-- shared by pointer between queues, sets and globals, so they live in a store, `pcbs`; a NULL
-- pointer is `none`, and a dereference that C leaves undefined is `fault`.
pub mod Memory
pub mod Scheduler
pub mod Ensures
pub mod Preserves
use cs58_yalnix.Base.{ℕ, Bool, true, false, Option, none, some, List, [], ◌∷◌, if◌then◌else◌, ◌==◌}
use cs58_yalnix.Base.Int.{ℤ}
use cs58_yalnix.Base.Alloc.{Mem, rest}
use cs58_yalnix.Set
use cs58_yalnix.Set.{Set}
use cs58_yalnix.Queue
use cs58_yalnix.Queue.{Queue}

-- The constants of hardware.h and yalnix.h that the kernel is compiled with.
pub record Hardware : Type 0 where
  pub page_size : ℕ
  -- `VMEM_REGION_SIZE / PAGESIZE`.
  pub num_pages : ℕ
  -- `KERNEL_STACK_MAXSIZE / PAGESIZE`.
  pub num_kstack_frames : ℕ
  pub pipe_buffer_len : ℕ
  pub num_terminals : ℕ
  pub terminal_max_line : ℕ
  pub max_processes : ℕ
  -- The page numbers that the build leaves in globals of these names.
  pub first_kernel_text_page : ℕ
  pub first_kernel_data_page : ℕ
  pub orig_kernel_brk_page : ℕ
  -- The entries of a page table, and what the start of a program leaves above the stack pointer.
  pub max_pt_len : ℕ
  pub initial_stack_frame_size : ℕ
  pub post_argv_null_space : ℕ
  -- `PROT_READ | PROT_WRITE` and `PROT_READ | PROT_EXEC`.
  pub prot_read_write : ℕ
  pub prot_read_exec : ℕ

-- A page table entry.
pub record Pte : Type 0 where
  pub valid : Bool
  pub prot : ℕ
  pub pfn : ℕ

pub data ProcessState : Type 0 where
  ready blocked running dead delayed : ProcessState

-- `UserContext`. Registers are bit patterns.
pub record UserContext : Type 0 where
  pub code : ℤ
  pub addr : ℕ
  pub sp : ℕ
  pub pc : ℕ
  pub regs : ℕ → ℕ

-- The region 0 buffer of a process for terminal input: its address and its bytes.
pub record ReadBuffer : Type 0 where
  pub address : ℕ
  pub bytes : ℕ → ℕ

-- `pcb_t`, but for the contents of the kernel context. Pointers to other blocks are addresses in
-- the store.
pub record Pcb : Type 0 where
  pub state : ProcessState
  pub waiting : Bool
  pub pid : ℤ
  pub current_brk : ℕ
  pub delay_ticks : ℤ
  pub exit_status : ℤ
  pub child_exit_status : ℤ
  pub parent : Option ℕ
  pub children : Option (Set ℕ)
  pub zombies : Option (Set ℕ)
  pub page_table : Option ℕ
  pub usr_ctx : Option UserContext
  pub krn_ctx : Option ℕ
  pub kernel_stack_pages : Option (ℕ → Pte)
  pub tty_read_buffer_r0 : Option ReadBuffer
  pub tty_read_buffer_r1 : Option ℕ
  pub tty_has_bytes : Bool
  pub tty_num_bytes_requested : ℤ
  pub tty_num_bytes_read : ℤ
  pub tty_write_waiting : Bool

pub record Lock : Type 0 where
  pub lock_id : ℤ
  pub owner : ℤ
  pub waiters : Queue ℕ

pub record Cvar : Type 0 where
  pub cvar_id : ℤ
  pub waiters : Queue ℕ

-- `buffer` gives the byte at each offset.
pub record Pipe : Type 0 where
  pub pipe_id : ℤ
  pub buffer : ℕ → ℕ
  pub num_bytes_available : ℤ
  pub readers : Queue ℕ
  pub writers : Set ℕ

-- `ipc_wrapper_t`.
pub record IpcWrapper : Type 0 where
  pub next_ipc_id : ℤ
  pub locks : Set Lock
  pub cvars : Set Cvar
  pub pipes : Set Pipe

-- What `tty_state_t` holds of one terminal. `set_new` and `queue_new` may have left NULL.
pub record Terminal : Type 0 where
  pub availability : Bool
  pub curr_writer : Option ℕ
  pub curr_readers : Option (Set ℕ)
  pub buffer : ℕ → ℕ
  pub bytes_available : ℕ
  pub write_queue : Option (Queue ℕ)

pub record Kernel : Type 0 where
  pub hardware : Hardware
  -- The outcomes of the calls of `malloc` still to come.
  pub mem : Mem
  -- What `malloc` finds in a fresh pipe buffer.
  pub junk : ℕ → ℕ
  pub pcbs : ℕ → Option Pcb
  pub current_process : Option ℕ
  pub init_process : Option ℕ
  pub idle_process : Option ℕ
  pub process_ready_queue : Queue ℕ
  -- The frame numbers behind the pointers of the queue.
  pub free_frame_queue : Queue ℕ
  pub delayed_pcbs : Set ℕ
  pub dead_pcbs : Set ℕ
  pub blocked_pcbs : Set ℕ
  pub ipc_wrapper : Option IpcWrapper
  -- `current_tty_state`: the terminals by their ids.
  pub tty_state : Option (ℕ → Terminal)
  -- The calls of `TtyTransmit` so far: a terminal and the bytes sent to it.
  pub transmitted : List (ℕ × List ℕ)
  pub virtual_mem_enabled : Bool
  pub kernel_brk_offset : ℕ
  pub region_0_pages : ℕ → Pte
  -- The page tables of the processes, by address, and the one in register REG_PTBR1.
  pub page_tables : ℕ → Option (ℕ → Pte)
  pub ptbr1 : Option ℕ
  -- The bytes of region 1 as each page table maps them.
  pub user_mem : ℕ → ℕ → ℕ

pub data Res (A : Type 0) : Type 0 where
  ok : A → Kernel → Res A
  fault : Res A
  -- `Halt()` of the hardware: the machine stops.
  halt : Res A

abbrev pub M : Type 0 → Type 0
M A = Kernel → Res A

abbrev pub pure : {A : Type 0} → A → M A
pure a k = ok a k

abbrev pub bind_res : {A B : Type 0} → Res A → (A → M B) → Res B
bind_res (ok a k) f = f a k
bind_res fault f = fault
bind_res halt f = halt

infixl 5 ◌>>=◌ ◌>>◌
abbrev pub ◌>>=◌ : {A B : Type 0} → M A → (A → M B) → M B
◌>>=◌ m f k = bind_res (m k) f

abbrev pub ◌>>◌ : {A B : Type 0} → M A → M B → M B
◌>>◌ m n k = bind_res (m k) (λ _. n)

abbrev pub gets : {A : Type 0} → (Kernel → A) → M A
gets f k = ok (f k) k

abbrev pub crash : {A : Type 0} → M A
crash k = fault

-- A pointer that is about to be dereferenced.
abbrev pub deref : {A : Type 0} → Option A → M A
deref none = crash
deref (some a) = pure a

abbrev pub update : {A : Type 0} → (ℕ → A) → ℕ → A → ℕ → A
update f p v q = if p == q then v else f q

abbrev pub load : ℕ → M Pcb
load p k = deref (k.pcbs p) k

abbrev pub store : ℕ → Pcb → M (Unit {0})
store p v k = ok tt (record k { pcbs = update k.pcbs p (some v) })

-- `p->state = s`.
unfoldable pub set_state : ℕ → ProcessState → M (Unit {0})
set_state p s = do v ← load p; store p (record v { state = s })

abbrev pub current : M ℕ
current k = deref k.current_process k

-- `memcpy(current_process->usr_ctx, user_context, sizeof(UserContext))`.
unfoldable pub save_user_context : UserContext → M (Unit {0})
save_user_context u = do
  p ← current
  v ← load p
  old ← deref v.usr_ctx
  store p (record v { usr_ctx = some u })

-- `current_process->pid`.
unfoldable pub current_pid : M ℤ
current_pid = do p ← current; v ← load p; pure v.pid

-- `queue_push` and `queue_pop` on the ready queue, `set_insert` and `set_pop` on the blocked set.
unfoldable pub push_ready : Option ℕ → M ℤ
push_ready p k =
    let (rc, q, m) = Queue.push k.process_ready_queue p k.mem in
    ok rc (record k { process_ready_queue = q; mem = m })

unfoldable pub pop_ready : M (Option ℕ)
pop_ready k =
    let (p, q) = Queue.pop k.process_ready_queue in ok p (record k { process_ready_queue = q })

unfoldable pub insert_blocked : ℤ → Option ℕ → M ℤ
insert_blocked key p k =
    let (rc, s, m) = Set.insert k.blocked_pcbs key p k.mem in
    ok rc (record k { blocked_pcbs = s; mem = m })

unfoldable pub pop_blocked : ℤ → M (Option ℕ)
pop_blocked key k = let (p, s) = Set.pop k.blocked_pcbs key in ok p (record k { blocked_pcbs = s })

unfoldable pub insert_delayed : ℤ → Option ℕ → M ℤ
insert_delayed key p k =
    let (rc, s, m) = Set.insert k.delayed_pcbs key p k.mem in
    ok rc (record k { delayed_pcbs = s; mem = m })

unfoldable pub pop_delayed : ℤ → M (Option ℕ)
pop_delayed key k = let (p, s) = Set.pop k.delayed_pcbs key in ok p (record k { delayed_pcbs = s })

unfoldable pub insert_dead : ℤ → Option ℕ → M ℤ
insert_dead key p k =
    let (rc, s, m) = Set.insert k.dead_pcbs key p k.mem in
    ok rc (record k { dead_pcbs = s; mem = m })

unfoldable pub pop_dead : ℤ → M (Option ℕ)
pop_dead key k = let (p, s) = Set.pop k.dead_pcbs key in ok p (record k { dead_pcbs = s })

unfoldable pub malloc : M Bool
malloc k = ok (k.mem 0) (record k { mem = rest k.mem })

-- Where a handler goes on when its process runs again: after the call of `ScheduleNextProcess` in
-- the loop or branch of that name, with the handler's arguments.
pub data Point : Type 0 where
  lock_acquired : Point
  pipe_write_loop : (pipe_id : ℤ) (buf : ℕ) (len : ℤ) → Point
  pipe_read_loop : (pipe_id : ℤ) (buf : ℕ) (len : ℤ) → Point
  wait_loop : (status_ptr : ℕ) (store : Bool) → Point
  delay_over : Point
  clock_over : Point
  tty_read_wait : (tty_id : ℕ) (buf : ℕ) → Point
  tty_write_wait : (tty_id : ℕ) (buf : ℕ) (len : ℤ) → Point
  -- The region 0 copy of the bytes, their number and the first that was not sent.
  tty_write_loop : (tty_id : ℕ) (bytes : ℕ → ℕ) (len start_byte : ℕ) → Point
  tty_write_over : Point

-- A handler returns to its caller, or has called `ScheduleNextProcess` and is left at a point.
pub data Outcome : Type 0 where
  returned : ℤ → Outcome
  paused : Point → Outcome

unfoldable pub push_free_frame : ℕ → M ℤ
push_free_frame pfn k =
    let (rc, q, m) = Queue.push k.free_frame_queue (some pfn) k.mem in
    ok rc (record k { free_frame_queue = q; mem = m })

-- The three steps that unblock a process: its state, the blocked set, the ready queue.
unfoldable pub wake : ℕ → M (Unit {0})
unfolding set_state pop_blocked push_ready
wake p = do set_state p ready; v ← load p; pop_blocked v.pid; push_ready (some p); pure tt
