-- ===== src/Vm/Fork.antt =====
-- `ForkHandler` of src/syscall_handlers/process_coordination.c and `KCCopy` of src/kernel.c. What
-- `malloc` gives is a parameter, as is the pid that `helper_new_pid` of the machine's library
-- returns. The bytes of a kernel stack are not modelled.
pub mod Copies
pub mod Windows
pub mod Keeps
pub mod Child
pub mod Forks
use cs58_yalnix.Base.{
  ℕ, zero, suc, ◌+◌, ◌-◌, ◌*◌, Bool, true, false, ◌&&◌, Option, none, some, if◌then◌else◌, ltb, leb,
  ◌==◌,
}
use cs58_yalnix.Base.Int.{ℤ, pos, ◌+ℤ◌, ◌==ℤ◌, leb_ℤ}
use cs58_yalnix.Kernel.{
  Hardware, Kernel, Pcb, Pte, ReadBuffer, M, ok, pure, crash, gets, deref, load, store, current,
  malloc, push_ready, update, ◌>>=◌, ◌>>◌,
}
use cs58_yalnix.Kernel.Memory.{check_memory_validity}
use cs58_yalnix.Set
use cs58_yalnix.Set.{Set}
use cs58_yalnix.Ipc.{error, new_set}
use cs58_yalnix.Process.Create.{pcb_new}
use cs58_yalnix.Vm.{pop_free_frame, put_region_0, down_to_page}
use cs58_yalnix.Vm.UserMemory.{entry_at, put_entry}

-- `memcpy` of the page at `i`, through a page below the kernel stack that is mapped to the new frame
-- for as long. Only the new page table maps that frame.
unfoldable pub copy_bytes : ℕ → ℕ → M (Unit {0})
copy_bytes new i = do
  table ← gets (λ k. k.ptbr1)
  src ← deref table
  (λ k. ok tt (record k {
    user_mem = update k.user_mem new (λ a.
        if down_to_page k.hardware a == k.hardware.num_pages + i
        then k.user_mem src a
        else k.user_mem new a);
  }))

-- The page below the kernel stack is unmapped again.
unfoldable pub clear_window : ℕ → M (Unit {0})
clear_window i = do
  hw ← gets (λ k. k.hardware)
  put_region_0 (hw.num_pages - 2 * hw.num_kstack_frames + i)
      (record { valid = false; prot = 0; pfn = 0 })

-- A mapped page of the parent gets a frame in the child.
copy_page : ℕ → ℕ → Pte → Option ℕ → M Bool
unfolding put_entry copy_bytes clear_window
copy_page new i e none = pure false
copy_page new i e (some f) = do
  put_entry new i (record { valid = true; prot = e.prot; pfn = f })
  copy_bytes new i
  clear_window 0
  pure true

-- The loop of `ForkHandler` over the `n` pages from `i` on; `false` where no frame is left.
unfoldable pub copy_pages : (cur new : ℕ) → ℕ → ℕ → M Bool
unfolding copy_page
copy_pages cur new i zero = pure true
copy_pages cur new i (suc n) = do
  e ← entry_at cur i
  if e.valid
      then (do
        f ← pop_free_frame
        done ← copy_page new i e f
        if done then copy_pages cur new (i + 1) n else pure false)
      else copy_pages cur new (i + 1) n

-- The entries below `n` are unmapped.
abbrev pub blank : ℕ → (ℕ → Pte) → ℕ → Pte
blank n raw i = if ltb i n then record (raw i) { valid = false } else raw i

-- The processes that are counted, with the running one and idle or init, or all three.
unfoldable pub count_processes : M ℤ
count_processes = do
  p ← current
  v ← load p
  idle ← gets (λ k. k.idle_process)
  i ← deref idle
  vi ← load i
  init ← gets (λ k. k.init_process)
  waiting ←
      gets
        (λ k. k.delayed_pcbs.node_count +ℤ k.blocked_pcbs.node_count +ℤ k.process_ready_queue.count)
  if v.pid ==ℤ vi.pid then pure (waiting +ℤ pos 2) else (do
    j ← deref init
    vj ← load j
    pure (waiting +ℤ (if v.pid ==ℤ vj.pid then pos 2 else pos 3)))

-- The loop of `KCCopy` that unmaps the `n` pages again through which the stack was copied.
clear_windows : ℕ → ℕ → M (Unit {0})
unfolding clear_window
clear_windows i zero = pure tt
clear_windows i (suc n) = do clear_window i; clear_windows (i + 1) n

-- A context that is missing; without memory for it the machine is given NULL.
ensure_context : ℕ → ℕ → Pcb → Option ℕ → M (Unit {0})
ensure_context context_at p v (some c) = pure tt
ensure_context context_at p v none = do
  got ← malloc
  if got then store p (record v { krn_ctx = some context_at }) else crash

-- `KCCopy`, of a block that is not NULL.
unfoldable pub kc_copy : ℕ → ℕ → M (Unit {0})
unfolding clear_windows ensure_context
kc_copy context_at p = do
  valid ← check_memory_validity p
  if valid
      then (do
        v ← load p
        ensure_context context_at p v v.krn_ctx
        v' ← load p
        pages ← deref v'.kernel_stack_pages
        n ← gets (λ k. k.hardware.num_kstack_frames)
        clear_windows 0 n)
      else pure tt

-- Where parent and child both go on after the copy, each as the current process.
unfoldable pub fork_resume : ℤ → M ℤ
fork_resume new_pid = do
  p ← current
  v ← load p
  pure (if v.pid ==ℤ new_pid then pos 0 else new_pid)

children_or_new : Option (Set ℕ) → M (Option (Set ℕ))
children_or_new (some s) = pure (some s)
children_or_new none = new_set

-- `set_insert` into a set that may be NULL; its result is ignored.
insert_child : ℕ → ℤ → ℕ → Option (Set ℕ) → M (Unit {0})
insert_child p key child none = do v ← load p; store p (record v { children = none })
insert_child p key child (some s) = do
  m ← gets (λ k. k.mem)
  v ← load p
  store p (record v { children = some (Set.insert s key (some child) m).1 })
  (λ k. ok tt (record k { mem = (Set.insert s key (some child) m).2 }))

-- Two frames for the kernel stack of the new process.
abbrev pub stack_pages : Hardware → (ℕ → Pte) → ℕ → ℕ → ℕ → Pte
stack_pages hw old f g i =
    if i == 0
    then record { valid = true; prot = hw.prot_read_write; pfn = f }
    else if i == 1
    then record { valid = true; prot = hw.prot_read_write; pfn = g }
    else old i

-- The new block is complete: it becomes a child of the caller, is ready, and gets a copy of the
-- kernel's stack.
start_child : ℕ → ℕ → ℕ → ℤ → Option ℕ → Option ℕ → M ℤ
unfolding children_or_new insert_child kc_copy fork_resume
start_child context_at p child new_pid (some f) (some g) = do
  hw ← gets (λ k. k.hardware)
  w ← load child
  old ← deref w.kernel_stack_pages
  store child (record w { kernel_stack_pages = some (stack_pages hw old f g) })
  v ← load p
  s ← children_or_new v.children
  w' ← load child
  insert_child p w'.pid child s
  push_ready (some child)
  kc_copy context_at child
  fork_resume new_pid
start_child context_at p child new_pid none g = pure error
start_child context_at p child new_pid (some f) none = pure error

-- The part of `ForkHandler` after the page table.
finish_fork : ℕ → ℕ → ℤ → Option ℕ → M ℤ
unfolding start_child
finish_fork context_at p new_pid none = crash
finish_fork context_at p new_pid (some child) = do
  v ← load p
  w ← load child
  store child (record w { current_brk = v.current_brk })
  f ← pop_free_frame
  g ← pop_free_frame
  start_child context_at p child new_pid f g

module _ (at context_at : ℕ) (raw : Pcb) (fresh : ℕ → Pte) (input : ReadBuffer) (new : ℕ)
    (raw_table : ℕ → Pte) (new_pid : ℤ) where
  copy_process : M ℤ
  unfolding copy_pages finish_fork
  copy_process = do
    hw ← gets (λ k. k.hardware)
    (λ k.
        ok tt (record k {
          page_tables = update k.page_tables new (some (blank hw.num_pages raw_table));
        }))
    p ← current
    v ← load p
    cur ← deref v.page_table
    done ← copy_pages cur new 0 hw.num_pages
    if done
        then (do
          child ←
              pcb_new at context_at raw fresh input new_pid (some new) none (some p) v.usr_ctx none
          finish_fork context_at p new_pid child)
        else pure error

  -- `ForkHandler`.
  unfoldable pub fork_handler : M ℤ
  unfolding copy_process count_processes
  fork_handler = do
    n ← count_processes
    hw ← gets (λ k. k.hardware)
    if leb_ℤ (pos hw.max_processes) n
        then pure error
        else (do got ← malloc; if got then copy_process else pure error)
