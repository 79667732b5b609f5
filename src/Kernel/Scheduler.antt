-- ===== src/Kernel/Scheduler.antt =====
-- The scheduler of src/kernel.c: `KCSwitch`, `enqueue_current_process` and `ScheduleNextProcess`.
-- `KernelContextSwitch` is the hardware's; its effect on the kernel's state is that of `KCSwitch`.
pub mod Laws
pub mod Frame
pub mod Turns
use cs58_yalnix.Base.{
  ℕ, Bool, true, false, Option, none, some, if◌then◌else◌, ◌+◌, ◌-◌, ltb, leb, ◌&&◌,
}
use cs58_yalnix.Kernel.{
  Kernel, Pcb, Pte, ProcessState, ready, blocked, running, dead, delayed, M, ok, pure, crash, gets,
  deref, ◌>>=◌, ◌>>◌, load, store, current, push_ready, pop_ready, insert_blocked, insert_delayed,
  insert_dead,
}
use cs58_yalnix.Kernel.Memory.{check_memory_validity, address}

-- The region 0 pages of the kernel stack begin here.
abbrev pub stack_base : Kernel → ℕ
stack_base k = k.hardware.num_pages - k.hardware.num_kstack_frames

-- `curr_pcb->kernel_stack_pages[i] = region_0_pages[base + i]` for each stack page.
abbrev pub saved_pages : Kernel → (ℕ → Pte) → ℕ → Pte
saved_pages k old i =
    if ltb i k.hardware.num_kstack_frames then k.region_0_pages (stack_base k + i) else old i

-- `region_0_pages[base + i] = next_pcb->kernel_stack_pages[i]` for each stack page.
abbrev pub loaded_pages : Kernel → (ℕ → Pte) → ℕ → Pte
loaded_pages k pages i =
    if leb (stack_base k) i && ltb i (stack_base k + k.hardware.num_kstack_frames)
    then pages (i - stack_base k)
    else k.region_0_pages i

-- The stack pages are noted if the block has both a kernel context and room for them.
note_pages : ℕ → Pcb → Option ℕ → Option (ℕ → Pte) → M (Unit {0})
note_pages p v (some context) (some old) k =
    store p (record v { kernel_stack_pages = some (saved_pages k old) }) k
note_pages p v none old k = ok tt k
note_pages p v (some context) none k = ok tt k

-- The kernel stack of the process that loses the CPU is noted in its block.
save_context : Option ℕ → M (Unit {0})
unfolding note_pages
save_context none = pure tt
save_context (some p) = do v ← load p; note_pages p v v.krn_ctx v.kernel_stack_pages

load_context : ℕ → M (Unit {0})
load_context p = do
  v ← load p
  pages ← deref v.kernel_stack_pages
  (λ k. ok tt (record k { region_0_pages = loaded_pages k pages; current_process = some p }))

-- A NULL current block passes the check.
valid_block : Option ℕ → M Bool
valid_block none = pure true
valid_block (some p) = check_memory_validity p

-- `KCSwitch`. Where a check fails it returns `kc_in`: the same process goes on.
unfoldable pub kc_switch : Option ℕ → ℕ → M (Unit {0})
unfolding save_context load_context valid_block
kc_switch curr next = do
  valid ← valid_block curr
  if valid
      then (do
        v ← load next
        valid' ← check_memory_validity (address v.krn_ctx)
        if valid' then (do save_context curr; load_context next) else pure tt)
      else pure tt

-- The queue or set that the current process goes to, by its state. Their results are ignored.
enqueue_as : ProcessState → ℕ → Pcb → M (Unit {0})
enqueue_as ready p v = do push_ready (some p); pure tt
enqueue_as dead p v = do insert_dead v.pid (some p); pure tt
enqueue_as blocked p v = do insert_blocked v.pid (some p); pure tt
enqueue_as delayed p v = do insert_delayed v.pid (some p); pure tt
enqueue_as running p v = pure tt

enqueue_process : Option ℕ → M (Unit {0})
unfolding enqueue_as
enqueue_process none = pure tt
enqueue_process (some p) = do v ← load p; enqueue_as v.state p v

unfoldable pub enqueue_current_process : M (Unit {0})
unfolding enqueue_process
enqueue_current_process = do p ← gets (λ k. k.current_process); enqueue_process p

-- `WriteRegister(REG_PTBR1, p->page_table)`, then the context switch from the current process.
unfoldable pub switch_to : ℕ → M (Unit {0})
switch_to p = do
  v ← load p
  (λ k. ok tt (record k { ptbr1 = v.page_table }))
  curr ← gets (λ k. k.current_process)
  kc_switch curr p

-- The ready queue was empty before the current process was put back. Where it holds a process now,
-- that is the current one, and no switch takes place.
run_idle : Option ℕ → M (Unit {0})
run_idle (some p) = pure tt
run_idle none = do idle ← gets (λ k. k.idle_process); p ← deref idle; switch_to p

run_next : Option ℕ → M (Unit {0})
unfolding run_idle
run_next none = do enqueue_current_process; p ← pop_ready; run_idle p
run_next (some p) = do enqueue_current_process; switch_to p

-- `ScheduleNextProcess`.
unfoldable pub schedule_next_process : M (Unit {0})
unfolding run_next
schedule_next_process = do p ← pop_ready; run_next p
