-- ===== src/Vm/UserMemory.antt =====
-- The memory of a process grows: `BrkHandler` of src/syscall_handlers/process_coordination.c and
-- `TrapMemoryHandler` of src/traps.c.
pub mod Frames
pub mod Brk
use cs58_yalnix.Base.{
  ℕ, zero, suc, ◌+◌, ◌-◌, ◌*◌, ◌/◌, ◌%◌, ◌^◌, Bool, true, false, ◌&&◌, Option, none, some, List, [],
  ◌∷◌, if◌then◌else◌, ltb, leb,
}
use cs58_yalnix.Base.Int.{ℤ, pos}
use cs58_yalnix.Kernel.{
  Hardware, Kernel, Pcb, Pte, M, ok, pure, crash, gets, deref, load, store, current, update, ◌>>=◌,
  ◌>>◌,
}
use cs58_yalnix.Kernel.Scheduler.{schedule_next_process}
use cs58_yalnix.Process.Exit.{exit_handler}
use cs58_yalnix.Ipc.{error}
use cs58_yalnix.Vm.{pop_free_frame, up_to_page, down_to_page}

-- An entry of the page table at an address, read and written.
unfoldable pub entry_at : ℕ → ℕ → M Pte
entry_at table i = do
  n ← gets (λ k. k.hardware.num_pages)
  tables ← gets (λ k. k.page_tables table)
  entries ← deref tables
  if ltb i n then pure (entries i) else crash

unfoldable pub put_entry : ℕ → ℕ → Pte → M (Unit {0})
put_entry table i e = do
  tables ← gets (λ k. k.page_tables table)
  entries ← deref tables
  (λ k. ok tt (record k { page_tables = update k.page_tables table (some (update entries i e)) }))

-- A page that was not mapped gets a frame from the free frame queue.
map_entry : ℕ → ℕ → Option ℕ → M Bool
unfolding put_entry
map_entry table i none = pure false
map_entry table i (some f) = do
  hw ← gets (λ k. k.hardware)
  put_entry table i (record { valid = true; prot = hw.prot_read_write; pfn = f })
  pure true

-- The loops of both handlers over these pages; `false` where no frame is left.
unfoldable pub allocate_pages : ℕ → List ℕ → M Bool
unfolding entry_at map_entry
allocate_pages table [] = pure true
allocate_pages table (i ∷ pages) = do
  e ← entry_at table i
  if e.valid then allocate_pages table pages else (do
    f ← pop_free_frame
    done ← map_entry table i f
    if done then allocate_pages table pages else pure false)

-- `n` pages from `i` up, and from `i` down.
abbrev pub pages_up : ℕ → ℕ → List ℕ
pages_up i zero = []
pages_up i (suc n) = i ∷ pages_up (i + 1) n

abbrev pub pages_down : ℕ → ℕ → List ℕ
pages_down i zero = []
pages_down i (suc n) = i ∷ pages_down (i - 1) n

set_brk : ℕ → ℕ → M ℤ
set_brk p addr = do
  hw ← gets (λ k. k.hardware)
  v ← load p
  store p (record v { current_brk = up_to_page hw addr * hw.page_size })
  pure (pos 0)

-- The break goes up. The loop begins one page below the old break.
grow_heap : ℕ → Pcb → ℕ → M ℤ
unfolding allocate_pages set_brk
grow_heap p v addr = do
  hw ← gets (λ k. k.hardware)
  table ← deref v.page_table
  let first = down_to_page hw v.current_brk - hw.num_pages - 1
  let last = down_to_page hw addr - hw.num_pages
  if ltb (down_to_page hw v.current_brk) (hw.num_pages + 1) then crash else (do
    done ← allocate_pages table (pages_up first (last + 1 - first))
    if done then set_brk p addr else pure error)

-- The break goes down. A round of the loop puts the address of a local variable on the free frame
-- queue, which outlives it; that is taken for a fault here.
lower_heap : ℕ → Pcb → ℕ → M ℤ
unfolding set_brk
lower_heap p v addr = do
  hw ← gets (λ k. k.hardware)
  if ltb (down_to_page hw addr) (down_to_page hw v.current_brk) then crash else set_brk p addr

-- The lowest address of the page of the user stack's pointer.
abbrev pub stack_page : Hardware → ℕ → ℕ
stack_page hw sp = down_to_page hw sp * hw.page_size

-- `BrkHandler`.
unfoldable pub brk_handler : ℕ → M ℤ
unfolding grow_heap lower_heap
brk_handler addr = do
  p ← current
  v ← load p
  u ← deref v.usr_ctx
  hw ← gets (λ k. k.hardware)
  if leb (stack_page hw u.sp) addr
      then pure error
      else if ltb v.current_brk addr
      then grow_heap p v addr
      else if ltb addr v.current_brk
      then lower_heap p v addr
      else pure (pos 0)

-- The process is killed.
kill_current : M (Unit {0})
kill_current = do exit_handler error; schedule_next_process

-- The loop of `TrapMemoryHandler` goes down from the last page.
grow_stack : Pcb → ℕ → M (Unit {0})
unfolding allocate_pages kill_current
grow_stack v addr = do
  hw ← gets (λ k. k.hardware)
  table ← deref v.page_table
  if ltb (down_to_page hw addr) hw.num_pages then crash else (do
    done ←
        allocate_pages table
          (pages_down (hw.num_pages - 1) (hw.num_pages * 2 - down_to_page hw addr))
    if done then pure tt else kill_current)

-- `TrapMemoryHandler`, given the address that was touched. The stack pointer is the one that was
-- saved when the process last entered the kernel by a trap that saves it.
unfoldable pub trap_memory_handler : ℕ → M (Unit {0})
unfolding grow_stack kill_current
trap_memory_handler addr = do
  p ← current
  v ← load p
  u ← deref v.usr_ctx
  hw ← gets (λ k. k.hardware)
  if leb (stack_page hw u.sp) addr
      then kill_current
      else if ltb ((v.current_brk + hw.page_size) % 2 ^ 32) addr
          && ltb addr (hw.num_pages * 2 * hw.page_size)
      then grow_stack v addr
      else kill_current
