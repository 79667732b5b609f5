-- ===== src/Loader/Memory.antt =====
-- The parts of `LoadProgram` that change the memory of a process, and `free_page_frame`, which it
-- calls for region 1.
pub mod Arguments
pub mod Faults
pub mod Keeps
use cs58_yalnix.Base.{
  ℕ, zero, suc, ◌+◌, ◌-◌, ◌*◌, ◌/◌, ◌%◌, ◌^◌, Bool, true, false, ◌&&◌, Option, none, some, List, [],
  ◌∷◌, length, if◌then◌else◌, ltb, leb,
}
use cs58_yalnix.Base.Int.{ℤ, pos, negsuc, ◌==ℤ◌}
use cs58_yalnix.Kernel.{
  Hardware, Kernel, Pte, M, ok, pure, gets, deref, malloc, push_free_frame, update, ◌>>=◌, ◌>>◌,
}
use cs58_yalnix.Kernel.Memory.{check_memory_validity}
use cs58_yalnix.Vm.UserMemory.{entry_at, put_entry}
use cs58_yalnix.Loader.{ProgramFile, base_1, limit_1, minus}

-- `n` bytes at an address.
abbrev pub with_bytes : ℕ → ℕ → (ℕ → ℕ) → (ℕ → ℕ) → ℕ → ℕ
with_bytes addr n bytes mem a = if leb addr a && ltb a (addr + n) then bytes (a - addr) else mem a

-- What region 1 holds, changed through the page table in REG_PTBR1.
unfoldable pub change_bytes : ((ℕ → ℕ) → ℕ → ℕ) → M (Unit {0})
change_bytes f = do
  table ← gets (λ k. k.ptbr1)
  at ← deref table
  (λ k. ok tt (record k { user_mem = update k.user_mem at (f (k.user_mem at)) }))

-- The frame number goes on the free frame queue, if `malloc` gives a block for it; the result of the
-- push is ignored.
release_number : ℕ → M (Unit {0})
release_number f = do got ← malloc; if got then (do push_free_frame f; pure tt) else pure tt

-- `free_page_frame(1, page)`.
unfoldable pub free_page_frame : ℕ → M (Unit {0})
unfolding change_bytes release_number
free_page_frame page = do
  hw ← gets (λ k. k.hardware)
  let addr = base_1 hw + page * hw.page_size
  valid ← check_memory_validity addr
  if valid
      then (do
        change_bytes (with_bytes addr hw.page_size (λ _. 0))
        table ← gets (λ k. k.ptbr1)
        at ← deref table
        e ← entry_at at page
        put_entry at page (record e { valid = false; prot = 0 })
        release_number e.pfn)
      else pure tt

-- The loop over `n` pages from `i` on of the table that was in REG_PTBR1 before.
unfoldable pub free_old_pages : ℕ → ℕ → ℕ → M (Unit {0})
unfolding free_page_frame
free_old_pages table i zero = pure tt
free_old_pages table i (suc n) = do
  e ← entry_at table i
  if e.valid then free_page_frame i else pure tt
  free_old_pages table (i + 1) n

-- The new entries are copied into the table of the process, which goes into REG_PTBR1. Its pages then
-- hold what their frames held before.
unfoldable pub install_table : ℕ → (ℕ → Pte) → (ℕ → ℕ) → M (Unit {0})
install_table table entries stale = do
  n ← gets (λ k. k.hardware.num_pages)
  tables ← gets (λ k. k.page_tables table)
  old ← deref tables
  (λ k. ok tt (record k {
    page_tables = update k.page_tables table (some (λ i. if ltb i n then entries i else old i));
    ptbr1 = some table;
    user_mem = update k.user_mem table stale;
  }))

-- The bytes that a result of `read` stands for.
abbrev pub read_count : ℤ → ℕ
read_count (pos n) = n
read_count (negsuc n) = 0

-- A segment of the file is read to its address, as far as `read` comes; `false` where it does not
-- give all bytes.
unfoldable pub read_segment : ProgramFile → (offset npg vaddr : ℕ) → M Bool
unfolding change_bytes
read_segment file offset npg vaddr = do
  hw ← gets (λ k. k.hardware)
  let size = npg * hw.page_size % 2 ^ 32
  let (count, bytes) = file.read offset size
  change_bytes (with_bytes vaddr (read_count count) bytes)
  pure (count ==ℤ pos size)

-- The loop over the `n` pages of the text from `i` on.
unfoldable pub protect_text : ℕ → ℕ → ℕ → M (Unit {0})
protect_text table i zero = pure tt
protect_text table i (suc n) = do
  hw ← gets (λ k. k.hardware)
  e ← entry_at table i
  if e.valid then put_entry table i (record e { prot = hw.prot_read_exec }) else pure tt
  protect_text table (i + 1) n

-- A word at an address, and a string with its NUL.
abbrev pub with_word : ℕ → ℕ → (ℕ → ℕ) → ℕ → ℕ
with_word addr w mem a =
    if leb addr a && ltb a (addr + 4) then w / 256 ^ (a - addr) % 256 else mem a

abbrev pub with_string : ℕ → List ℕ → (ℕ → ℕ) → ℕ → ℕ
with_string addr [] mem = with_bytes addr 1 (λ _. 0) mem
with_string addr (c ∷ cs) mem = with_string (addr + 1) cs (with_bytes addr 1 (λ _. c) mem)

-- The loop that builds the argument list: the words from `cpp` on, the strings from `cp` on.
unfoldable pub with_args : ℕ → ℕ → List (List ℕ) → (ℕ → ℕ) → ℕ → ℕ
with_args cpp cp [] mem = mem
with_args cpp cp (a ∷ args) mem =
    with_args (cpp + 4) (cp + length a + 1) args (with_string cp a (with_word cpp cp mem))

-- The new stack: zeros, the number of arguments, the arguments, and two NULL pointers.
unfoldable pub new_stack : Hardware → ℕ → ℕ → List (List ℕ) → (ℕ → ℕ) → ℕ → ℕ
unfolding with_args
new_stack hw cpp cp args mem =
    let cleared = with_bytes cpp (limit_1 hw - cpp) (λ _. 0) mem in
    let words_end = cpp + 4 + 4 * length args in
    let listed = with_args (cpp + 4) cp args (with_word cpp (length args) cleared) in
    with_word (words_end + 4) 0 (with_word words_end 0 listed)
