-- ===== src/Tty.antt =====
-- Terminals: src/datastructures/tty_state.c. An index that is not a terminal's is out of the bounds
-- of the arrays. The array of buffers holds no NULL, as `tty_state_init` gives up on one.
pub mod Boot
pub mod Frame
pub mod Reading
pub mod Calls
pub mod Steps
pub mod Receive
pub mod Read
pub mod Write
pub mod Traps
use cs58_yalnix.Base.{
  ℕ, zero, suc, ◌+◌, ◌-◌, Bool, true, false, ◌&&◌, ◌||◌, Option, none, some, if◌then◌else◌, ltb,
  leb, ◌==◌,
}
use cs58_yalnix.Base.Int.{ℤ, pos, negsuc}
use cs58_yalnix.Kernel.{
  Kernel, Terminal, M, ok, pure, crash, gets, deref, malloc, update, ◌>>=◌, ◌>>◌,
}
use cs58_yalnix.Kernel.Memory.{check_memory_validity}
use cs58_yalnix.Set.{Set}
use cs58_yalnix.Queue.{Queue}
use cs58_yalnix.Ipc.{new_set, new_queue}

-- `MIN`.
abbrev pub min : ℕ → ℕ → ℕ
min a b = if ltb a b then a else b

-- `memset(buffer, 0, size)`, then `memcpy(buffer, bytes, n)`.
abbrev pub filled : (ℕ → ℕ) → (size n : ℕ) → (ℕ → ℕ) → ℕ → ℕ
filled buffer size n bytes i = if ltb i n then bytes i else if ltb i size then 0 else buffer i

-- An array index. A negative one leaves the array.
unfoldable pub index_of : ℤ → M ℕ
index_of (pos i) = pure i
index_of (negsuc i) = crash

-- What the arrays of `current_tty_state` hold at an index.
unfoldable pub terminal_at : ℕ → M Terminal
terminal_at i = do
  n ← gets (λ k. k.hardware.num_terminals)
  state ← gets (λ k. k.tty_state)
  terminals ← deref state
  if ltb i n then pure (terminals i) else crash

unfoldable pub put_terminal : ℕ → Terminal → M (Unit {0})
put_terminal i t = do
  state ← gets (λ k. k.tty_state)
  terminals ← deref state
  (λ k. ok tt (record k { tty_state = some (update terminals i t) }))

-- The entries of a terminal once its set, its buffer and its queue are there.
abbrev fresh_terminal : (ℕ → ℕ) → Option (Set ℕ) → Option (Queue ℕ) → Terminal
fresh_terminal junk readers writers = record {
  availability = true;
  curr_writer = none;
  curr_readers = readers;
  buffer = junk;
  bytes_available = 0;
  write_queue = writers;
}

-- The loop of `tty_state_init` over `n` terminals from `i` on.
init_terminals : ℕ → ℕ → (ℕ → Terminal) → M (Option (ℕ → Terminal))
init_terminals i zero terminals = pure (some terminals)
init_terminals i (suc n) terminals = do
  readers ← new_set
  got ← malloc
  if got
      then (do
        writers ← new_queue
        junk ← gets (λ k. k.junk)
        init_terminals (i + 1) n (update terminals i (fresh_terminal junk readers writers)))
      else pure none

-- `n` calls of `malloc`, up to the first that fails.
allocate_all : ℕ → M Bool
allocate_all zero = pure true
allocate_all (suc n) = do got ← malloc; if got then allocate_all n else pure false

-- `tty_state_init`: the struct, its six arrays, with these contents, and the terminals.
unfoldable pub tty_state_init : (ℕ → Terminal) → M (Option (ℕ → Terminal))
unfolding init_terminals allocate_all
tty_state_init raw = do
  got ← allocate_all 7
  n ← gets (λ k. k.hardware.num_terminals)
  if got then init_terminals 0 n raw else pure none

-- The bytes of region 1 at an address, overwritten through the page table in REG_PTBR1.
unfoldable pub fill_user : ℕ → (size n : ℕ) → (ℕ → ℕ) → M (Unit {0})
fill_user addr size n bytes = do
  table ← gets (λ k. k.ptbr1)
  at ← deref table
  (λ k. ok tt (record k {
    user_mem = update k.user_mem at (λ a.
        if leb addr a
        then filled (λ i. k.user_mem at (addr + i)) size n bytes (a - addr)
        else k.user_mem at a);
  }))

unfoldable pub fill_receipt : Option ℕ → (size n : ℕ) → (ℕ → ℕ) → M (Unit {0})
unfolding fill_user
fill_receipt none size n bytes = pure tt
fill_receipt (some addr) size n bytes = fill_user addr size n bytes

-- What is left of the line moves to the start of the buffer.
unfoldable pub drop_bytes : ℕ → ℕ → Terminal → M (Unit {0})
unfolding put_terminal
drop_bytes i n t = do
  size ← gets (λ k. k.hardware.terminal_max_line)
  if leb t.bytes_available n
      then put_terminal i
          (record t { bytes_available = 0; buffer = filled t.buffer size 0 t.buffer })
      else (do
        got ← malloc
        if got
            then put_terminal i (record t {
              bytes_available = t.bytes_available - n;
              buffer = filled t.buffer size (t.bytes_available - n) (λ j. t.buffer (n + j));
            })
            else pure tt)

unfoldable pub valid_receipt : Option ℕ → M Bool
valid_receipt none = pure true
valid_receipt (some addr) = check_memory_validity addr

unfoldable pub consume_bytes : Option ℕ → ℕ → ℕ → Terminal → M (Unit {0})
unfolding fill_receipt drop_bytes
consume_bytes receipt i n t = if ltb t.bytes_available 1 then pure tt else (do
  fill_receipt receipt n (min n t.bytes_available) t.buffer
  drop_bytes i (min n t.bytes_available) t)

unfoldable pub consume_from : Option ℕ → ℕ → ℕ → Option (ℕ → Terminal) → M (Unit {0})
unfolding valid_receipt terminal_at consume_bytes
consume_from receipt i n none = pure tt
consume_from receipt i n (some terminals) = do
  hw ← gets (λ k. k.hardware)
  if ltb n 1 || ltb hw.terminal_max_line n || ltb hw.num_terminals i then pure tt else (do
    valid ← valid_receipt receipt
    if valid then (do t ← terminal_at i; consume_bytes receipt i n t) else pure tt)

-- `tty_buffer_consume`. Its checks have no effect, so a negative argument ends it.
unfoldable pub tty_buffer_consume : Option ℕ → ℤ → ℤ → M (Unit {0})
unfolding consume_from
tty_buffer_consume receipt (negsuc i) n = pure tt
tty_buffer_consume receipt (pos i) (negsuc n) = pure tt
tty_buffer_consume receipt (pos i) (pos n) = do
  state ← gets (λ k. k.tty_state)
  consume_from receipt i n state
