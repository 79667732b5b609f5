-- ===== src/Tty/Read.antt =====
-- `TtyReadHandler` of src/syscall_handlers/input_output.c.
pub mod Keeps
pub mod Immediate
use cs58_yalnix.Base.{ℕ, Bool, true, false, not, ◌||◌, Option, none, some, if◌then◌else◌, ltb, ◌==◌}
use cs58_yalnix.Base.Int.{ℤ, pos, negsuc}
use cs58_yalnix.Kernel.{
  Kernel, Pcb, blocked, ReadBuffer, Terminal, M, ok, pure, crash, gets, deref, load, store, current,
  Outcome, returned, paused, tty_read_wait, ◌>>=◌, ◌>>◌,
}
use cs58_yalnix.Kernel.Memory.{check_memory_validity, get_raw_page_no}
use cs58_yalnix.Kernel.Scheduler.{schedule_next_process}
use cs58_yalnix.Set
use cs58_yalnix.Set.{Set}
use cs58_yalnix.Ipc.{error}
use cs58_yalnix.Ipc.Pipes.{bad_buffer}
use cs58_yalnix.Tty.{index_of, terminal_at, put_terminal, fill_user, tty_buffer_consume}

abbrev is_none : {A : Type 0} → Option A → Bool
is_none none = true
is_none (some _) = false

-- The first check of `TtyReadHandler`. Its second check, `tty_id > NUM_TERMINALS < tty_id < 0`,
-- compares a truth value with 0 and never holds.
unfoldable pub bad_read : ℕ → M Bool
bad_read buf = if buf == 0 then pure true else (do
  bad ← bad_buffer buf
  gets (λ k. bad || ltb 255 (get_raw_page_no k.hardware buf) || is_none k.tty_state))

-- `set_insert` and `set_pop` on a set that may be NULL. Their results are ignored.
insert_reader : ℕ → ℤ → ℕ → Terminal → Option (Set ℕ) → M (Unit {0})
insert_reader i key p t none = pure tt
insert_reader i key p t (some s) = do
  m ← gets (λ k. k.mem)
  put_terminal i (record t { curr_readers = some (Set.insert s key (some p) m).1 })
  (λ k. ok tt (record k { mem = (Set.insert s key (some p) m).2 }))

remove_reader : ℕ → ℤ → Terminal → Option (Set ℕ) → M (Unit {0})
remove_reader i key t none = pure tt
remove_reader i key t (some s) = put_terminal i (record t { curr_readers = some (Set.pop s key).1 })

-- No bytes are there: the process waits for the next line.
await_line : ℕ → ℕ → ℤ → Terminal → M Outcome
unfolding insert_reader
await_line i buf len t = do
  p ← current
  v ← load p
  store p
      (record v { state = blocked; tty_num_bytes_requested = len; tty_read_buffer_r1 = some buf })
  insert_reader i v.pid p t t.curr_readers
  schedule_next_process
  pure (paused (tty_read_wait i buf))

-- `TtyReadHandler`, up to its call of the scheduler.
unfoldable pub tty_read_handler : ℤ → ℕ → ℤ → M Outcome
unfolding bad_read await_line index_of
tty_read_handler tty_id buf len = do
  bad ← bad_read buf
  if bad then pure (returned error) else (do
    i ← index_of tty_id
    t ← terminal_at i
    if ltb 0 t.bytes_available
        then (do tty_buffer_consume (some buf) tty_id len; pure (returned (pos 0)))
        else await_line i buf len t)

abbrev buffer_address : Option ReadBuffer → ℕ
buffer_address none = 0
buffer_address (some b) = b.address

copy_line : ℕ → ℕ → ℤ → Option ReadBuffer → M Outcome
unfolding remove_reader
copy_line i buf (negsuc n) into = crash
copy_line i buf (pos n) none = pure (returned error)
copy_line i buf (pos n) (some b) = do
  fill_user buf 0 n b.bytes
  p ← current
  v ← load p
  t ← terminal_at i
  remove_reader i v.pid t t.curr_readers
  pure (returned (pos 0))

-- Where `TtyReadHandler` goes on once the process runs again.
unfoldable pub tty_read_resume : ℕ → ℕ → M Outcome
unfolding copy_line
tty_read_resume i buf = do
  p ← current
  v ← load p
  valid ← check_memory_validity (buffer_address v.tty_read_buffer_r0)
  if not valid || is_none v.tty_read_buffer_r0
      then pure (returned error)
      else copy_line i buf v.tty_num_bytes_read v.tty_read_buffer_r0
