-- ===== src/Tty/Write.antt =====
-- `TtyWriteHandler` of src/syscall_handlers/input_output.c. `TtyTransmit` is the terminal's: its
-- calls are recorded.
pub mod Keeps
pub mod Chunks
pub mod Pauses
pub mod Rounds
pub mod Blocking
use cs58_yalnix.Base.{
  ℕ, zero, suc, ◌+◌, ◌-◌, Bool, true, false, ◌||◌, Option, none, some, List, [], ◌∷◌, ◌++◌,
  if◌then◌else◌, ltb,
}
use cs58_yalnix.Base.Int.{ℤ, pos, negsuc, ltb_ℤ, is_neg}
use cs58_yalnix.Kernel.{
  Kernel, Pcb, ready, blocked, Terminal, M, ok, pure, crash, gets, deref, load, store, malloc,
  current, pop_blocked, push_ready, Outcome, returned, paused, tty_write_wait, tty_write_loop,
  tty_write_over, ◌>>=◌, ◌>>◌,
}
use cs58_yalnix.Kernel.Scheduler.{schedule_next_process}
use cs58_yalnix.Queue
use cs58_yalnix.Queue.{Queue}
use cs58_yalnix.Ipc.{error}
use cs58_yalnix.Ipc.Pipes.{bad_buffer, user_bytes}
use cs58_yalnix.Tty.{min, index_of, terminal_at, put_terminal}

-- The `n` bytes from `start` on.
abbrev pub segment : (ℕ → ℕ) → ℕ → ℕ → List ℕ
segment bytes start zero = []
segment bytes start (suc n) = bytes start ∷ segment bytes (start + 1) n

-- `TtyTransmit`.
unfoldable pub transmit : ℕ → List ℕ → M (Unit {0})
transmit i chunk k = ok tt (record k { transmitted = k.transmitted ++ (i, chunk) ∷ [] })

-- `queue_push` and `queue_pop` on a queue that may be NULL.
push_writer : ℕ → ℕ → Terminal → Option (Queue ℕ) → M (Unit {0})
push_writer i p t none = pure tt
push_writer i p t (some q) = do
  m ← gets (λ k. k.mem)
  put_terminal i (record t { write_queue = some (Queue.push q (some p) m).1 })
  (λ k. ok tt (record k { mem = (Queue.push q (some p) m).2 }))

unfoldable pub pop_writer : ℕ → Terminal → Option (Queue ℕ) → M (Option ℕ)
pop_writer i t none = pure none
pop_writer i t (some q) = do
  put_terminal i (record t { write_queue = some (Queue.pop q).1 })
  pure (Queue.pop q).0

-- A process that is blocked on a write becomes ready.
unfoldable pub unblock_writer : ℕ → M (Unit {0})
unblock_writer p = do
  v ← load p
  store p (record v { state = ready; tty_write_waiting = false })
  pop_blocked v.pid
  push_ready (some p)
  pure tt

block_writer : ℕ → M (Unit {0})
block_writer p = do v ← load p; store p (record v { state = blocked; tty_write_waiting = true })

unfoldable pub unblock_next : Option ℕ → M Outcome
unfolding unblock_writer
unblock_next none = pure (returned (pos 0))
unblock_next (some q) = do unblock_writer q; schedule_next_process; pure (paused tty_write_over)

-- All bytes are sent.
unfoldable pub finish_write : ℕ → M Outcome
unfolding pop_writer unblock_next
finish_write i = do
  p ← current
  v ← load p
  store p (record v { tty_write_waiting = false })
  t ← terminal_at i
  let idle = record t { availability = true; curr_writer = none }
  put_terminal i idle
  next ← pop_writer i idle idle.write_queue
  unblock_next next

-- The `for` loop of `TtyWriteHandler` from `start` on, up to its call of the scheduler.
unfoldable pub transmit_from : ℕ → (ℕ → ℕ) → (len start : ℕ) → M Outcome
unfolding finish_write block_writer transmit
transmit_from i bytes len start =
    if ltb start len
    then (do
      size ← gets (λ k. k.hardware.terminal_max_line)
      p ← current
      t ← terminal_at i
      put_terminal i (record t { curr_writer = some p })
      transmit i (segment bytes start (min (len - start) size))
      block_writer p
      schedule_next_process
      pure (paused (tty_write_loop i bytes len start)))
    else finish_write i

-- Where the loop goes on: `start_byte += TERMINAL_MAX_LINE`.
unfoldable pub tty_write_resume : ℕ → (ℕ → ℕ) → (len start : ℕ) → M Outcome
unfolding transmit_from
tty_write_resume i bytes len start = do
  size ← gets (λ k. k.hardware.terminal_max_line)
  transmit_from i bytes len (start + size)

-- `memcpy` of a negative length leaves its arrays.
copy_and_send : ℕ → ℕ → Terminal → ℤ → M Outcome
unfolding transmit_from
copy_and_send i buf t (negsuc n) = crash
copy_and_send i buf t (pos n) = do
  user ← user_bytes
  p ← current
  put_terminal i (record t { curr_writer = some p; availability = false })
  transmit_from i (λ j. user (buf + j)) n 0

-- The loop of `TtyWriteHandler` that waits for the terminal, also where the process comes back to,
-- and what follows it.
unfoldable pub await_terminal : ℕ → ℕ → ℤ → M Outcome
unfolding copy_and_send block_writer push_writer
await_terminal i buf len = do
  t ← terminal_at i
  if t.availability
      then (do got ← malloc; if got then copy_and_send i buf t len else pure (returned error))
      else (do
        p ← current
        block_writer p
        push_writer i p t t.write_queue
        schedule_next_process
        pure (paused (tty_write_wait i buf len)))

-- `TtyWriteHandler`, up to its first call of the scheduler.
unfoldable pub tty_write_handler : ℤ → ℕ → ℤ → M Outcome
unfolding await_terminal index_of
tty_write_handler tty_id buf len = do
  bad ← bad_buffer buf
  n ← gets (λ k. k.hardware.num_terminals)
  if bad || is_neg tty_id || ltb_ℤ (pos n) tty_id
      then pure (returned error)
      else (do i ← index_of tty_id; await_terminal i buf len)
