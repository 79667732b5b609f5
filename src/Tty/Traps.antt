-- ===== src/Tty/Traps.antt =====
-- `TrapTTYReceiveHandler` and `TrapTTYTransmitHandler` of src/traps.c. `TtyReceive` is the
-- terminal's: the line that it hands over, at most TERMINAL_MAX_LINE bytes, is a parameter. The
-- result of a handler is the user context that it leaves, `none` where it leaves that as it was.
pub mod Keeps
use cs58_yalnix.Base.{ℕ, Bool, true, ◌||◌, Option, none, some, if◌then◌else◌, ltb}
use cs58_yalnix.Base.Int.{ℤ, pos, ltb_ℤ, is_neg}
use cs58_yalnix.Kernel.{Kernel, UserContext, Terminal, M, pure, gets, deref, load, ◌>>=◌, ◌>>◌}
use cs58_yalnix.Kernel.Scheduler.{schedule_next_process}
use cs58_yalnix.Tty.{filled, index_of, terminal_at, put_terminal}
use cs58_yalnix.Tty.Receive.{tty_handle_received}
use cs58_yalnix.Tty.Write.{unblock_writer}

leave_to : Option ℕ → M (Option UserContext)
leave_to none = do schedule_next_process; pure none
leave_to (some p) = do v ← load p; context ← deref v.usr_ctx; pure (some context)

-- The end of a handler: the context of the process that runs now.
unfoldable pub leave_trap : M (Option UserContext)
unfolding leave_to
leave_trap = do p ← gets (λ k. k.current_process); leave_to p

abbrev no_terminal : Kernel → ℤ → Bool
no_terminal k code = is_neg code || ltb_ℤ (pos k.hardware.num_terminals) code

-- `TrapTTYReceiveHandler`, given the addresses for new read buffers, and the `n` bytes of the line.
unfoldable pub trap_tty_receive_handler :
    (heap : ℕ → ℕ) (line : ℕ → ℕ) (n : ℕ) → ℤ → M (Option UserContext)
unfolding leave_trap index_of
trap_tty_receive_handler heap line n code = do
  bad ← gets (λ k. no_terminal k code)
  if bad then pure none else (do
    i ← index_of code
    t ← terminal_at i
    put_terminal i (record t { buffer = filled t.buffer 0 n line })
    tty_handle_received heap code (pos n)
    leave_trap)

wake_writer : ℕ → Terminal → Option ℕ → M (Unit {0})
wake_writer i t none = put_terminal i (record t { availability = true })
wake_writer i t (some p) = unblock_writer p

writer_done : ℤ → Option (ℕ → Terminal) → M (Option UserContext)
unfolding leave_trap index_of wake_writer
writer_done code none = pure none
writer_done code (some _) = do
  i ← index_of code
  t ← terminal_at i
  wake_writer i t t.curr_writer
  leave_trap

-- `TrapTTYTransmitHandler`.
unfoldable pub trap_tty_transmit_handler : ℤ → M (Option UserContext)
unfolding writer_done
trap_tty_transmit_handler code = do
  bad ← gets (λ k. no_terminal k code)
  state ← gets (λ k. k.tty_state)
  if bad then pure none else writer_done code state
