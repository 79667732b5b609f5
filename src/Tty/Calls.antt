-- ===== src/Tty/Calls.antt =====
-- Everything that can happen to the terminals, in any order: the system calls on them, what is left
-- of one once its process runs again, the traps, and any other call of the scheduler.
pub mod Invariant
pub mod Exclusive
use cs58_yalnix.Base.{ℕ, Bool, false, List, [], ◌∷◌, ◌==◌}
use cs58_yalnix.Base.Int.{ℤ}
use cs58_yalnix.Kernel.{M, pure, ◌>>◌}
use cs58_yalnix.Kernel.Scheduler.{schedule_next_process}
use cs58_yalnix.Tty.Read.{tty_read_handler, tty_read_resume}
use cs58_yalnix.Tty.Write.{tty_write_handler, await_terminal, tty_write_resume}
use cs58_yalnix.Tty.Traps.{trap_tty_receive_handler, trap_tty_transmit_handler}

pub data TtyCall : Type 0 where
  read : (tty_id : ℤ) (buf : ℕ) (len : ℤ) → TtyCall
  read_resumed : (i buf : ℕ) → TtyCall
  write : (tty_id : ℤ) (buf : ℕ) (len : ℤ) → TtyCall
  wait_resumed : (i buf : ℕ) (len : ℤ) → TtyCall
  write_resumed : (i : ℕ) (bytes : ℕ → ℕ) (len start : ℕ) → TtyCall
  received : (heap line : ℕ → ℕ) (n : ℕ) (code : ℤ) → TtyCall
  transmitted : (code : ℤ) → TtyCall
  scheduled : TtyCall

unfoldable pub run_call : TtyCall → M (Unit {0})
run_call (read tty_id buf len) = do tty_read_handler tty_id buf len; pure tt
run_call (read_resumed i buf) = do tty_read_resume i buf; pure tt
run_call (write tty_id buf len) = do tty_write_handler tty_id buf len; pure tt
run_call (wait_resumed i buf len) = do await_terminal i buf len; pure tt
run_call (write_resumed i bytes len start) = do tty_write_resume i bytes len start; pure tt
run_call (received heap line n code) = do trap_tty_receive_handler heap line n code; pure tt
run_call (transmitted code) = do trap_tty_transmit_handler code; pure tt
run_call scheduled = schedule_next_process

unfoldable pub run : List TtyCall → M (Unit {0})
unfolding run_call
run [] = pure tt
run (call ∷ calls) = do run_call call; run calls
