-- ===== src/Process/Delay.antt =====
-- `DelayHandler` and `GetPidHandler` of src/syscall_handlers/process_coordination.c, and the clock
-- trap of src/traps.c that ends a delay.
pub mod Countdown
pub mod Clock
use cs58_yalnix.Base.{ℕ, some, List, [], ◌∷◌, if◌then◌else◌}
use cs58_yalnix.Base.Int.{ℤ, pos, negsuc, ◌-ℤ◌, ◌==ℤ◌, is_neg, leb_ℤ}
use cs58_yalnix.Kernel.{
  UserContext, save_user_context, M, pure, ◌>>=◌, ◌>>◌, gets, load, store, current, current_pid,
  ready, delayed, set_state, pop_delayed, push_ready, Outcome, returned, paused, delay_over,
  clock_over,
}
use cs58_yalnix.Kernel.Scheduler.{schedule_next_process}

-- `GetPidHandler`.
unfoldable pub get_pid_handler : M ℤ
get_pid_handler = current_pid

sleep : ℤ → M Outcome
sleep ticks = do
  p ← current
  v ← load p
  store p (record v { delay_ticks = ticks; state = delayed })
  schedule_next_process
  pure (paused delay_over)

-- `DelayHandler`.
unfoldable pub delay_handler : ℤ → M Outcome
unfolding sleep
delay_handler ticks =
    if ticks ==ℤ pos 0
    then pure (returned (pos 0))
    else if is_neg ticks
    then pure (returned (negsuc 0))
    else sleep ticks

-- One round of the loop of `TrapClockHandler`.
unfoldable pub tick_process : ℕ → M (Unit {0})
tick_process p = do
  v ← load p
  let left = v.delay_ticks -ℤ pos 1
  store p (record v { delay_ticks = left })
  if leb_ℤ left (pos 0)
      then (do pop_delayed v.pid; set_state p ready; push_ready (some p); pure tt)
      else pure tt

-- The loop, over the nodes of the delayed set. A round removes only the node that it has left, as
-- the keys of the set are the pids.
unfoldable pub tick_all : List (ℤ × ℕ) → M (Unit {0})
unfolding tick_process
tick_all [] = pure tt
tick_all ((_, p) ∷ nodes) = do tick_process p; tick_all nodes

-- The part of `TrapClockHandler` between the copy of the user context and the scheduler.
unfoldable pub count_down : M (Unit {0})
unfolding tick_all
count_down = do s ← gets (λ k. k.delayed_pcbs); tick_all s.nodes

-- `TrapClockHandler`, up to the return of the scheduler, with the context of the user.
unfoldable pub trap_clock_handler : UserContext → M Outcome
unfolding count_down
trap_clock_handler u = do
  save_user_context u
  count_down
  schedule_next_process
  pure (paused clock_over)
