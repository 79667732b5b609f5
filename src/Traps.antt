-- ===== src/Traps.antt =====
-- The traps of src/traps.c that lead to system calls or kill the process, and `ExecHandler` of
-- src/syscall_handlers/process_coordination.c. Parameters stand for the numbers of the system calls
-- in yalnix.h, for the files, for `LoadProgram`, which reads them, and for what `malloc` and
-- `helper_new_pid` give to `ForkHandler`.
pub mod Guards
pub mod Exec
use cs58_yalnix.Base.{
  ℕ, ◌+◌, ◌-◌, ◌*◌, ◌/◌, ◌^◌, Bool, true, false, ◌||◌, not, Option, none, some, if◌then◌else◌, ltb,
  leb, ◌==◌,
}
use cs58_yalnix.Base.Int.{ℤ, pos, negsuc, ◌==ℤ◌}
use cs58_yalnix.Kernel.{
  save_user_context, Hardware, Kernel, Pcb, Pte, UserContext, M, ok, halt, pure, crash, gets, deref,
  load, store, current, Point, Outcome, returned, paused, lock_acquired, pipe_write_loop,
  pipe_read_loop, wait_loop, delay_over, clock_over, tty_read_wait, tty_write_wait, tty_write_loop,
  tty_write_over, ◌>>=◌, ◌>>◌,
}
use cs58_yalnix.Kernel.Scheduler.{schedule_next_process}
use cs58_yalnix.Ipc.{error}
use cs58_yalnix.Ipc.Pipes.Write.{write_loop}
use cs58_yalnix.Ipc.Pipes.Read.{read_loop}
use cs58_yalnix.Process.Exit.{exit_handler}
use cs58_yalnix.Process.Wait.{word, await_child, wait_handler}
use cs58_yalnix.Process.Delay.{get_pid_handler, delay_handler}
use cs58_yalnix.Sync.{
  acquire_lock_handler, release_lock_handler, cvar_signal_handler, cvar_broadcast_handler,
  cvar_wait_handler,
}
use cs58_yalnix.Sync.Handlers.{
  lock_init_handler, cvar_init_handler, pipe_init_handler, pipe_read_handler, pipe_write_handler,
  reclaim_handler,
}
use cs58_yalnix.Tty.Read.{tty_read_handler, tty_read_resume}
use cs58_yalnix.Tty.Write.{tty_write_handler, await_terminal, tty_write_resume}
use cs58_yalnix.Vm.UserMemory.{brk_handler}

-- The cases of the switch in `TrapKernelHandler`.
pub data Syscall : Type 0 where
  fork exec_file exit wait getpid brk delay tty_read tty_write : Syscall
  pipe_init pipe_read pipe_write lock_init lock_acquire lock_release : Syscall
  cvar_init cvar_signal cvar_broadcast cvar_wait reclaim : Syscall

-- The `int` of a register.
abbrev pub int_of : ℕ → ℤ
int_of r = if ltb r (2 ^ 31) then pos r else negsuc (2 ^ 32 - 1 - r)

-- A read through a pointer of the user.
unfoldable pub read_through : ℕ → M (Unit {0})
read_through addr = do
  hw ← gets (λ k. k.hardware)
  let page = addr / hw.page_size
  if ltb page hw.num_pages
      then (do e ← gets (λ k. k.region_0_pages page); if e.valid then pure tt else crash)
      else if ltb page (hw.num_pages * 2)
      then (do
        at ← gets (λ k. k.ptbr1)
        table ← deref at
        entries ← gets (λ k. k.page_tables table)
        es ← deref entries
        if (es (page - hw.num_pages)).valid then pure tt else crash)
      else crash

abbrev pub in_region_0 : Hardware → ℕ → Bool
in_region_0 hw addr = ltb addr (hw.num_pages * hw.page_size)

returning : M ℤ → M Outcome
returning m = do rc ← m; pure (returned rc)

-- An address of region 0 is refused before the handler is called.
guarded : ℕ → M Outcome → M Outcome
guarded addr m = do
  hw ← gets (λ k. k.hardware)
  if in_region_0 hw addr then pure (returned error) else m

abbrev is_null : {A : Type 0} → Option A → Bool
is_null none = true
is_null (some _) = false

module _ (exists executable : ℕ → Bool) (load_program : ℕ → ℕ → M ℤ) (kill : ℤ) where
  exec_result : ℤ → M ℤ
  exec_result rc =
      if rc ==ℤ kill
      then (do exit_handler kill; pure (pos 0))
      else if rc ==ℤ error
      then pure error
      else pure (pos 0)

  -- `ExecHandler`, with the answers of `access` for the file name at an address. `kill` is KILL.
  unfoldable pub exec_handler : ℕ → ℕ → M ℤ
  unfolding exec_result
  exec_handler filename argvec = do
    p ← gets (λ k. k.current_process)
    if (filename == 0) || is_null p || not (exists filename) || not (executable filename)
        then pure error
        else (do read_through argvec; rc ← load_program filename argvec; exec_result rc)

-- The end of `TrapKernelHandler`, once the system call has a result: the context that the user gets
-- back.
finish_to : ℤ → Option ℕ → M (Option UserContext)
finish_to rc none = do schedule_next_process; pure none
finish_to rc (some p) = do
  v ← load p
  u ← deref v.usr_ctx
  let u' : UserContext = record u { regs = λ i. if i == 0 then word rc else u.regs i }
  store p (record v { usr_ctx = some u' })
  pure (some u')

unfoldable pub finish_syscall : ℤ → M (Option UserContext)
unfolding finish_to
finish_syscall rc = do p ← gets (λ k. k.current_process); finish_to rc p

module _ (decode : ℤ → Option Syscall) (exec : ℕ → ℕ → M ℤ) (fork_handler : M ℤ) where
  -- The switch of `TrapKernelHandler`. The trace messages of `pipe_init` and `lock_init` read through
  -- the user's pointer.
  dispatch : Syscall → UserContext → M Outcome
  unfolding returning guarded
  dispatch fork u = returning fork_handler
  dispatch exec_file u = returning (exec (u.regs 0) (u.regs 1))
  dispatch exit u = do exit_handler (int_of (u.regs 0)); pure (returned (int_of (u.regs 0)))
  dispatch wait u = guarded (u.regs 0) (wait_handler (u.regs 0))
  dispatch getpid u = returning get_pid_handler
  dispatch brk u = returning (brk_handler (u.regs 0))
  dispatch delay u = delay_handler (int_of (u.regs 0))
  dispatch tty_read u = tty_read_handler (int_of (u.regs 0)) (u.regs 1) (int_of (u.regs 2))
  dispatch tty_write u = tty_write_handler (int_of (u.regs 0)) (u.regs 1) (int_of (u.regs 2))
  dispatch pipe_init u = do read_through (u.regs 0); returning (pipe_init_handler (u.regs 0))
  dispatch pipe_read u = pipe_read_handler (int_of (u.regs 0)) (u.regs 1) (int_of (u.regs 2))
  dispatch pipe_write u = pipe_write_handler (int_of (u.regs 0)) (u.regs 1) (int_of (u.regs 2))
  dispatch lock_init u = do
    read_through (u.regs 0)
    guarded (u.regs 0) (returning (lock_init_handler (u.regs 0)))
  dispatch lock_acquire u = acquire_lock_handler (int_of (u.regs 0))
  dispatch lock_release u = returning (release_lock_handler (int_of (u.regs 0)))
  dispatch cvar_init u = guarded (u.regs 0) (returning (cvar_init_handler (u.regs 0)))
  dispatch cvar_signal u = returning (cvar_signal_handler (int_of (u.regs 0)))
  dispatch cvar_broadcast u = returning (cvar_broadcast_handler (int_of (u.regs 0)))
  dispatch cvar_wait u = returning (cvar_wait_handler (int_of (u.regs 0)) (int_of (u.regs 1)))
  dispatch reclaim u = returning (reclaim_handler (int_of (u.regs 0)))

  -- A code without a case halts the machine.
  dispatch_code : Option Syscall → UserContext → M Outcome
  unfolding dispatch
  dispatch_code none u = λ k. halt
  dispatch_code (some call) u = dispatch call u

  -- `TrapKernelHandler`, up to the result of the system call or its first call of the scheduler.
  unfoldable pub trap_kernel_handler : UserContext → M Outcome
  unfolding dispatch_code
  trap_kernel_handler u = do save_user_context u; dispatch_code (decode u.code) u

-- `TrapIllegalHandler` and `TrapMathHandler`: the process is killed.
unfoldable pub trap_illegal_handler : M (Unit {0})
trap_illegal_handler = do exit_handler error; schedule_next_process

unfoldable pub trap_math_handler : M (Unit {0})
trap_math_handler = do exit_handler error; schedule_next_process

-- `TrapDiskHandler`: the context of the current process.
unfoldable pub trap_disk_handler : M UserContext
trap_disk_handler = do p ← current; v ← load p; deref v.usr_ctx
