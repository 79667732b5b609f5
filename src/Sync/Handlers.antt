-- ===== src/Sync/Handlers.antt =====
-- The system calls that create, use and reclaim objects with little more than a call:
-- src/syscall_handlers/ipc.c, and `LockInitHandler`, `CvarInitHandler` and `ReclaimHandler` of
-- src/syscall_handlers/synchronization.c. An address that a process passes is written through its
-- own page table.
use cs58_yalnix.Base.{ℕ, if◌then◌else◌}
use cs58_yalnix.Base.Int.{ℤ, pos, ◌==ℤ◌}
use cs58_yalnix.Kernel.{M, pure, ◌>>=◌, ◌>>◌, Outcome}
use cs58_yalnix.Process.Wait.{store_int}
use cs58_yalnix.Ipc.{error}
use cs58_yalnix.Ipc.Locks.{lock_new}
use cs58_yalnix.Ipc.Cvars.{cvar_new}
use cs58_yalnix.Ipc.Pipes.{pipe_new, bad_buffer}
use cs58_yalnix.Ipc.Pipes.Read.{pipe_read}
use cs58_yalnix.Ipc.Pipes.Write.{pipe_write}
use cs58_yalnix.Ipc.Reclaim.{ipc_reclaim}

-- `LockInitHandler`. The id is stored even where it is ERROR.
unfoldable pub lock_init_handler : ℕ → M ℤ
lock_init_handler addr = do
  id ← lock_new
  store_int addr id
  pure (if id ==ℤ error then error else pos 0)

-- `CvarInitHandler`.
unfoldable pub cvar_init_handler : ℕ → M ℤ
cvar_init_handler addr = do
  id ← cvar_new
  store_int addr id
  pure (if id ==ℤ error then error else pos 0)

-- `PipeInitHandler`. It checks the address as `pipe_write` checks its buffer.
unfoldable pub pipe_init_handler : ℕ → M ℤ
pipe_init_handler addr = do
  bad ← bad_buffer addr
  if bad then pure error else (do
    id ← pipe_new
    if id ==ℤ error then pure error else (do store_int addr id; pure (pos 0)))

-- `PipeReadHandler` and `PipeWriteHandler`.
unfoldable pub pipe_read_handler : ℤ → ℕ → ℤ → M Outcome
pipe_read_handler id buf len = pipe_read id buf len

unfoldable pub pipe_write_handler : ℤ → ℕ → ℤ → M Outcome
pipe_write_handler id buf len = pipe_write id buf len

-- `ReclaimHandler`.
unfoldable pub reclaim_handler : ℤ → M ℤ
reclaim_handler id = ipc_reclaim id
