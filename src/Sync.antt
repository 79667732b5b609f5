-- ===== src/Sync.antt =====
-- src/syscall_handlers/synchronization.c and ipc.c: the system calls on locks, condition variables
-- and pipes.
pub mod Handlers
pub mod Blocking
pub mod Waiting
pub mod Signal
pub mod Wakeup
use cs58_yalnix.Base.{
  ℕ, ◌*◌, ◌/◌, ◌%◌, ◌^◌, ◌-◌, ◌+◌, Bool, true, false, not, ◌&&◌, ◌||◌, Option, none, some, List, [],
  ◌∷◌, if◌then◌else◌, ltb, leb,
}
use cs58_yalnix.Base.Int.{ℤ, pos, negsuc, ◌==ℤ◌}
use cs58_yalnix.Kernel.{
  Kernel, Lock, M, ok, pure, crash, ◌>>=◌, ◌>>◌, bind_res, gets, deref, current, ready, blocked,
  set_state, push_ready, pop_blocked, pop_delayed, Point, Outcome, returned, paused, lock_acquired,
  fault,
}
use cs58_yalnix.Kernel.Scheduler.{schedule_next_process}
use cs58_yalnix.Set
use cs58_yalnix.Ipc.{error}
use cs58_yalnix.Ipc.Locks.{lock_acquire, lock_release, acquire_success, release_new_owner}
use cs58_yalnix.Ipc.Cvars.{cvar_signal, cvar_broadcast, cvar_wait}

block_current : M Outcome
block_current = do
  p ← current
  set_state p blocked
  schedule_next_process
  pure (paused lock_acquired)

-- `AcquireLockHandler`. After the wait it returns 0.
unfoldable pub acquire_lock_handler : ℤ → M Outcome
unfolding block_current
acquire_lock_handler id = do
  rc ← lock_acquire id
  if rc ==ℤ error
      then pure (returned error)
      else if rc ==ℤ acquire_success
      then pure (returned (pos 0))
      else block_current

-- The owner that the lock has now.
owner_found : Option Lock → M ℤ
owner_found none = crash
owner_found (some lock) = pure lock.owner

new_owner : ℤ → M ℤ
unfolding owner_found
new_owner id = do
  wrapper ← gets (λ k. k.ipc_wrapper)
  w ← deref wrapper
  owner_found (Set.find w.locks id)

-- A block that is not in the blocked set is reported, and then read through all the same.
resume_owner : Option ℕ → M ℤ
resume_owner found = do p ← deref found; set_state p ready; push_ready (some p)

-- `ReleaseLockHandler`.
unfoldable pub release_lock_handler : ℤ → M ℤ
unfolding new_owner resume_owner
release_lock_handler id = do
  rc ← lock_release id
  if rc ==ℤ error
      then pure error
      else if rc ==ℤ release_new_owner
      then (do pid ← new_owner id; found ← pop_blocked pid; resume_owner found)
      else pure (pos 0)

resume_delayed : Option ℕ → M ℤ
resume_delayed none = pure error
resume_delayed (some p) = push_ready (some p)

-- `CvarSignalHandler`. It looks for the waiter among the delayed processes.
unfoldable pub cvar_signal_handler : ℤ → M ℤ
unfolding resume_delayed
cvar_signal_handler id = do
  rc ← cvar_signal id
  if rc ==ℤ error then pure error else (do found ← pop_delayed rc; resume_delayed found)

-- `length` is the size of a pointer over the size of an `int`, 1 on the 32-bit machine: the loop
-- runs once.
resume_first : List ℤ → M ℤ
unfolding resume_delayed
resume_first [] = crash
resume_first (pid ∷ _) = do
  found ← pop_delayed pid
  rc ← resume_delayed found
  pure (if rc ==ℤ error then error else pos 0)

resume_all : Option (List ℤ) → M ℤ
unfolding resume_first
resume_all none = pure error
resume_all (some pids) = resume_first pids

-- `CvarBroadcastHandler`.
unfoldable pub cvar_broadcast_handler : ℤ → M ℤ
unfolding resume_all
cvar_broadcast_handler id = do pids ← cvar_broadcast id; resume_all pids

-- `CvarWaitHandler`.
unfoldable pub cvar_wait_handler : ℤ → ℤ → M ℤ
cvar_wait_handler id lock_id = cvar_wait id lock_id
