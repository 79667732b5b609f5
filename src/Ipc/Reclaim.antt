-- ===== src/Ipc/Reclaim.antt =====
-- `ipc_reclaim`, `lock_delete` and `cvar_delete` of src/datastructures/ipc_wrapper.c, and the
-- `queue_delete` that these call with `delete_pcb_queue_helper`. Deleting a pipe only frees memory
-- that nothing else points to.
use cs58_yalnix.Base.{ℕ, Option, none, some, List, [], ◌∷◌}
use cs58_yalnix.Base.Int.{ℤ, pos}
use cs58_yalnix.Kernel.{IpcWrapper, Lock, Cvar, Pipe, M, pure, ◌>>◌}
use cs58_yalnix.Process.Pcb.{pcb_free}
use cs58_yalnix.Set
use cs58_yalnix.Set.{Set}
use cs58_yalnix.Ipc.{error, with_wrapper, put_wrapper}

-- `queue_delete` of a queue of processes frees each block, from front to rear.
unfoldable pub free_waiters : List ℕ → M (Unit {0})
free_waiters [] = pure tt
free_waiters (p ∷ ps) = do pcb_free p; free_waiters ps

reclaim_pipe : IpcWrapper → Option Pipe × Set Pipe → M ℤ
reclaim_pipe w (none, s) = pure error
reclaim_pipe w (some pipe, s) = do put_wrapper (record w { pipes = s }); pure (pos 0)

reclaim_cvar : IpcWrapper → ℤ → Option Cvar × Set Cvar → M ℤ
unfolding reclaim_pipe free_waiters
reclaim_cvar w id (none, s) = reclaim_pipe w (Set.pop w.pipes id)
reclaim_cvar w id (some cvar, s) = do
  put_wrapper (record w { cvars = s })
  free_waiters cvar.waiters.items
  pure (pos 0)

reclaim_lock : IpcWrapper → ℤ → Option Lock × Set Lock → M ℤ
unfolding reclaim_cvar free_waiters
reclaim_lock w id (none, s) = reclaim_cvar w id (Set.pop w.cvars id)
reclaim_lock w id (some lock, s) = do
  put_wrapper (record w { locks = s })
  free_waiters lock.waiters.items
  pure (pos 0)

-- `ipc_reclaim`.
unfoldable pub ipc_reclaim : ℤ → M ℤ
unfolding reclaim_lock
ipc_reclaim id = with_wrapper error λ w. reclaim_lock w id (Set.pop w.locks id)
