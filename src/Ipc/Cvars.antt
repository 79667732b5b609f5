-- ===== src/Ipc/Cvars.antt =====
-- Condition variables: `cvar_new`, `cvar_signal`, `cvar_broadcast` and `cvar_wait` of
-- src/datastructures/ipc_wrapper.c.
pub mod Broadcast
pub mod Preserve
use cs58_yalnix.Base.{
  ℕ, zero, suc, ◌+◌, ◌≡◌, Bool, true, false, not, Option, none, some, List, [], ◌∷◌, ◌++◌, length,
  if◌then◌else◌,
}
use cs58_yalnix.Base.Int.{ℤ, pos, negsuc, ◌==ℤ◌, leb_ℤ, int_suc}
use cs58_yalnix.Kernel.{
  Kernel, IpcWrapper, Cvar, M, ok, pure, crash, fault, ◌>>=◌, ◌>>◌, load, current, current_pid,
  malloc, bind_res,
}
use cs58_yalnix.Queue
use cs58_yalnix.Queue.{Queue}
use cs58_yalnix.Set
use cs58_yalnix.Ipc.{error, max_objects, with_wrapper, put_wrapper, put_cvar, new_queue}
use cs58_yalnix.Ipc.Locks.{lock_release}

insert_cvar : IpcWrapper → ℤ → Option (Queue ℕ) → M ℤ
insert_cvar w id none k = ok error k
insert_cvar w id (some q) k =
    let cvar : Cvar = record { cvar_id = id; waiters = q } in
    let (rc, s, m) = Set.insert w.cvars id (some cvar) k.mem in
    ok (if rc ==ℤ error then error else id)
      (record k { ipc_wrapper = some (record w { cvars = s }); mem = m })

allocate_cvar : IpcWrapper → M ℤ
unfolding insert_cvar
allocate_cvar w = do
  got ← malloc
  if got
      then (do
        let w' = record w { next_ipc_id = int_suc w.next_ipc_id }
        put_wrapper w'
        q ← new_queue
        insert_cvar w' w.next_ipc_id q)
      else pure error

-- `cvar_new`.
unfoldable pub cvar_new : M ℤ
unfolding allocate_cvar
cvar_new =
    with_wrapper error
      λ w. if leb_ℤ max_objects w.cvars.node_count then pure error else allocate_cvar w

unfoldable pub signal_popped : IpcWrapper → ℤ → Cvar → Option ℕ × Queue ℕ → M ℤ
signal_popped w id cvar (none, q) = pure error
signal_popped w id cvar (some p, q) = do
  put_cvar w id (record cvar { waiters = q })
  v ← load p
  pure v.pid

unfoldable pub signal_found : IpcWrapper → ℤ → Option Cvar → M ℤ
unfolding signal_popped
signal_found w id none = pure error
signal_found w id (some cvar) = signal_popped w id cvar (Queue.pop cvar.waiters)

-- `cvar_signal`: the pid of the process taken off the queue.
unfoldable pub cvar_signal : ℤ → M ℤ
unfolding signal_found
cvar_signal id = with_wrapper error λ w. signal_found w id (Set.find w.cvars id)

-- The loop of `cvar_broadcast`: `p` was popped last, `q` is the queue left, and `pids` the array so
-- far, of length `i`. Each round pops once, so fuel above the queue's length is enough.
broadcast_loop : ℕ → ℕ → List ℤ → Option ℕ × Queue ℕ → M (Option (List ℤ) × Queue ℕ)
broadcast_loop fuel i pids (none, q) = pure (some pids, q)
broadcast_loop zero i pids (some p, q) = crash
broadcast_loop (suc fuel) i pids (some p, q) =
    if leb_ℤ q.count (pos i)
    then pure (none, q)
    else do v ← load p; broadcast_loop fuel (i + 1) (pids ++ v.pid ∷ []) (Queue.pop q)

-- `cvar_broadcast` once the array is allocated. Nobody waiting is a failure.
broadcast_popped : IpcWrapper → ℤ → Cvar → Option ℕ × Queue ℕ → M (Option (List ℤ))
unfolding broadcast_loop
broadcast_popped w id cvar (none, q) = pure none
broadcast_popped w id cvar (some p, q) = do
  (pids, q') ← broadcast_loop (length q.items + 1) 0 [] (some p, q)
  put_cvar w id (record cvar { waiters = q' })
  pure pids

broadcast_found : IpcWrapper → ℤ → Option Cvar → M (Option (List ℤ))
unfolding broadcast_popped
broadcast_found w id none = pure none
broadcast_found w id (some cvar) = do
  got ← malloc
  if got then broadcast_popped w id cvar (Queue.pop cvar.waiters) else pure none

-- `cvar_broadcast`: the pids to wake up, or `none` for NULL.
unfoldable pub cvar_broadcast : ℤ → M (Option (List ℤ))
unfolding broadcast_found
cvar_broadcast id = with_wrapper none λ w. broadcast_found w id (Set.find w.cvars id)

-- The end of `cvar_wait`: the current process joins the queue of the condition variable, which
-- `lock_release` has left in place. The status of the release is returned.
unfoldable pub join_found : ℤ → ℤ → ℕ → IpcWrapper → Option Cvar → M ℤ
join_found id status p w none k = fault
join_found id status p w (some cvar) k =
    let (rc, q, m) = Queue.push cvar.waiters (some p) k.mem in
    ok (if rc ==ℤ error then error else status) (record k {
      ipc_wrapper = some (record w { cvars = Set.assign w.cvars id (record cvar { waiters = q }) });
      mem = m;
    })

unfoldable pub join_cvar : ℤ → ℤ → M ℤ
unfolding join_found
join_cvar id status = do
  p ← current
  with_wrapper error λ w. join_found id status p w (Set.find w.cvars id)

unfoldable pub wait_found : ℤ → ℤ → Option Cvar → M ℤ
unfolding join_cvar
wait_found id lock_id none = pure error
wait_found id lock_id (some _) = do
  status ← lock_release lock_id
  if status ==ℤ error then pure error else join_cvar id status

-- `cvar_wait`.
unfoldable pub cvar_wait : ℤ → ℤ → M ℤ
unfolding wait_found
cvar_wait id lock_id = with_wrapper error λ w. wait_found id lock_id (Set.find w.cvars id)
