-- ===== src/Ipc/Locks.antt =====
-- Locks: `lock_new`, `lock_acquire` and `lock_release` of src/datastructures/ipc_wrapper.c.
pub mod Laws
pub mod Fairness
pub mod Preserve
use cs58_yalnix.Base.{ℕ, Bool, true, false, not, Option, none, some, if◌then◌else◌}
use cs58_yalnix.Base.Int.{ℤ, pos, negsuc, ◌==ℤ◌, leb_ℤ, int_suc}
use cs58_yalnix.Kernel.{
  Kernel, IpcWrapper, Lock, M, ok, pure, ◌>>=◌, ◌>>◌, load, current, current_pid, malloc, bind_res,
}
use cs58_yalnix.Queue
use cs58_yalnix.Queue.{Queue}
use cs58_yalnix.Set
use cs58_yalnix.Ipc.{error, max_objects, with_wrapper, put_wrapper, put_lock, new_queue}

abbrev pub unlocked : ℤ
unlocked = negsuc 0

-- ACQUIRE_SUCCESS and ACQUIRE_BLOCKED, RELEASE_QUEUE_EMPTY and RELEASE_NEW_OWNER.
abbrev pub acquire_success : ℤ
acquire_success = pos 0

abbrev pub acquire_blocked : ℤ
acquire_blocked = pos 1

abbrev pub release_queue_empty : ℤ
release_queue_empty = pos 0

abbrev pub release_new_owner : ℤ
release_new_owner = pos 1

insert_lock : IpcWrapper → ℤ → Option (Queue ℕ) → M ℤ
insert_lock w id none k = ok error k
insert_lock w id (some q) k =
    let lock : Lock = record { lock_id = id; owner = unlocked; waiters = q } in
    let (rc, s, m) = Set.insert w.locks id (some lock) k.mem in
    ok (if rc ==ℤ error then error else id)
      (record k { ipc_wrapper = some (record w { locks = s }); mem = m })

allocate_lock : IpcWrapper → M ℤ
unfolding insert_lock
allocate_lock w = do
  got ← malloc
  if got
      then (do
        let w' = record w { next_ipc_id = int_suc w.next_ipc_id }
        put_wrapper w'
        q ← new_queue
        insert_lock w' w.next_ipc_id q)
      else pure error

-- `lock_new`.
unfoldable pub lock_new : M ℤ
unfolding allocate_lock
lock_new =
    with_wrapper error
      λ w. if leb_ℤ max_objects w.locks.node_count then pure error else allocate_lock w

-- The current process joins the lock's queue.
unfoldable pub wait_for_lock : IpcWrapper → ℤ → Lock → M ℤ
wait_for_lock w id lock = do
  p ← current
  (λ k.
      let (rc, q, m) = Queue.push lock.waiters (some p) k.mem in
      ok (if rc ==ℤ pos 0 then acquire_blocked else error) (record k {
        ipc_wrapper =
            some (record w { locks = Set.assign w.locks id (record lock { waiters = q }) });
        mem = m;
      }))

unfoldable pub acquire_found : IpcWrapper → ℤ → Option Lock → M ℤ
unfolding wait_for_lock
acquire_found w id none = pure error
acquire_found w id (some lock) = do
  pid ← current_pid
  if lock.owner ==ℤ unlocked
      then (do put_lock w id (record lock { owner = pid }); pure acquire_success)
      else if lock.owner ==ℤ pid
      then pure error
      else wait_for_lock w id lock

-- `lock_acquire`.
unfoldable pub lock_acquire : ℤ → M ℤ
unfolding acquire_found
lock_acquire id = with_wrapper error λ w. acquire_found w id (Set.find w.locks id)

-- The lock goes to the process that has waited longest.
hand_over : IpcWrapper → ℤ → Lock → Option ℕ × Queue ℕ → M ℤ
hand_over w id lock (none, q) = do
  put_lock w id (record lock { owner = unlocked; waiters = q })
  pure release_queue_empty
hand_over w id lock (some p, q) = do
  v ← load p
  put_lock w id (record lock { owner = v.pid; waiters = q })
  pure release_new_owner

release_found : IpcWrapper → ℤ → Option Lock → M ℤ
unfolding hand_over
release_found w id none = pure error
release_found w id (some lock) = do
  pid ← current_pid
  if pid ==ℤ lock.owner then hand_over w id lock (Queue.pop lock.waiters) else pure error

-- `lock_release`.
unfoldable pub lock_release : ℤ → M ℤ
unfolding release_found
lock_release id = with_wrapper error λ w. release_found w id (Set.find w.locks id)
