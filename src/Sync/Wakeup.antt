-- ===== src/Sync/Wakeup.antt =====
-- `ReleaseLockHandler` and the process that the lock goes to.
use cs58_yalnix.Base.{ℕ, ◌≡◌, refl, true, some, List, [], ◌∷◌, ◌++◌, ==_refl}
use cs58_yalnix.Base.Int.{ℤ, pos, ==ℤ_refl, ◌-ℤ◌}
use cs58_yalnix.Kernel.{
  Kernel, Pcb, Lock, IpcWrapper, ok, ready, pop_blocked, set_state, push_ready,
}
use cs58_yalnix.Kernel.Ensures.{Returns, Runs, current_pid_lem}
use cs58_yalnix.Queue
use cs58_yalnix.Set
use cs58_yalnix.Set.Laws.{find-assign, pop_eq_find}
use cs58_yalnix.Ipc.{with_wrapper-some}
use cs58_yalnix.Ipc.Locks.{lock_release, release_new_owner}
use cs58_yalnix.Ipc.Locks.Laws.{Updated, Updated-assign}
use cs58_yalnix.Sync.{owner_found, new_owner, resume_owner, release_lock_handler}

module _ (k : Kernel) (p q : ℕ) (qs : List ℕ) (v u : Pcb) (r : Runs k p v) (w : IpcWrapper) (id : ℤ)
    (lock : Lock) (e : k.ipc_wrapper ≡ some w) (found : Set.find w.locks id ≡ some lock)
    (own : lock.owner ≡ v.pid) (line : lock.waiters.items ≡ q ∷ qs) (block : k.pcbs q ≡ some u)
    (waits : Set.find k.blocked_pcbs u.pid ≡ some q) where
  -- The lock once the first process in line owns it.
  abbrev pub passed : Lock
  passed = record lock {
    owner = u.pid;
    waiters = record lock.waiters { items = qs; count = lock.waiters.count -ℤ pos 1 };
  }

  abbrev pub after_pass : Kernel
  after_pass = record k { ipc_wrapper = some (record w { locks = Set.assign w.locks id passed }) }

  pub lock_release_pass : lock_release id k ≡ ok release_new_owner after_pass
  unfolding lock_release Queue.pop
  lock_release_pass =
      rw (with_wrapper-some _ _ k e, found, current_pid_lem r, own, ==ℤ_refl v.pid, line, block)

  new_owner_lem : new_owner id after_pass ≡ ok u.pid after_pass
  unfolding new_owner owner_found
  new_owner_lem = rw (find-assign w.locks id id passed, ==ℤ_refl id, found)

  -- `ReleaseLockHandler`, called by the owner of a lock for which others wait, gives the lock to
  -- the process that has waited longest, marks it ready, takes it out of the blocked processes and
  -- puts it at the end of the ready queue, if its block has not been freed, it is in the blocked
  -- set under its pid, and there is memory. It returns 0.
  pub release_lock_handler-wakes :
      k.mem 0 ≡ true
      → Returns
          (λ rc k'.
            (rc ≡ pos 0)
            × Updated w id (u.pid, qs) k'
            × (k'.pcbs q ≡ some (record u { state = ready }))
            × (k'.blocked_pcbs ≡ (Set.pop k.blocked_pcbs u.pid).1)
            × (k'.process_ready_queue.items ≡ k.process_ready_queue.items ++ q ∷ []))
          (release_lock_handler id k)
  unfolding release_lock_handler resume_owner pop_blocked set_state push_ready Queue.push
  release_lock_handler-wakes room =
      rw (lock_release_pass, new_owner_lem, pop_eq_find k.blocked_pcbs u.pid, waits, block, room)
        (refl, Updated-assign found passed refl, rw (==_refl q), refl, refl)
