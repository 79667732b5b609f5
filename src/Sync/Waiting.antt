-- ===== src/Sync/Waiting.antt =====
-- What `CvarWaitHandler` does to the caller, to the lock and to its next owner.
use cs58_yalnix.Base.{ℕ, ◌≡◌, refl, true, some, List, [], ◌∷◌, ◌++◌, ◌+◌, ◌%◌, ◌^◌}
use cs58_yalnix.Base.Int.{ℤ, pos, ◌+ℤ◌, ==ℤ_refl}
use cs58_yalnix.Kernel.{Kernel, Pcb, Lock, Cvar, IpcWrapper}
use cs58_yalnix.Kernel.Ensures.{Returns, Runs, current_lem}
use cs58_yalnix.Queue
use cs58_yalnix.Set
use cs58_yalnix.Set.Laws.{find-assign}
use cs58_yalnix.Ipc.{with_wrapper-some}
use cs58_yalnix.Ipc.Locks.{release_new_owner}
use cs58_yalnix.Ipc.Locks.Laws.{Updated, view}
use cs58_yalnix.Ipc.Cvars.{join_found, join_cvar, wait_found, cvar_wait}
use cs58_yalnix.Sync.{cvar_wait_handler}
use cs58_yalnix.Sync.Wakeup.{passed, lock_release_pass}

-- The condition variable under the id has these processes in its queue.
pub record Queued (id : ℤ) (ps : List ℕ) (k : Kernel) : Type 0 where
  pub wrapper : IpcWrapper
  pub kept : k.ipc_wrapper ≡ some wrapper
  pub cvar : Cvar
  pub found : Set.find wrapper.cvars id ≡ some cvar
  pub line : cvar.waiters.items ≡ ps

pub Queued-assign :
    (id : ℤ) (w : IpcWrapper) (old new : Cvar) (k : Kernel)
    → Set.find w.cvars id ≡ some old
    → k.ipc_wrapper ≡ some (record w { cvars = Set.assign w.cvars id new })
    → Queued id new.waiters.items k
Queued-assign id w old new k found kept = record {
  wrapper = record w { cvars = Set.assign w.cvars id new };
  kept = kept;
  cvar = new;
  found = rw (find-assign w.cvars id id new, ==ℤ_refl id, found);
  line = refl;
}

-- A lock was written back, whatever happened to the other objects.
Updated-locks :
    (w w' : IpcWrapper) (id : ℤ) (old new : Lock) (k : Kernel)
    → Set.find w.locks id ≡ some old
    → w'.locks ≡ Set.assign w.locks id new
    → k.ipc_wrapper ≡ some w'
    → Updated w id (view new) k
Updated-locks w w' id old new k found locks kept = record {
  wrapper = w';
  kept = kept;
  lock = new;
  found = rw (locks, find-assign w.locks id id new, ==ℤ_refl id, found);
  seen = refl;
  others = λ other h. rw (locks, find-assign w.locks id other new, h);
}

module _ (k : Kernel) (p q : ℕ) (qs : List ℕ) (v u : Pcb) (r : Runs k p v) (w : IpcWrapper)
    (id lock_id : ℤ) (lock : Lock) (cvar : Cvar) (e : k.ipc_wrapper ≡ some w)
    (cvar_found : Set.find w.cvars id ≡ some cvar) (found : Set.find w.locks lock_id ≡ some lock)
    (own : lock.owner ≡ v.pid) (line : lock.waiters.items ≡ q ∷ qs) (block : k.pcbs q ≡ some u)
    (waits : Set.find k.blocked_pcbs u.pid ≡ some q) where
  -- `CvarWaitHandler`, called by the owner of a lock for which others wait, where there is memory,
  -- gives the lock to the first process in line and puts the caller at the end of the queue of the
  -- condition variable, and does no more: the caller goes on running, without the lock and with its
  -- block unchanged, and the new owner stays among the blocked processes and off the ready queue.
  pub cvar_wait_handler-stays :
      k.mem 0 ≡ true
      → Returns
          (λ rc k'.
            (rc ≡ release_new_owner)
            × Updated w lock_id (u.pid, qs) k'
            × Queued id (cvar.waiters.items ++ p ∷ []) k'
            × (k'.current_process ≡ some p)
            × (k'.pcbs ≡ k.pcbs)
            × (k'.process_ready_queue ≡ k.process_ready_queue)
            × (Set.find k'.blocked_pcbs u.pid ≡ some q))
          (cvar_wait_handler id lock_id k)
  unfolding cvar_wait_handler cvar_wait wait_found join_cvar join_found Queue.push
  cvar_wait_handler-stays room =
      let lock' : Lock = passed k p q qs v u r w lock_id lock e found own line block waits in
      let w' : IpcWrapper = record w { locks = Set.assign w.locks lock_id lock' } in
      let cvar' : Cvar = record cvar {
        waiters = record {
          items = cvar.waiters.items ++ p ∷ [];
          next_key = (cvar.waiters.next_key + 1) % 2 ^ 32;
          count = cvar.waiters.count +ℤ pos 1;
        };
      } in
      let k' : Kernel = record k { ipc_wrapper = some w' } in
      let runs : Runs k' p v = record { current = r.current; block = r.block } in
      rw
        (
          with_wrapper-some _ _ k e,
          cvar_found,
          lock_release_pass k p q qs v u r w lock_id lock e found own line block waits,
          current_lem runs,
          cvar_found,
          room,
        )
        (
          refl,
          Updated-locks w _ lock_id lock lock' _ found refl refl,
          Queued-assign id w' cvar cvar' _ cvar_found refl,
          r.current,
          refl,
          refl,
          waits,
        )
