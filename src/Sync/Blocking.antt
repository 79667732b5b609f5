-- ===== src/Sync/Blocking.antt =====
-- `AcquireLockHandler` on a lock that another process holds.
use cs58_yalnix.Base.{
  ℕ, ◌≡◌, refl, ◌∙◌, ◌==◌, ==_refl, true, false, none, some, List, [], ◌∷◌, ◌++◌, ◌+◌, ◌%◌, ◌^◌,
}
use cs58_yalnix.Base.Alloc.{rest}
use cs58_yalnix.Base.Int.{ℤ, pos, ◌+ℤ◌, ◌==ℤ◌, is_neg}
use cs58_yalnix.Kernel.{
  Kernel, Pcb, Lock, IpcWrapper, ok, blocked, set_state, update, paused, lock_acquired,
}
use cs58_yalnix.Kernel.Ensures.{Returns, Returns-bind, Runs, current_lem, current_pid_lem, load_lem}
use cs58_yalnix.Kernel.Scheduler.{schedule_next_process}
use cs58_yalnix.Kernel.Scheduler.Laws.{CanRun, schedule_next_process-block}
use cs58_yalnix.Queue
use cs58_yalnix.Set
use cs58_yalnix.Ipc.{with_wrapper-some}
use cs58_yalnix.Ipc.Locks.{unlocked, lock_acquire, acquire_found, wait_for_lock, acquire_blocked}
use cs58_yalnix.Ipc.Locks.Laws.{Updated, Updated-assign}
use cs58_yalnix.Sync.{block_current, acquire_lock_handler}

-- The kernel once the block at `p` is in the blocked state.
abbrev stopped : Kernel → ℕ → Pcb → Kernel
stopped k p v = record k { pcbs = update k.pcbs p (some (record v { state = blocked })) }

module _ (k : Kernel) (p q : ℕ) (v u : Pcb) (from : CanRun k.hardware k.region_0_pages k.pcbs p v)
    (to : CanRun k.hardware k.region_0_pages k.pcbs q u) (apart : (p == q) ≡ false) where
  abbrev from_stopped :
      CanRun k.hardware k.region_0_pages (stopped k p v).pcbs p (record v { state = blocked })
  from_stopped = record {
    block = rw (==_refl p) refl;
    address = from.address;
    context = from.context;
    has_context = from.has_context;
    context_address = from.context_address;
    stack = from.stack;
    has_stack = from.has_stack;
  }

  abbrev to_stopped : CanRun k.hardware k.region_0_pages (stopped k p v).pcbs q u
  to_stopped = record {
    block = rw apart (to.block);
    address = to.address;
    context = to.context;
    has_context = to.has_context;
    context_address = to.context_address;
    stack = to.stack;
    has_stack = to.has_stack;
  }

Updated-kept :
    {w : IpcWrapper} {id : ℤ} {n : ℤ × List ℕ} {k k' : Kernel}
    → k'.ipc_wrapper ≡ k.ipc_wrapper
    → Updated w id n k
    → Updated w id n k'
Updated-kept e c = record {
  wrapper = c.wrapper;
  kept = e ∙ c.kept;
  lock = c.lock;
  found = c.found;
  seen = c.seen;
  others = c.others;
}

module _ (k : Kernel) (p q : ℕ) (qs : List ℕ) (v u : Pcb)
    (from : CanRun k.hardware k.region_0_pages k.pcbs p v)
    (to : CanRun k.hardware k.region_0_pages k.pcbs q u) (apart : (p == q) ≡ false)
    (runs : k.current_process ≡ some p) (line : k.process_ready_queue.items ≡ q ∷ qs)
    (w : IpcWrapper) (id : ℤ) (lock : Lock) (e : k.ipc_wrapper ≡ some w)
    (found : Set.find w.locks id ≡ some lock) (held : (lock.owner ==ℤ unlocked) ≡ false)
    (other : (lock.owner ==ℤ v.pid) ≡ false) where
  abbrev joined : Lock
  joined = record lock {
    waiters = record {
      items = lock.waiters.items ++ p ∷ [];
      next_key = (lock.waiters.next_key + 1) % 2 ^ 32;
      count = lock.waiters.count +ℤ pos 1;
    };
  }

  abbrev lined_up : Kernel
  lined_up = record k {
    ipc_wrapper = some (record w { locks = Set.assign w.locks id joined });
    mem = rest k.mem;
  }

  lock_acquire_wait : k.mem 0 ≡ true → lock_acquire id k ≡ ok acquire_blocked lined_up
  unfolding lock_acquire acquire_found wait_for_lock Queue.push
  lock_acquire_wait room =
      let r : Runs k p v = record { current = runs; block = from.block } in
      rw (with_wrapper-some _ _ k e, found, current_pid_lem r, held, other, current_lem r, room)

  -- `AcquireLockHandler`, where another process holds the lock, another one is ready to run, both
  -- are fit to run, the caller's pid is not negative and not in use in the blocked set and there is
  -- memory, pauses the caller: it is then last in the lock's line and in the blocked set, the owner
  -- of the lock and all other locks are as they were, and the first process of the ready queue runs.
  pub acquire_lock_handler-waits :
      k.mem 0 ≡ true
      → k.mem 1 ≡ true
      → is_neg v.pid ≡ false
      → Set.find k.blocked_pcbs v.pid ≡ none
      → Returns
          (λ rc k'.
            (rc ≡ paused lock_acquired)
            × Updated w id (lock.owner, lock.waiters.items ++ p ∷ []) k'
            × (k'.current_process ≡ some q)
            × (k'.process_ready_queue.items ≡ qs)
            × (Set.find k'.blocked_pcbs v.pid ≡ some p))
          (acquire_lock_handler id k)
  unfolding acquire_lock_handler block_current set_state
  acquire_lock_handler-waits room room' valid fresh =
      let r : Runs lined_up p v = record { current = runs; block = from.block } in
      rw (lock_acquire_wait room, current_lem r, load_lem r)
        (Returns-bind _ _ (schedule_next_process (stopped lined_up p v)) _
          (schedule_next_process-block (stopped lined_up p v) p q qs (record v { state = blocked })
            u (from_stopped lined_up p q v u from to apart)
            (to_stopped lined_up p q v u from to apart) apart runs line refl room' valid fresh)
          (λ _ k' c. (
            refl,
            Updated-kept {k = lined_up} (c.0.5) (Updated-assign found joined refl),
            c.0.0,
            c.0.4,
            c.1,
          )))
