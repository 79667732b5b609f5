-- ===== src/Process/Exit.antt =====
-- `ExitHandler` of src/syscall_handlers/process_coordination.c. `helper_retire_pid` is the
-- hardware's and leaves the kernel's state alone.
use cs58_yalnix.Base.{ℕ, Option, none, some, if◌then◌else◌}
use cs58_yalnix.Base.Int.{ℤ, ◌==ℤ◌}
use cs58_yalnix.Kernel.{
  M, ok, halt, pure, ◌>>=◌, ◌>>◌, gets, deref, load, store, current, ready, dead, set_state,
  push_ready, pop_blocked, insert_dead,
}
use cs58_yalnix.Set
use cs58_yalnix.Set.{Set}
use cs58_yalnix.Process.Pcb.{pcb_orphan_children, pcb_exit, pcb_free}

set_current : Option ℕ → M (Unit {0})
set_current p k = ok tt (record k { current_process = p })

-- `set_pop` of a set pointer that may be NULL.
abbrev without : Option (Set ℕ) → ℤ → Option (Set ℕ)
without none key = none
without (some s) key = some (Set.pop s key).1

leave_children : ℕ → ℤ → M (Unit {0})
leave_children parent pid = do
  v ← load parent
  store parent (record v { children = without v.children pid })

-- `set_insert(parent_pcb->zombies, …)`; the result is ignored.
join_zombies : ℕ → ℤ → ℕ → M (Unit {0})
join_zombies parent pid p = do
  v ← load parent
  (λ k. elim v.zombies [
    | none ↦ ok tt k
    | some s ↦
        let (_, s', m) = Set.insert s pid (some p) k.mem in
        store parent (record v { zombies = some s' }) (record k { mem = m })
  ])

-- The parent waits: it is unblocked, and the block of the process is freed.
release_parent : ℕ → ℕ → M (Unit {0})
unfolding set_current
release_parent parent p = do
  set_state parent ready
  push_ready (some parent)
  v ← load parent
  pop_blocked v.pid
  pcb_free p
  set_current none

-- The parent does not wait: the process becomes its zombie.
become_zombie : ℕ → ℤ → ℕ → M (Unit {0})
unfolding join_zombies
become_zombie parent pid p = do join_zombies parent pid p; insert_dead pid (some p); pure tt

exit_to : ℕ → ℤ → ℤ → Option ℕ → M (Unit {0})
unfolding leave_children release_parent become_zombie set_current
exit_to p pid status none = pure tt
exit_to p pid status (some parent) = do
  leave_children parent pid
  v ← load parent
  if v.waiting then release_parent parent p else become_zombie parent pid p
  curr ← gets (λ k. k.current_process)
  pcb_exit curr
  set_current none
  v' ← load parent
  store parent (record v' { child_exit_status = status })

-- `ExitHandler`. Its first trace reads through `current_process` before the check for NULL.
unfoldable pub exit_handler : ℤ → M (Unit {0})
unfolding exit_to
exit_handler status = do
  p ← current
  v ← load p
  store p (record v { exit_status = status; state = dead })
  pcb_orphan_children p
  init ← gets (λ k. k.init_process)
  i ← deref init
  vi ← load i
  if v.pid ==ℤ vi.pid then (λ k. halt) else (do v' ← load p; exit_to p v.pid status v'.parent)
