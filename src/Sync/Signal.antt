-- ===== src/Sync/Signal.antt =====
-- `CvarSignalHandler` and a process that waits on the condition variable.
use cs58_yalnix.Base.{ℕ, ◌≡◌, refl, false, none, some, List, ◌∷◌}
use cs58_yalnix.Base.Int.{ℤ, pos, ◌==ℤ◌, ◌-ℤ◌}
use cs58_yalnix.Kernel.{Kernel, Pcb, Cvar, IpcWrapper, ok, pop_delayed}
use cs58_yalnix.Kernel.Ensures.{Returns}
use cs58_yalnix.Queue
use cs58_yalnix.Set
use cs58_yalnix.Set.Laws.{pop_eq_find}
use cs58_yalnix.Ipc.{error, with_wrapper-some}
use cs58_yalnix.Ipc.Cvars.{cvar_signal, signal_found, signal_popped}
use cs58_yalnix.Sync.{resume_delayed, cvar_signal_handler}
use cs58_yalnix.Sync.Waiting.{Queued, Queued-assign}

module _ (k : Kernel) (q : ℕ) (qs : List ℕ) (u : Pcb) (w : IpcWrapper) (id : ℤ) (cvar : Cvar)
    (e : k.ipc_wrapper ≡ some w) (found : Set.find w.cvars id ≡ some cvar)
    (line : cvar.waiters.items ≡ q ∷ qs) (block : k.pcbs q ≡ some u)
    (pid : (u.pid ==ℤ error) ≡ false) where
  abbrev signalled : Cvar
  signalled = record cvar {
    waiters = record cvar.waiters { items = qs; count = cvar.waiters.count -ℤ pos 1 };
  }

  cvar_signal_first :
      cvar_signal id k
      ≡ ok u.pid
          (record k { ipc_wrapper = some (record w { cvars = Set.assign w.cvars id signalled }) })
  unfolding cvar_signal signal_found signal_popped Queue.pop
  cvar_signal_first = rw (with_wrapper-some _ _ k e, found, line, block)

  -- A signal loses the first process in the queue of a condition variable if that is not among the
  -- delayed processes, where `CvarSignalHandler` looks for it: the handler returns ERROR, the process
  -- has left the queue, and neither its block nor the ready queue nor the blocked set has changed.
  pub cvar_signal_handler-loses :
      Set.find k.delayed_pcbs u.pid ≡ none
      → Returns
          (λ rc k'.
            (rc ≡ error)
            × Queued id qs k'
            × (k'.pcbs ≡ k.pcbs)
            × (k'.process_ready_queue ≡ k.process_ready_queue)
            × (k'.blocked_pcbs ≡ k.blocked_pcbs))
          (cvar_signal_handler id k)
  unfolding cvar_signal_handler resume_delayed pop_delayed
  cvar_signal_handler-loses absent =
      rw (cvar_signal_first, pid, pop_eq_find k.delayed_pcbs u.pid, absent)
        (refl, Queued-assign id w cvar signalled _ found refl, refl, refl, refl)
