-- ===== src/Tests/Locks.antt =====
-- A process waits for a lock, and another is signalled.
use cs58_yalnix.Base.{◌≡◌, refl, some, [], ◌∷◌}
use cs58_yalnix.Base.Int.{pos}
use cs58_yalnix.Kernel.{Kernel, ready, running, paused, lock_acquired}
use cs58_yalnix.Kernel.Ensures.{Returns}
use cs58_yalnix.Kernel.Scheduler.Laws.{CanRun}
use cs58_yalnix.Set
use cs58_yalnix.Ipc.Locks.Laws.{Updated}
use cs58_yalnix.Sync.{acquire_lock_handler}
use cs58_yalnix.Sync.Blocking.{acquire_lock_handler-waits}
use cs58_yalnix.Ipc.{error}
use cs58_yalnix.Sync.{cvar_signal_handler}
use cs58_yalnix.Sync.Waiting.{Queued}
use cs58_yalnix.Sync.Signal.{cvar_signal_handler-loses}
use cs58_yalnix.Tests.Sample.{
  cvar, fit, first_address, second_address, hw, page, machine, process, lock_of, wrapper_of, blocks,
}

-- Process 9 owns the lock.
abbrev held_machine : Kernel
held_machine = machine running (lock_of (pos 9) [] (pos 0))

abbrev first_running :
    CanRun hw
      (λ _. page)
      (blocks (process (pos 1) running) (process (pos 2) ready))
      100
      (process (pos 1) running)
first_running =
    fit (blocks (process (pos 1) running) (process (pos 2) ready)) 100 (pos 1) running refl
      first_address

abbrev next_ready :
    CanRun hw
      (λ _. page)
      (blocks (process (pos 1) running) (process (pos 2) ready))
      200
      (process (pos 2) ready)
next_ready =
    fit (blocks (process (pos 1) running) (process (pos 2) ready)) 200 (pos 2) ready refl
      second_address

acquire_lock_handler-waits_example :
    Returns
      (λ rc k'.
        (rc ≡ paused lock_acquired)
        × Updated (wrapper_of (lock_of (pos 9) [] (pos 0))) (pos 0) (pos 9, 100 ∷ []) k'
        × (k'.current_process ≡ some 200)
        × (k'.process_ready_queue.items ≡ [])
        × (Set.find k'.blocked_pcbs (pos 1) ≡ some 100))
      (acquire_lock_handler (pos 0) held_machine)
unfolding Set.find
acquire_lock_handler-waits_example =
    acquire_lock_handler-waits held_machine 100 200 [] (process (pos 1) running)
      (process (pos 2) ready) first_running next_ready refl refl refl
      (wrapper_of (lock_of (pos 9) [] (pos 0))) (pos 0) (lock_of (pos 9) [] (pos 0)) refl refl refl
      refl refl refl refl refl

-- Process 2 waits on condition variable 1, and is not delayed.
cvar_signal_handler-loses_example :
    Returns
      (λ rc k'.
        (rc ≡ error)
        × Queued (pos 1) [] k'
        × (k'.pcbs ≡ held_machine.pcbs)
        × (k'.process_ready_queue ≡ held_machine.process_ready_queue)
        × (k'.blocked_pcbs ≡ held_machine.blocked_pcbs))
      (cvar_signal_handler (pos 1) held_machine)
unfolding Set.find
cvar_signal_handler-loses_example =
    cvar_signal_handler-loses held_machine 200 [] (process (pos 2) ready)
      (wrapper_of (lock_of (pos 9) [] (pos 0))) (pos 1) cvar refl refl refl refl refl refl
