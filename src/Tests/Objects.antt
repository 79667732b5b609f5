-- ===== src/Tests/Objects.antt =====
-- Locks, condition variables and pipes at work.
use cs58_yalnix.Base.{
  ◌≡◌, refl, subst, arith, true, false, none, some, [], ◌∷◌, ◌++◌, ◌+◌, ◌↔◌, ◌&&◌, map,
}
use cs58_yalnix.Base.Int.{pos}
use cs58_yalnix.Kernel.{Kernel, ready, running, returned, current_pid}
use cs58_yalnix.Kernel.Ensures.{Ensures, Returns}
use cs58_yalnix.Queue
use cs58_yalnix.Queue.Laws.{some-injective}
use cs58_yalnix.Set
use cs58_yalnix.Ipc.{ipc_wrapper_init}
use cs58_yalnix.Ipc.Locks.{unlocked, lock_acquire, lock_release, acquire_found, wait_for_lock}
use cs58_yalnix.Ipc.Locks.Laws.{
  Acquires, Releases, Moves, Updated, pid_of, lock_acquire-Moves, lock_release-Moves,
}
use cs58_yalnix.Ipc.Locks.Fairness.{
  History, start, elsewhere, acquire, owner_at, line_at, lock_first_come_first_served,
}
use cs58_yalnix.Ipc.Cvars.{cvar_broadcast}
use cs58_yalnix.Ipc.Cvars.Broadcast.{WakesNobody, Waits, cvar_broadcast-none}
use cs58_yalnix.Ipc.Pipes.Write.{pipe_write}
use cs58_yalnix.Ipc.Pipes.Stream.{bytes}
use cs58_yalnix.Ipc.Pipes.Read.{pipe_read}
use cs58_yalnix.Ipc.Pipes.Delivery.{Delivers, pipe_read-Delivers}
use cs58_yalnix.Ipc.Pipes.Transfer.{Carries, pipe_write-appends}
use cs58_yalnix.Ipc.Calls.{
  run, run-IsValid, lock_init, fresh_wrapper, fresh_wrapper-IsValid, ipc_wrapper_init-IsValid,
}
use cs58_yalnix.Ipc.Preserve.{After, IsValidIpc}
use cs58_yalnix.Kernel.Memory.{check_memory_validity, get_raw_page_no}
use cs58_yalnix.Sync.{release_lock_handler}
use cs58_yalnix.Sync.Wakeup.{release_lock_handler-wakes}
use cs58_yalnix.Tests.Sample.{machine, process, lock_of, wrapper_of, pipe, cvar, single}

-- Process 1 owns the lock, process 2 waits for it.
abbrev contended : Kernel
contended = record (machine running (lock_of (pos 1) (200 ∷ []) (pos 1))) {
  blocked_pcbs = single (pos 2) 200;
}

abbrev open_lock : Kernel
open_lock = machine running (lock_of unlocked [] (pos 0))

lock_acquire-Moves_example :
    Returns
      (Moves
        (Acquires 100 (pos 1) true)
        contended
        (wrapper_of (lock_of (pos 1) (200 ∷ []) (pos 1)))
        (pos 0)
        (lock_of (pos 1) (200 ∷ []) (pos 1)))
      (lock_acquire (pos 0) contended)
unfolding Set.find
lock_acquire-Moves_example =
    lock_acquire-Moves (record { current = refl; block = refl })
      (wrapper_of (lock_of (pos 1) (200 ∷ []) (pos 1))) (pos 0) (lock_of (pos 1) (200 ∷ []) (pos 1))
      refl refl

lock_release-Moves_example :
    Returns
      (Moves
        (Releases (pos 1) (pid_of contended))
        contended
        (wrapper_of (lock_of (pos 1) (200 ∷ []) (pos 1)))
        (pos 0)
        (lock_of (pos 1) (200 ∷ []) (pos 1)))
      (lock_release (pos 0) contended)
unfolding Set.find
lock_release-Moves_example =
    lock_release-Moves (record { current = refl; block = refl })
      (wrapper_of (lock_of (pos 1) (200 ∷ []) (pos 1))) (pos 0) refl
      (lock_of (pos 1) (200 ∷ []) (pos 1)) refl ((process (pos 2) ready, refl), tt)

release_lock_handler-wakes_example :
    Returns
      (λ rc k'.
        (rc ≡ pos 0)
        × Updated (wrapper_of (lock_of (pos 1) (200 ∷ []) (pos 1))) (pos 0) (pos 2, []) k'
        × (k'.pcbs 200 ≡ some (process (pos 2) ready))
        × (k'.blocked_pcbs ≡ (Set.pop (single (pos 2) 200) (pos 2)).1)
        × (k'.process_ready_queue.items ≡ 200 ∷ 200 ∷ []))
      (release_lock_handler (pos 0) contended)
unfolding Set.find
release_lock_handler-wakes_example =
    release_lock_handler-wakes contended 100 200 [] (process (pos 1) running)
      (process (pos 2) ready) (record { current = refl; block = refl })
      (wrapper_of (lock_of (pos 1) (200 ∷ []) (pos 1))) (pos 0) (lock_of (pos 1) (200 ∷ []) (pos 1))
      refl refl refl refl refl refl refl

open_history : History (pos 0) open_lock [] []
unfolding Set.find
open_history = start refl (λ q. ground arith)

-- Process 1 takes the lock, and process 2, once it runs, gets in line.
abbrev taken : Kernel
taken = record (machine running (lock_of (pos 1) [] (pos 0))) {
  ipc_wrapper = some (record (wrapper_of (lock_of unlocked [] (pos 0))) {
    locks = single (pos 0) (lock_of (pos 1) [] (pos 0));
  });
}

abbrev second_runs : Kernel
second_runs = record taken { current_process = some 200 }

abbrev lined_up : Kernel
lined_up = record second_runs {
  ipc_wrapper = some (record (wrapper_of (lock_of unlocked [] (pos 0))) {
    locks = single (pos 0) (record {
      lock_id = pos 0;
      owner = pos 1;
      waiters = record { items = 200 ∷ []; next_key = 2; count = pos 1 };
    });
  });
}

lock_history : History (pos 0) lined_up (pos 1 ∷ pos 2 ∷ []) (pos 1 ∷ [])
unfolding lock_acquire acquire_found wait_for_lock current_pid Set.find Set.assign Queue.push
lock_history =
    acquire {k' = lined_up} {p = 200} {v = process (pos 2) ready} {rc = pos 1}
      (elsewhere {k' = second_runs}
        (acquire {k' = taken} {p = 100} {v = process (pos 1) running} {rc = pos 0} open_history
          (record { current = refl; block = refl }) refl)
        refl (λ q. refl))
      (record { current = refl; block = refl }) refl

lock_first_come_first_served_example :
    ((pos 1 ∷ pos 2 ∷ []) ≡ (pos 1 ∷ []) ++ map (pid_of lined_up) (line_at lined_up (pos 0)))
    × (owner_at lined_up (pos 0) ≡ unlocked → line_at lined_up (pos 0) ≡ [])
lock_first_come_first_served_example = lock_first_come_first_served lock_history

cvar_broadcast-none_example : Returns (WakesNobody open_lock) (cvar_broadcast (pos 1) open_lock)
unfolding Set.find
cvar_broadcast-none_example = cvar_broadcast-none open_lock (pos 1) (λ c e.
    subst (λ d. Waits open_lock d.waiters) (some-injective cvar c e)
      (refl, ((process (pos 2) ready, refl), tt)))

run-IsValid_example :
    Ensures After (run lock_init (record open_lock { ipc_wrapper = some fresh_wrapper }))
run-IsValid_example =
    run-IsValid lock_init (record open_lock { ipc_wrapper = some fresh_wrapper }) fresh_wrapper refl
      fresh_wrapper-IsValid refl

ipc_wrapper_init-IsValid_example :
    Returns
      (λ o _. IsValidIpc o × ((o ≡ none) ↔ ((true && true && true && true) ≡ false)))
      (ipc_wrapper_init open_lock)
ipc_wrapper_init-IsValid_example = ipc_wrapper_init-IsValid open_lock

pipe_write-appends_example :
    Returns
      (λ rc k'.
        (rc ≡ returned (pos 0))
        × Carries (pos 2) (bytes (λ i. i) 2 ++ bytes (λ i. 1064960 + i) 3) k')
      (pipe_write (pos 2) 1064960 (pos 3) open_lock)
unfolding Set.find check_memory_validity get_raw_page_no
pipe_write-appends_example =
    pipe_write-appends open_lock 100 (process (pos 1) running)
      (record { current = refl; block = refl }) (wrapper_of (lock_of unlocked [] (pos 0))) (pos 2)
      pipe 2 3 1064960 5000 refl refl refl tt refl (omega arith) refl refl

pipe_read-Delivers_example :
    Returns
      (Delivers (pos 2) (bytes (λ i. i) (1 + 1)) 5000 1064960 1)
      (pipe_read (pos 2) 1064960 (pos 1) open_lock)
unfolding Set.find check_memory_validity get_raw_page_no
pipe_read-Delivers_example =
    pipe_read-Delivers open_lock 100 (process (pos 1) running)
      (record { current = refl; block = refl }) (wrapper_of (lock_of unlocked [] (pos 0))) (pos 2)
      pipe 1 1 1 1064960 5000 refl refl refl refl (omega arith) tt tt refl refl (omega arith) refl
      refl refl
