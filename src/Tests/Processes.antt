-- ===== src/Tests/Processes.antt =====
-- The scheduler and the process calls at work.
use cs58_yalnix.Base.{ℕ, ◌≡◌, refl, true, none, some, [], ◌∷◌}
use cs58_yalnix.Base.Int.{pos}
use cs58_yalnix.Kernel.{Kernel, Pcb, ReadBuffer, ready, running, blocked, dead, fault}
use cs58_yalnix.Kernel.Ensures.{Returns}
use cs58_yalnix.Kernel.Memory.{check_memory_validity}
use cs58_yalnix.Kernel.Scheduler.{schedule_next_process}
use cs58_yalnix.Kernel.Scheduler.Laws.{
  CanRun, Scheduled, schedule_next_process-round_robin, schedule_next_process-block,
}
use cs58_yalnix.Set
use cs58_yalnix.Process.Wait.{wait_handler}
use cs58_yalnix.Process.Wait.DoubleFree.{wait_handler-fault}
use cs58_yalnix.Ipc.Locks.{unlocked}
use cs58_yalnix.Process.Create.{Created, pcb_new, pcb_new-creates}
use cs58_yalnix.Ipc.Locks.{release_new_owner}
use cs58_yalnix.Ipc.Locks.Laws.{Updated}
use cs58_yalnix.Sync.{cvar_wait_handler}
use cs58_yalnix.Sync.Waiting.{Queued, cvar_wait_handler-stays}
use cs58_yalnix.Tests.Sample.{
  fit, first_address, second_address, cvar, wrapper_of, hw, page, process, machine, lock_of, blocks,
  single, user_context,
}

abbrev ready_machine : Kernel
ready_machine = machine ready (lock_of unlocked [] (pos 0))

abbrev blocking_machine : Kernel
blocking_machine = machine blocked (lock_of unlocked [] (pos 0))

-- Any block of the sample machine can run.
abbrev CanRunOn : (a b c : Pcb) (p : ℕ) → Type 0
CanRunOn a b c p = CanRun hw (λ _. page) (blocks a b) p c

abbrev first_ready :
    CanRunOn (process (pos 1) ready) (process (pos 2) ready) (process (pos 1) ready) 100
first_ready = fit ready_machine.pcbs 100 (pos 1) ready refl first_address

abbrev first_blocked :
    CanRunOn (process (pos 1) blocked) (process (pos 2) ready) (process (pos 1) blocked) 100
first_blocked = fit blocking_machine.pcbs 100 (pos 1) blocked refl first_address

abbrev second_ready : (a : Pcb) → CanRunOn a (process (pos 2) ready) (process (pos 2) ready) 200
second_ready a = fit (blocks a (process (pos 2) ready)) 200 (pos 2) ready refl second_address

schedule_next_process-round_robin_example :
    Returns
      (λ _.
        Scheduled ready_machine 100 200 []
          (process (pos 1) ready)
          (process (pos 2) ready)
          first_ready
          (second_ready (process (pos 1) ready))
          refl
          refl
          refl
          (100 ∷ []))
      (schedule_next_process ready_machine)
schedule_next_process-round_robin_example =
    schedule_next_process-round_robin ready_machine 100 200 [] (process (pos 1) ready)
      (process (pos 2) ready) first_ready (second_ready (process (pos 1) ready)) refl refl refl refl
      refl

schedule_next_process-block_example :
    Returns
      (λ _ k'.
        Scheduled blocking_machine 100 200 []
          (process (pos 1) blocked)
          (process (pos 2) ready)
          first_blocked
          (second_ready (process (pos 1) blocked))
          refl
          refl
          refl
          []
          k'
        × (Set.find k'.blocked_pcbs (pos 1) ≡ some 100))
      (schedule_next_process blocking_machine)
unfolding Set.find
schedule_next_process-block_example =
    schedule_next_process-block blocking_machine 100 200 [] (process (pos 1) blocked)
      (process (pos 2) ready) first_blocked (second_ready (process (pos 1) blocked)) refl refl refl
      refl refl refl refl

-- Process 1 waits for a child, and process 2, another child, has exited.
abbrev parent_block : Pcb
parent_block = record (process (pos 1) running) {
  children = some (single (pos 3) 300);
  zombies = some (single (pos 2) 200);
}

abbrev exited_block : Pcb
exited_block = record (process (pos 2) dead) {
  children = none;
  zombies = none;
  page_table = none;
  krn_ctx = none;
  kernel_stack_pages = none;
}

abbrev waiting_machine : Kernel
waiting_machine = record ready_machine {
  pcbs = blocks parent_block exited_block;
  dead_pcbs = single (pos 2) 200;
}

wait_handler-fault_example : wait_handler 0 waiting_machine ≡ fault
unfolding Set.find check_memory_validity
wait_handler-fault_example =
    wait_handler-fault waiting_machine 100 200 parent_block exited_block
      (record { current = refl; block = refl }) (single (pos 3) 300) (single (pos 2) 200) (pos 2) []
      refl refl refl (record { block = refl; no_table = refl; no_stack = refl }) refl 0 true refl

-- What `malloc` finds in the new block and in its terminal buffer.
abbrev raw_block : Pcb
raw_block = process (pos 77) dead

abbrev fresh_input : ReadBuffer
fresh_input = record { address = 90; bytes = λ _. 5 }

-- A block at a fresh address, with a new kernel context and stack.
pcb_new-creates_example :
    Returns
      (Created 300 512 raw_block
        (λ _. page)
        fresh_input
        ready_machine.pcbs
        (pos 3)
        (some 6000)
        none
        (some 100)
        user_context
        none)
      (pcb_new 300 512 raw_block
        (λ _. page)
        fresh_input
        (pos 3)
        (some 6000)
        none
        (some 100)
        (some user_context)
        none
        ready_machine)
pcb_new-creates_example =
    pcb_new-creates 300 512 raw_block (λ _. page) fresh_input ready_machine (pos 3) (some 6000) none
      (some 100) user_context none

-- Process 1 owns the lock for which process 2 waits, and waits on the condition variable.
abbrev owning_machine : Kernel
owning_machine = record (machine running (lock_of (pos 1) (200 ∷ []) (pos 1))) {
  blocked_pcbs = single (pos 2) 200;
}

cvar_wait_handler-stays_example :
    Returns
      (λ rc k'.
        (rc ≡ release_new_owner)
        × Updated (wrapper_of (lock_of (pos 1) (200 ∷ []) (pos 1))) (pos 0) (pos 2, []) k'
        × Queued (pos 1) (200 ∷ 100 ∷ []) k'
        × (k'.current_process ≡ some 100)
        × (k'.pcbs ≡ owning_machine.pcbs)
        × (k'.process_ready_queue ≡ owning_machine.process_ready_queue)
        × (Set.find k'.blocked_pcbs (pos 2) ≡ some 200))
      (cvar_wait_handler (pos 1) (pos 0) owning_machine)
unfolding Set.find
cvar_wait_handler-stays_example =
    cvar_wait_handler-stays owning_machine 100 200 [] (process (pos 1) running)
      (process (pos 2) ready) (record { current = refl; block = refl })
      (wrapper_of (lock_of (pos 1) (200 ∷ []) (pos 1))) (pos 1) (pos 0)
      (lock_of (pos 1) (200 ∷ []) (pos 1)) cvar refl refl refl refl refl refl refl refl
