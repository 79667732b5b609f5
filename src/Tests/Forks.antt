-- ===== src/Tests/Forks.antt =====
-- A process that maps one page makes another.
use cs58_yalnix.Base.{◌≡◌, ◌⊎◌, refl, arith, []}
use cs58_yalnix.Base.Int.{pos}
use cs58_yalnix.Kernel.{Kernel, Pcb, ReadBuffer, running}
use cs58_yalnix.Kernel.Ensures.{Returns}
use cs58_yalnix.Ipc.{error}
use cs58_yalnix.Set
use cs58_yalnix.Vm.Boot.Layout.{entry-IsLaidOut}
use cs58_yalnix.Vm.Fork.{count_processes, fork_handler}
use cs58_yalnix.Vm.Fork.Child.{CanFork, Forked}
use cs58_yalnix.Vm.Fork.Forks.{fork_handler-Forks}
use cs58_yalnix.Tests.Sample.{process, user_context, page, hw}
use cs58_yalnix.Tests.Memory.{booting_machine, forking_machine, parent}

abbrev laid_out_machine : Kernel
laid_out_machine = record forking_machine { region_0_pages = booting_machine.region_0_pages }

abbrev caller : Pcb
caller = process (pos 1) running

abbrev input : ReadBuffer
input = record { address = 120000; bytes = λ _. 0 }

laid_out_machine-CanFork :
    CanFork laid_out_machine 100000 110000 6000
      (pos 3)
      100
      caller
      user_context
      5000
      parent
      Set.empty
unfolding count_processes Set.find
laid_out_machine-CanFork = record {
  memory = λ n. refl;
  runs = refl;
  block = refl;
  maps = refl;
  register = refl;
  count = _;
  counted = refl;
  few = refl;
  apart = refl;
  tables_apart = refl;
  new_key = refl;
  positive = refl;
  other_pid = refl;
  stack = omega arith;
  room = omega arith;
  laid = λ j inside.
      entry-IsLaidOut hw 10 j page (omega arith) (omega arith) (omega arith) (omega arith) inside;
  in_heap = (refl, omega arith, omega arith);
  context = (refl, omega arith, omega arith);
}

fork_handler-Forks_example :
    Returns
      (λ rc k'.
        (rc ≡ pos 3)
          × Forked laid_out_machine 100000 6000
              (pos 3)
              100
              caller
              user_context
              5000
              parent
              Set.empty
              k'
        ⊎ (rc ≡ error) × (k'.free_frame_queue.items ≡ []))
      (fork_handler 100000 110000 caller
        (λ _. page)
        input
        6000
        (λ _. page)
        (pos 3)
        laid_out_machine)
fork_handler-Forks_example =
    fork_handler-Forks 100000 110000 caller (λ _. page) input 6000 (λ _. page) (pos 3)
      laid_out_machine 100 caller user_context 5000 parent Set.empty laid_out_machine-CanFork
