-- ===== src/Tests/Turns.antt =====
-- Three processes that only give the CPU away.
use cs58_yalnix.Base.{ℕ, ◌≡◌, refl, arith, Option, none, some, [], ◌∷◌, if◌then◌else◌, ◌==◌}
use cs58_yalnix.Base.Int.{pos}
use cs58_yalnix.Kernel.{Pcb, ready, Kernel}
use cs58_yalnix.Kernel.Ensures.{Returns}
use cs58_yalnix.Kernel.Scheduler.Laws.{IsKernelAddress}
use cs58_yalnix.Kernel.Scheduler.Turns.{turns, IsFit, IsFair, turns-runs}
use cs58_yalnix.Ipc.Locks.{unlocked}
use cs58_yalnix.Tests.Sample.{
  hw, page, process, machine, lock_of, line, fit, first_address, second_address,
}

abbrev three_blocks : ℕ → Option Pcb
three_blocks p =
    if p == 100
    then some (process (pos 1) ready)
    else if p == 200
    then some (process (pos 2) ready)
    else if p == 300
    then some (process (pos 3) ready)
    else none

abbrev three_machine : Kernel
three_machine = record (machine ready (lock_of unlocked [] (pos 0))) {
  pcbs = three_blocks;
  process_ready_queue = line (200 ∷ 300 ∷ []) (pos 2);
}

abbrev third_address : IsKernelAddress hw (λ _. page) 300
third_address = record { low = refl; region_0 = omega arith; mapped = refl }

abbrev first_fit : IsFit three_machine 100
first_fit = record {
  v = process (pos 1) ready;
  can_run = fit three_blocks 100 (pos 1) ready refl first_address;
  is_ready = refl;
  block_below = omega arith;
  context_below = omega arith;
}

abbrev second_fit : IsFit three_machine 200
second_fit = record {
  v = process (pos 2) ready;
  can_run = fit three_blocks 200 (pos 2) ready refl second_address;
  is_ready = refl;
  block_below = omega arith;
  context_below = omega arith;
}

abbrev third_fit : IsFit three_machine 300
third_fit = record {
  v = process (pos 3) ready;
  can_run = fit three_blocks 300 (pos 3) ready refl third_address;
  is_ready = refl;
  block_below = omega arith;
  context_below = omega arith;
}

three-IsFair : IsFair three_machine 100 (200 ∷ 300 ∷ [])
three-IsFair = record {
  runs = refl;
  line = refl;
  distinct = ((refl, (refl, tt)), ((refl, tt), (tt, tt)));
  fit = (first_fit, (second_fit, (third_fit, tt)));
  room = λ n. refl;
}

turns-runs_example :
    Returns
      (λ _ k'. (k'.current_process ≡ some 300) × (k'.process_ready_queue.items ≡ 100 ∷ 200 ∷ []))
      (turns 2 three_machine)
turns-runs_example = turns-runs (200 ∷ []) [] 300 three-IsFair
