-- ===== src/Tests/Delays.antt =====
-- A process sleeps while two others take turns.
use cs58_yalnix.Base.{ℕ, refl, arith, Option, none, some, [], ◌∷◌, if◌then◌else◌, ◌==◌}
use cs58_yalnix.Base.Int.{pos}
use cs58_yalnix.Kernel.{Kernel, Pcb, ready, delayed}
use cs58_yalnix.Kernel.Ensures.{Returns}
use cs58_yalnix.Process.Delay.Clock.{clock_traps, Sleeps, IsUser, IsLastTick, delay_lasts}
use cs58_yalnix.Tests.Sample.{
  machine, process, lock_of, single, user_context, fit, first_address, second_address,
}

-- Process 3 has three ticks left.
abbrev sleeper : Pcb
sleeper = record (process (pos 3) delayed) { delay_ticks = pos 3 }

abbrev with_sleeper : ℕ → Option Pcb
with_sleeper p =
    if p == 100
    then some (process (pos 1) ready)
    else if p == 200
    then some (process (pos 2) ready)
    else if p == 300
    then some sleeper
    else none

abbrev sleeping_machine : Kernel
sleeping_machine = record (machine ready (lock_of (pos 9) [] (pos 0))) {
  pcbs = with_sleeper;
  delayed_pcbs = single (pos 3) 300;
}

abbrev first_user : IsUser sleeping_machine 100
first_user = record {
  fit = record {
    v = process (pos 1) ready;
    can_run = fit with_sleeper 100 (pos 1) ready refl first_address;
    is_ready = refl;
    block_below = omega arith;
    context_below = omega arith;
  };
  context = user_context;
  has_context = refl;
}

abbrev second_user : IsUser sleeping_machine 200
second_user = record {
  fit = record {
    v = process (pos 2) ready;
    can_run = fit with_sleeper 200 (pos 2) ready refl second_address;
    is_ready = refl;
    block_below = omega arith;
    context_below = omega arith;
  };
  context = user_context;
  has_context = refl;
}

sleeper-Sleeps : Sleeps 3 sleeping_machine 100 (200 ∷ []) 300 sleeper
sleeper-Sleeps = record {
  runs = refl;
  line = refl;
  distinct = ((refl, tt), (tt, tt));
  users = (first_user, (second_user, tt));
  room = λ m. refl;
  delayed = record { block = refl; alone = refl; ticks = refl };
  has_pid = refl;
  apart = (refl, (refl, tt));
}

delay_lasts_example :
    Returns
      (λ _. IsLastTick 300 sleeper user_context)
      (clock_traps (user_context ∷ user_context ∷ []) sleeping_machine)
delay_lasts_example =
    delay_lasts (user_context ∷ user_context ∷ []) user_context 300 200 [] sleeper sleeper-Sleeps
