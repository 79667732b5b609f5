-- ===== src/Process/Delay/Countdown.antt =====
-- What the clock counts, for one delayed process.
use cs58_yalnix.Base.{ℕ, suc, ◌≡◌, refl, arith, ==_refl, true, false, some, [], ◌∷◌}
use cs58_yalnix.Base.Int.{pos, leb_ℤ, ◌-ℤ◌}
use cs58_yalnix.Kernel.{Kernel, Pcb, ok, update, ready, set_state, pop_delayed, push_ready}
use cs58_yalnix.Kernel.Scheduler.Laws.{after_push}
use cs58_yalnix.Queue
use cs58_yalnix.Set
use cs58_yalnix.Process.Delay.{tick_process, tick_all, count_down}

less_one : (n : ℕ) → pos (suc n) -ℤ pos 1 ≡ pos n
less_one n = ground arith

time_left : (n : ℕ) → leb_ℤ (pos (suc n)) (pos 0) ≡ false
time_left n = ground arith

-- The kernel with so many ticks left for the process at `p`, and when it has been woken up.
abbrev pub ticked : Kernel → ℕ → Pcb → ℕ → Kernel
ticked k p v n = record k { pcbs = update k.pcbs p (some (record v { delay_ticks = pos n })) }

abbrev pub woken : Kernel → ℕ → Pcb → Kernel
woken k p v =
    after_push
      (record k {
        delayed_pcbs = (Set.pop k.delayed_pcbs v.pid).1;
        pcbs =
            update (ticked k p v 0).pcbs p (some (record v { delay_ticks = pos 0; state = ready }));
      })
      p

-- The process at `p` is the only one that is delayed, for so many more ticks.
pub record Delayed (p n : ℕ) (k : Kernel) (v : Pcb) : Type 0 where
  pub block : k.pcbs p ≡ some v
  pub alone : k.delayed_pcbs.nodes ≡ (v.pid, p) ∷ []
  pub ticks : v.delay_ticks ≡ pos n

pub count_down-more :
    (p n : ℕ) (k : Kernel) (v : Pcb)
    → Delayed p (suc (suc n)) k v
    → count_down k ≡ ok tt (ticked k p v (suc n))
unfolding count_down tick_all tick_process
count_down-more p n k v d = rw (d.alone, d.block, d.ticks, less_one (suc n), time_left n)

pub count_down-last :
    (p : ℕ) (k : Kernel) (v : Pcb)
    → Delayed p 1 k v
    → k.mem 0 ≡ true
    → count_down k ≡ ok tt (woken k p v)
unfolding count_down tick_all tick_process pop_delayed set_state push_ready Queue.push
count_down-last p k v d room = rw (d.alone, d.block, d.ticks, ==_refl p, room) refl
