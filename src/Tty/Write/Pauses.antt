-- ===== src/Tty/Write/Pauses.antt =====
-- Where a round of the loop of `TtyWriteHandler` leaves it, and that its end sends nothing.
use cs58_yalnix.Base.{ℕ, ◌≡◌, refl, true, false, Option, none, some, List, ltb}
use cs58_yalnix.Kernel.{
  Kernel, Terminal, M, Res, bind_res, ok, fault, halt, current, Outcome, paused, tty_write_loop,
}
use cs58_yalnix.Queue.{Queue}
use cs58_yalnix.Kernel.Ensures.{Ensures}
use cs58_yalnix.Kernel.Preserves.{Preserves, structure}
use cs58_yalnix.Kernel.Scheduler.{schedule_next_process}
use cs58_yalnix.Kernel.Scheduler.Frame.{store-Holds, push_ready-Holds, pop_blocked-Holds}
use cs58_yalnix.Tty.{terminal_at, put_terminal}
use cs58_yalnix.Tty.Write.{
  transmit, block_writer, pop_writer, unblock_writer, unblock_next, finish_write, transmit_from,
}
use cs58_yalnix.Tty.Write.Chunks.{Sent, schedule-sends, terminal_at-sends, put_terminal-sends}

-- A program after whose first part the second one decides.
Ensures-last :
    {A B : Type 0} (Q : B → Kernel → Type 0) (r : Res A) (f : A → M B)
    → ((a : A) (k : Kernel) → Ensures Q (f a k))
    → Ensures Q (bind_res r f)
Ensures-last Q (ok a k) f h = h a k
Ensures-last Q fault f h = tt
Ensures-last Q halt f h = tt

-- A round that sends ends at the loop's point for its first byte.
pub transmit_from-pauses :
    (k : Kernel) (i : ℕ) (bytes : ℕ → ℕ) (len start : ℕ)
    → ltb start len ≡ true
    → Ensures
        (λ o _. o ≡ paused (tty_write_loop i bytes len start))
        (transmit_from i bytes len start k)
unfolding transmit_from transmit
transmit_from-pauses k i bytes len start more =
    let Q = λ (o : Outcome) (_ : Kernel). o ≡ paused (tty_write_loop i bytes len start) in
    rw more (
      Ensures-last Q (current k) _ λ p k1. Ensures-last Q (terminal_at i k1) _ λ t k2.
        Ensures-last Q (put_terminal i (record t { curr_writer = some p }) k2) _ λ _ k3.
          Ensures-last Q (block_writer p (record k3 { transmitted = _ })) _
            λ _ k4. Ensures-last Q (schedule_next_process k4) _ λ _ k5. refl)

module _ (sent : List (ℕ × List ℕ)) where
  pop_writer-sends :
      (i : ℕ) (t : Terminal) (q : Option (Queue ℕ)) → Preserves (Sent sent) (pop_writer i t q)
  unfolding pop_writer
  pop_writer-sends i t none = search structure
  pop_writer-sends i t (some q) = search (structure, put_terminal-sends) depth 10

  unblock_writer-sends : (p : ℕ) → Preserves (Sent sent) (unblock_writer p)
  unfolding unblock_writer
  unblock_writer-sends p =
      let set = store-Holds (λ _ _ tr. tr ≡ sent) in
      let push = push_ready-Holds (λ _ _ tr. tr ≡ sent) in
      let pop = pop_blocked-Holds (λ _ _ tr. tr ≡ sent) in
      search (structure, set, push, pop) depth 20

  unblock_next-sends : (p : Option ℕ) → Preserves (Sent sent) (unblock_next p)
  unfolding unblock_next
  unblock_next-sends none = search structure
  unblock_next-sends (some p) = search (structure, schedule-sends, unblock_writer-sends) depth 20

  finish_write-sends : (i : ℕ) → Preserves (Sent sent) (finish_write i)
  unfolding finish_write
  finish_write-sends i =
      let set = store-Holds (λ _ _ tr. tr ≡ sent) in
      search
        (
          structure, set, terminal_at-sends, put_terminal-sends, pop_writer-sends,
          unblock_next-sends,
        )
        depth 20

-- The end of the loop sends nothing.
pub transmit_from-silent :
    (k : Kernel) (i : ℕ) (bytes : ℕ → ℕ) (len start : ℕ)
    → ltb start len ≡ false
    → Ensures (λ _ k'. k'.transmitted ≡ k.transmitted) (transmit_from i bytes len start k)
unfolding transmit_from
transmit_from-silent k i bytes len start done =
    rw done ((finish_write-sends k.transmitted i).keeps k refl)
