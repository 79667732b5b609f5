-- ===== src/Tty/Write/Blocking.antt =====
-- A round of the loop of `TtyWriteHandler` on a machine on which another process is ready.
use cs58_yalnix.Base.{ℕ, ◌≡◌, refl, true, false, some, none, List, [], ◌∷◌, ◌++◌, ltb, ◌==◌, ◌-◌}
use cs58_yalnix.Base.Int.{is_neg}
use cs58_yalnix.Kernel.{Kernel, Pcb, Terminal, update, blocked, Outcome, paused, tty_write_loop}
use cs58_yalnix.Kernel.Ensures.{
  Returns, Returns-bind, Returns-weaken, Returns-Ensures, Runs, current_lem,
}
use cs58_yalnix.Kernel.Scheduler.{schedule_next_process}
use cs58_yalnix.Kernel.Scheduler.Laws.{
  CanRun, CanRun-other, CanRun-self, schedule_next_process-block,
}
use cs58_yalnix.Set
use cs58_yalnix.Tty.{min}
use cs58_yalnix.Tty.Steps.{terminal_at_lem, put_terminal_lem}
use cs58_yalnix.Tty.Write.{segment, transmit, block_writer, transmit_from}
use cs58_yalnix.Tty.Write.Chunks.{transmit_from-sends, chunk_of}

module _ (k : Kernel) (p q : ℕ) (qs : List ℕ) (v u : Pcb)
    (from : CanRun k.hardware k.region_0_pages k.pcbs p v)
    (to : CanRun k.hardware k.region_0_pages k.pcbs q u) (apart : (p == q) ≡ false)
    (runs : k.current_process ≡ some p) (ready_line : k.process_ready_queue.items ≡ q ∷ qs)
    (terminals : ℕ → Terminal) (i : ℕ) (e : k.tty_state ≡ some terminals)
    (inside : ltb i k.hardware.num_terminals ≡ true) (bytes : ℕ → ℕ) (len start : ℕ) where
  abbrev stopped : Pcb
  stopped = record v { state = blocked; tty_write_waiting = true }

  abbrev claimed : Kernel
  claimed = record k {
    tty_state = some (update terminals i (record (terminals i) { curr_writer = some p }));
  }

  abbrev sent : Kernel
  sent = record claimed {
    transmitted = k.transmitted ++ (i, chunk_of k bytes len start) ∷ [];
    pcbs = update k.pcbs p (some stopped);
  }

  abbrev Blocks : Outcome → Kernel → Type 0
  Blocks rc k' =
      (rc ≡ paused (tty_write_loop i bytes len start))
      × (k'.current_process ≡ some q)
      × (k'.process_ready_queue.items ≡ qs)
      × (Set.find k'.blocked_pcbs v.pid ≡ some p)

  round-Blocks :
      ltb start len ≡ true
      → k.mem 0 ≡ true
      → is_neg v.pid ≡ false
      → Set.find k.blocked_pcbs v.pid ≡ none
      → Returns Blocks (transmit_from i bytes len start k)
  unfolding transmit_from transmit block_writer
  round-Blocks more room valid fresh =
      let r : Runs k p v = record { current = runs; block = from.block } in
      rw (more, current_lem r, terminal_at_lem k terminals i e inside)
        (rw (put_terminal_lem k terminals i e (record (terminals i) { curr_writer = some p })) (
          rw (from.block) (
            Returns-bind _ Blocks (schedule_next_process sent) _
              (schedule_next_process-block sent p q qs stopped u
                (CanRun-self stopped refl refl from) (CanRun-other p (some stopped) apart to) apart
                runs ready_line refl room valid fresh)
              (λ _ k' c. (refl, c.0.0, c.0.4, c.1)))))

  -- Where bytes are left to send to a terminal that exists, another process is ready, it and the
  -- caller are fit to run, the caller's pid is not negative and not in use in the blocked set and
  -- there is memory, a round of the loop of `TtyWriteHandler` hands the terminal the next piece, of
  -- TERMINAL_MAX_LINE bytes or what is left, in one call of `TtyTransmit`, and pauses the caller,
  -- which is then found in the blocked set, while the first process of the ready queue runs.
  pub transmit_from-blocks :
      ltb start len ≡ true
      → k.mem 0 ≡ true
      → is_neg v.pid ≡ false
      → Set.find k.blocked_pcbs v.pid ≡ none
      → Returns
          (λ rc k'.
            (rc ≡ paused (tty_write_loop i bytes len start))
            × (k'.current_process ≡ some q)
            × (k'.process_ready_queue.items ≡ qs)
            × (Set.find k'.blocked_pcbs v.pid ≡ some p)
            × (k'.transmitted
                ≡ k.transmitted
                  ++ (i, segment bytes start (min (len - start) k.hardware.terminal_max_line))
                    ∷ []))
          (transmit_from i bytes len start k)
  transmit_from-blocks more room valid fresh =
      Returns-weaken _ _ (transmit_from i bytes len start k)
        (Returns-Ensures _ _ (transmit_from i bytes len start k)
          (round-Blocks more room valid fresh) (transmit_from-sends k i bytes len start more))
        (λ _ k' c. (c.0.0, c.0.1, c.0.2, c.0.3, c.1))
