-- ===== src/Tty/Calls/Invariant.antt =====
-- The terminals stay usable.
use cs58_yalnix.Base.{
  ℕ, ◌≡◌, refl, ◌≤◌, Bool, true, false, Option, none, some, List, [], ◌∷◌, ltb, arith,
}
use cs58_yalnix.Kernel.{Hardware, Kernel, Terminal}
use cs58_yalnix.Kernel.Ensures.{Ensures, Ensures-weaken}
use cs58_yalnix.Kernel.Preserves.{Preserves-then, structure}
use cs58_yalnix.Kernel.Scheduler.Frame.{Holds, schedule_next_process-Holds}
use cs58_yalnix.Tty.Frame.{AllTerminals, Sound, Keeps}
use cs58_yalnix.Tty.Read.Keeps.{tty_read_handler-Keeps, tty_read_resume-Keeps}
use cs58_yalnix.Tty.Write.Keeps.{
  tty_write_handler-Keeps, await_terminal-Keeps, tty_write_resume-Keeps,
}
use cs58_yalnix.Tty.Traps.Keeps.{trap_tty_receive_handler-Keeps, trap_tty_transmit_handler-Keeps}
use cs58_yalnix.Tty.Calls.{
  TtyCall, read, read_resumed, write, wait_resumed, write_resumed, received, transmitted, scheduled,
  run_call, run,
}

module _ (hw : Hardware) where
  -- A terminal that exists is available if nobody writes to it, and has a line at most to be read.
  abbrev Usable : ℕ → Bool → Option ℕ → ℕ → Type 0
  Usable i a w b =
      ltb i hw.num_terminals ≡ true → (w ≡ none → a ≡ true) × (b ≤ hw.terminal_max_line)

  abbrev pub IsUsable : ℕ → Terminal → Type 0
  IsUsable i t = Usable i t.availability t.curr_writer t.bytes_available

  abbrev Anything : List (ℕ × List ℕ) → Type 0
  Anything sent = Unit

  abbrev Anywhere : ℕ → Type 0
  Anywhere i = Unit

  less : (i : ℕ) (a : Bool) (w : Option ℕ) (b n : ℕ) → n ≤ b → Usable i a w b → Usable i a w n
  less i a w b n le h inside = ((h inside).0, omega (arith, (h inside).1))

  line :
      (i : ℕ) (a : Bool) (w : Option ℕ) (b n : ℕ)
      → n ≤ hw.terminal_max_line
      → Usable i a w b
      → Usable i a w n
  line i a w b n le h inside = ((h inside).0, le)

  claim :
      (i : ℕ) (w : Option ℕ) (b p : ℕ) → Usable i true w b → Anywhere i × Usable i false (some p) b
  claim i w b p h = (tt, λ inside. (λ e. cc, (h inside).1))

  own :
      (i : ℕ) (a : Bool) (w : Option ℕ) (b p : ℕ)
      → Anywhere i
      → Usable i a w b
      → Usable i a (some p) b
  own i a w b p may h inside = (λ e. cc, (h inside).1)

  free :
      (i : ℕ) (a : Bool) (w : Option ℕ) (b : ℕ) → Anywhere i → Usable i a w b → Usable i true none b
  free i a w b may h inside = (λ e. refl, (h inside).1)

  run_call-Keeps : (c : TtyCall) → Keeps hw Usable Anything (run_call c)
  unfolding run_call
  run_call-Keeps (read tty_id buf len) =
      let kept = tty_read_handler-Keeps hw Usable Anything less line in search (structure, kept)
  run_call-Keeps (read_resumed i buf) =
      let kept = tty_read_resume-Keeps hw Usable Anything less line in search (structure, kept)
  run_call-Keeps (write tty_id buf len) =
      let kept =
        tty_write_handler-Keeps hw Usable Anything Anywhere claim own free (λ i c s m h. tt) in
      search (structure, kept)
  run_call-Keeps (wait_resumed i buf len) =
      let kept =
        await_terminal-Keeps hw Usable Anything Anywhere claim own free (λ i c s m h. tt) in
      search (structure, kept)
  run_call-Keeps (write_resumed i bytes len start) =
      let kept =
        tty_write_resume-Keeps hw Usable Anything Anywhere claim own free (λ i c s m h. tt) i bytes
          len start tt in
      search (structure, kept)
  run_call-Keeps (received heap bytes n code) =
      let kept = trap_tty_receive_handler-Keeps hw Usable Anything less line in
      search (structure, kept)
  run_call-Keeps (transmitted code) =
      let kept =
        trap_tty_transmit_handler-Keeps hw Usable Anything less line
          (λ i a b h. free i a none b tt h) in
      search (structure, kept)
  run_call-Keeps scheduled = schedule_next_process-Holds (Sound hw Usable Anything)

  run-Keeps : (cs : List TtyCall) → Keeps hw Usable Anything (run cs)
  unfolding run
  run-Keeps [] = search structure
  run-Keeps (c ∷ cs) =
      Preserves-then (Holds (Sound hw Usable Anything)) (run_call c) (run cs) (run_call-Keeps c)
        (run-Keeps cs)

-- Whatever system calls on terminals, resumed calls, terminal traps and other calls of the scheduler
-- come, in whatever order and with whatever arguments: if every terminal that nobody writes to is
-- available, and no terminal holds more than TERMINAL_MAX_LINE bytes to be read, so it is once they
-- are over.
pub run-IsUsable :
    (k : Kernel) (calls : List TtyCall)
    → AllTerminals (IsUsable k.hardware) k.tty_state
    → Ensures (λ _ k'. AllTerminals (IsUsable k.hardware) k'.tty_state) (run calls k)
run-IsUsable k calls h =
    Ensures-weaken _ _ (run calls k) ((run-Keeps k.hardware calls).keeps k (refl, h, tt))
      λ _ k' c. c.1
