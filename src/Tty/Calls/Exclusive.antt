-- ===== src/Tty/Calls/Exclusive.antt =====
-- A terminal that a process writes to is that process's alone.
use cs58_yalnix.Base.{
  ℕ, ◌≡◌, refl, ◌≤◌, Bool, true, false, Option, none, some, List, [], ◌∷◌, ◌==◌, ◌++◌, inl, inr,
  Bool-cases, if◌then◌else◌, All,
}
use cs58_yalnix.Kernel.{Hardware, Kernel, Terminal}
use cs58_yalnix.Kernel.Ensures.{Ensures, Ensures-weaken}
use cs58_yalnix.Kernel.Preserves.{Preserves-then, structure}
use cs58_yalnix.Kernel.Scheduler.Frame.{Holds, schedule_next_process-Holds}
use cs58_yalnix.Tty.Frame.{AllTerminals, Sound, Keeps}
use cs58_yalnix.Tty.Read.Keeps.{tty_read_handler-Keeps, tty_read_resume-Keeps}
use cs58_yalnix.Tty.Write.Keeps.{
  tty_write_handler-Keeps, await_terminal-Keeps, tty_write_resume-Keeps,
}
use cs58_yalnix.Tty.Traps.Keeps.{trap_tty_receive_handler-Keeps, trap_tty_transmit_handler-Keeps}
use cs58_yalnix.Tty.Calls.{
  TtyCall, read, read_resumed, write, wait_resumed, write_resumed, received, transmitted, scheduled,
  run_call, run,
}

-- What was sent to a terminal, call by call.
abbrev pub sent_to : ℕ → List (ℕ × List ℕ) → List (List ℕ)
sent_to i [] = []
sent_to i ((j, chunk) ∷ sent) = if i == j then chunk ∷ sent_to i sent else sent_to i sent

sent_to-other :
    (i j : ℕ) (chunk : List ℕ) (sent : List (ℕ × List ℕ))
    → (i == j) ≡ false
    → sent_to i (sent ++ (j, chunk) ∷ []) ≡ sent_to i sent
sent_to-other i j chunk [] apart = rw apart
sent_to-other i j chunk ((n, c) ∷ sent) apart = elim (Bool-cases (i == n)) [
  | inl same ↦ rw (same, sent_to-other i j chunk sent apart)
  | inr other ↦ rw (other, sent_to-other i j chunk sent apart)
]

-- The call is what the writer of the terminal does once it runs again.
abbrev pub is_writers : ℕ → TtyCall → Bool
is_writers i (write_resumed j bytes len start) = i == j
is_writers i _ = false

-- Among the terminals, the one at `i` is taken by the process at `holder`.
abbrev pub IsHeld : (i holder : ℕ) → ℕ → Terminal → Type 0
IsHeld i holder j t = (i == j) ≡ true → (t.availability ≡ false) × (t.curr_writer ≡ some holder)

module _ (hw : Hardware) (i holder : ℕ) (before : List (List ℕ)) where
  abbrev Held : ℕ → Bool → Option ℕ → ℕ → Type 0
  Held j a w b = (i == j) ≡ true → (a ≡ false) × (w ≡ some holder)

  abbrev Nothing : List (ℕ × List ℕ) → Type 0
  Nothing sent = sent_to i sent ≡ before

  abbrev Elsewhere : ℕ → Type 0
  Elsewhere j = (i == j) ≡ false

  less : (j : ℕ) (a : Bool) (w : Option ℕ) (b n : ℕ) → n ≤ b → Held j a w b → Held j a w n
  less j a w b n le h = h

  line :
      (j : ℕ) (a : Bool) (w : Option ℕ) (b n : ℕ)
      → n ≤ hw.terminal_max_line
      → Held j a w b
      → Held j a w n
  line j a w b n le h = h

  claim : (j : ℕ) (w : Option ℕ) (b p : ℕ) → Held j true w b → Elsewhere j × Held j false (some p) b
  claim j w b p h = elim (Bool-cases (i == j)) [
    | inl same ↦ absurd (let e = (h same).0 in cc)
    | inr other ↦ (other, λ same. absurd (let e = other in cc))
  ]

  own :
      (j : ℕ) (a : Bool) (w : Option ℕ) (b p : ℕ) → Elsewhere j → Held j a w b → Held j a (some p) b
  own j a w b p other h same = absurd (let e = other in cc)

  free : (j : ℕ) (a : Bool) (w : Option ℕ) (b : ℕ) → Elsewhere j → Held j a w b → Held j true none b
  free j a w b other h same = absurd (let e = other in cc)

  released : (j : ℕ) (a : Bool) (b : ℕ) → Held j a none b → Held j true none b
  released j a b h same = absurd (let e = (h same).1 in cc)

  send :
      (j : ℕ) (chunk : List ℕ) (sent : List (ℕ × List ℕ))
      → Elsewhere j
      → Nothing sent
      → Nothing (sent ++ (j, chunk) ∷ [])
  send j chunk sent other h = rw (sent_to-other i j chunk sent other, h)

  run_call-Keeps : (c : TtyCall) → is_writers i c ≡ false → Keeps hw Held Nothing (run_call c)
  unfolding run_call
  run_call-Keeps (read tty_id buf len) _ =
      let kept = tty_read_handler-Keeps hw Held Nothing less line in search (structure, kept)
  run_call-Keeps (read_resumed j buf) _ =
      let kept = tty_read_resume-Keeps hw Held Nothing less line in search (structure, kept)
  run_call-Keeps (write tty_id buf len) _ =
      let kept = tty_write_handler-Keeps hw Held Nothing Elsewhere claim own free send in
      search (structure, kept)
  run_call-Keeps (wait_resumed j buf len) _ =
      let kept = await_terminal-Keeps hw Held Nothing Elsewhere claim own free send in
      search (structure, kept)
  run_call-Keeps (write_resumed j bytes len start) other =
      let kept =
        tty_write_resume-Keeps hw Held Nothing Elsewhere claim own free send j bytes len start
          other in
      search (structure, kept)
  run_call-Keeps (received heap bytes n code) _ =
      let kept = trap_tty_receive_handler-Keeps hw Held Nothing less line in
      search (structure, kept)
  run_call-Keeps (transmitted code) _ =
      let kept = trap_tty_transmit_handler-Keeps hw Held Nothing less line released in
      search (structure, kept)
  run_call-Keeps scheduled _ = schedule_next_process-Holds (Sound hw Held Nothing)

  run-Keeps :
      (cs : List TtyCall) → All (λ c. is_writers i c ≡ false) cs → Keeps hw Held Nothing (run cs)
  unfolding run
  run-Keeps [] others = search structure
  run-Keeps (c ∷ cs) others =
      Preserves-then (Holds (Sound hw Held Nothing)) (run_call c) (run cs)
        (run_call-Keeps c (others.0)) (run-Keeps cs (others.1))

-- While a process has a terminal, and until that process's own write goes on, no call of any process
-- and no trap takes the terminal from it, and no bytes are sent there: whatever system calls on any
-- terminals, resumed calls, terminal traps and other calls of the scheduler come, in whatever order,
-- the terminal has the same writer, is not available, and was sent what it had been sent before.
pub run-exclusive :
    (k : Kernel) (i holder : ℕ) (calls : List TtyCall)
    → AllTerminals (IsHeld i holder) k.tty_state
    → All (λ c. is_writers i c ≡ false) calls
    → Ensures
        (λ _ k'.
          AllTerminals (IsHeld i holder) k'.tty_state
          × (sent_to i k'.transmitted ≡ sent_to i k.transmitted))
        (run calls k)
run-exclusive k i holder calls held others =
    let before = sent_to i k.transmitted in
    Ensures-weaken _ _ (run calls k)
      ((run-Keeps k.hardware i holder before calls others).keeps k (refl, held, refl))
      λ _ k' c. (c.1, c.2)
