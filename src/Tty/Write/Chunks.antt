-- ===== src/Tty/Write/Chunks.antt =====
-- How `TtyWriteHandler` cuts a buffer into the pieces that a terminal takes.
use cs58_yalnix.Base.{
  ℕ, zero, suc, ◌+◌, ◌-◌, ◌≡◌, refl, ap, true, some, List, [], ◌∷◌, ◌++◌, ltb, arith, length,
}
use cs58_yalnix.Kernel.{Kernel, Terminal, pure, ◌>>◌, current, paused, tty_write_loop}
use cs58_yalnix.Kernel.Ensures.{Ensures, Ensures-bind}
use cs58_yalnix.Kernel.Preserves.{Preserves, Preserves-current, structure}
use cs58_yalnix.Kernel.Scheduler.Frame.{schedule_next_process-Holds}
use cs58_yalnix.Kernel.Scheduler.{schedule_next_process}
use cs58_yalnix.Tty.{min, terminal_at, put_terminal}
use cs58_yalnix.Tty.Write.{segment, transmit, block_writer, transmit_from}

pub length-segment : (bytes : ℕ → ℕ) (start n : ℕ) → length (segment bytes start n) ≡ n
length-segment bytes start zero = refl
length-segment bytes start (suc n) = ap suc (length-segment bytes (start + 1) n)

pub segment-append :
    (bytes : ℕ → ℕ) (start m n : ℕ)
    → segment bytes start m ++ segment bytes (start + m) n ≡ segment bytes start (m + n)
segment-append bytes start zero n =
    let e : start + 0 ≡ start = omega arith in let e' : 0 + n ≡ n = omega arith in rw (e, e')
segment-append bytes start (suc m) n =
    let e : start + suc m ≡ start + 1 + m = omega arith in
    let e' : suc m + n ≡ suc (m + n) = omega arith in
    rw (e, e', segment-append bytes (start + 1) m n)

module _ (sent : List (ℕ × List ℕ)) where
  abbrev pub Sent : Kernel → Type 0
  Sent k = k.transmitted ≡ sent

  pub terminal_at-sends : (i : ℕ) → Preserves Sent (terminal_at i)
  unfolding terminal_at
  terminal_at-sends i = search structure depth 10

  pub put_terminal-sends : (i : ℕ) (t : Terminal) → Preserves Sent (put_terminal i t)
  unfolding put_terminal
  put_terminal-sends i t = search structure depth 10

  block_writer-sends : (p : ℕ) → Preserves Sent (block_writer p)
  unfolding block_writer
  block_writer-sends p = search structure depth 10

  pub schedule-sends : Preserves Sent schedule_next_process
  schedule-sends = schedule_next_process-Holds (λ _ _ tr. tr ≡ sent)

-- The bytes that a round of the loop sends.
abbrev pub chunk_of : Kernel → (ℕ → ℕ) → (len start : ℕ) → List ℕ
chunk_of k bytes len start = segment bytes start (min (len - start) k.hardware.terminal_max_line)

-- One round of the loop makes one call of `TtyTransmit`.
pub transmit_from-sends :
    (k : Kernel) (i : ℕ) (bytes : ℕ → ℕ) (len start : ℕ)
    → ltb start len ≡ true
    → Ensures
        (λ _ k'. k'.transmitted ≡ k.transmitted ++ (i, chunk_of k bytes len start) ∷ [])
        (transmit_from i bytes len start k)
unfolding transmit_from transmit
transmit_from-sends k i bytes len start more =
    let before = k.transmitted in
    let after = before ++ (i, chunk_of k bytes len start) ∷ [] in
    rw more (
      Ensures-bind (λ _. Sent before) (λ _. Sent after) (current k) _
        ((Preserves-current (Sent before)).keeps k refl)
        λ p k1 h1.
          Ensures-bind (λ _. Sent before) (λ _. Sent after) (terminal_at i k1) _
            ((terminal_at-sends before i).keeps k1 h1)
            λ t k2 h2.
              Ensures-bind (λ _. Sent before) (λ _. Sent after)
                (put_terminal i (record t { curr_writer = some p }) k2) _
                ((put_terminal-sends before i _).keeps k2 h2)
                λ _ k3 h3.
                  (rest after p).keeps
                    (record k3 {
                      transmitted = k3.transmitted ++ (i, chunk_of k bytes len start) ∷ [];
                    })
                    (ap (λ s. s ++ (i, chunk_of k bytes len start) ∷ []) h3))
  where
    rest :
        (sent : List (ℕ × List ℕ)) (p : ℕ)
        → Preserves (Sent sent) (do
          block_writer p
          schedule_next_process
          pure (paused (tty_write_loop i bytes len start)))
    rest sent p = search (structure, block_writer-sends, schedule-sends)
