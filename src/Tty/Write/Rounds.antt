-- ===== src/Tty/Write/Rounds.antt =====
-- The rounds of a write, one after another, and all that they send.
use cs58_yalnix.Base.{
  ℕ, ◌+◌, ◌-◌, ◌*◌, ◌≤◌, ◌<◌, ◌≡◌, refl, sym, ap, ◌∙◌, true, false, List, [], ◌∷◌, ◌++◌, append-nil,
  ltb, arith, subst, All, length, length-append, Bool-cases, inl, inr,
}
use mathlib.Core.List.{append_cancel_left}
use native.Mathlib.Nat.{mul-suc}
use cs58_yalnix.Kernel.{Kernel, Outcome, ok, paused, tty_write_loop}
use cs58_yalnix.Kernel.Ensures.{Ensures}
use cs58_yalnix.Tty.{min}
use cs58_yalnix.Tty.Write.{segment, transmit_from}
use cs58_yalnix.Base.{false}
use cs58_yalnix.Kernel.{M}
use cs58_yalnix.Tty.Write.{tty_write_resume}
use cs58_yalnix.Tty.Write.Chunks.{length-segment, segment-append, chunk_of, transmit_from-sends}
use cs58_yalnix.Tty.Write.Pauses.{transmit_from-pauses, transmit_from-silent}

-- What is still to come of a write of `len` bytes to the terminal at `i`, from this part of the
-- handler on, with pieces of at most `size` bytes: the calls of `TtyTransmit` that are made. A part
-- either sends a piece and pauses in the loop, which goes on from there, or is the last and sends
-- nothing. Between two parts other processes run, and the kernel may be any other.
pub data Rounds (i : ℕ) (bytes : ℕ → ℕ) (len size : ℕ) : M Outcome → List (List ℕ) → Type 0 where
  over :
      {part : M Outcome} (k k' : Kernel) (o : Outcome)
      → k.hardware.terminal_max_line ≡ size
      → part k ≡ ok o k'
      → k'.transmitted ≡ k.transmitted
      → Rounds i bytes len size part []
  round :
      {part : M Outcome} {chunks : List (List ℕ)} (k k' : Kernel) (start : ℕ) (chunk : List ℕ)
      → k.hardware.terminal_max_line ≡ size
      → part k ≡ ok (paused (tty_write_loop i bytes len start)) k'
      → k'.transmitted ≡ k.transmitted ++ (i, chunk) ∷ []
      → Rounds i bytes len size (tty_write_resume i bytes len start) chunks
      → Rounds i bytes len size part (chunk ∷ chunks)

abbrev pub joined : List (List ℕ) → List ℕ
joined [] = []
joined (chunk ∷ chunks) = chunk ++ joined chunks

same_chunk :
    (sent : List (ℕ × List ℕ)) (i : ℕ) (c d : List ℕ) (after : List (ℕ × List ℕ))
    → after ≡ sent ++ (i, c) ∷ []
    → after ≡ sent ++ (i, d) ∷ []
    → c ≡ d
same_chunk sent i c d after e e' =
    let front : (i, c) ∷ [] ≡ (i, d) ∷ [] =
      append_cancel_left sent ((i, c) ∷ []) ((i, d) ∷ []) (sym e ∙ e') in
    ap (λ l. elim l [ [] ↦ c | x ∷ xs ↦ x.1 ]) front

not_longer : {A : Type 0} (xs : List A) (x : A) → xs ≡ xs ++ x ∷ [] → ⊥
not_longer xs x e =
    let longer = ap length e ∙ length-append xs (x ∷ []) in absurd (omega (arith, longer))

abbrev start_of : Outcome → ℕ
start_of (paused (tty_write_loop i bytes len start)) = start
start_of o = 0

-- A part that is the loop from `start` on, and what a run of it is then.
module _ (i : ℕ) (bytes : ℕ → ℕ) (len start size : ℕ) (part : M Outcome)
    (same : (k : Kernel)
      → k.hardware.terminal_max_line ≡ size
      → part k ≡ transmit_from i bytes len start k)
    (k k' : Kernel) (e : k.hardware.terminal_max_line ≡ size) where
  over_done :
      (o : Outcome) → part k ≡ ok o k' → k'.transmitted ≡ k.transmitted → ltb start len ≡ false
  over_done o run kept = elim (Bool-cases (ltb start len)) [
    | inr done ↦ done
    | inl more ↦
        let Q = λ (_ : Outcome) (k' : Kernel).
          k'.transmitted ≡ k.transmitted ++ (i, chunk_of k bytes len start) ∷ [] in
        let sent =
          subst (Ensures Q) (sym (same k e) ∙ run) (transmit_from-sends k i bytes len start more) in
        absurd (not_longer k.transmitted _ (sym kept ∙ sent))
  ]

  round_more :
      (from : ℕ) (chunk : List ℕ)
      → part k ≡ ok (paused (tty_write_loop i bytes len from)) k'
      → k'.transmitted ≡ k.transmitted ++ (i, chunk) ∷ []
      → ltb start len ≡ true
  round_more from chunk run sent = elim (Bool-cases (ltb start len)) [
    | inl more ↦ more
    | inr done ↦
        let Q = λ (_ : Outcome) (k' : Kernel). k'.transmitted ≡ k.transmitted in
        let kept =
          subst (Ensures Q) (sym (same k e) ∙ run)
            (transmit_from-silent k i bytes len start done) in
        absurd (not_longer k.transmitted _ (sym kept ∙ sent))
  ]

  round_start :
      (from : ℕ)
      → part k ≡ ok (paused (tty_write_loop i bytes len from)) k'
      → ltb start len ≡ true
      → from ≡ start
  round_start from run more =
      let Q = λ (o : Outcome) (_ : Kernel). o ≡ paused (tty_write_loop i bytes len start) in
      let point =
        subst (Ensures Q) (sym (same k e) ∙ run) (transmit_from-pauses k i bytes len start more) in
      ap start_of point

  round_chunk :
      (from : ℕ) (chunk : List ℕ)
      → part k ≡ ok (paused (tty_write_loop i bytes len from)) k'
      → k'.transmitted ≡ k.transmitted ++ (i, chunk) ∷ []
      → ltb start len ≡ true
      → chunk ≡ segment bytes start (min (len - start) size)
  round_chunk from chunk run sent more =
      let Q = λ (_ : Outcome) (k' : Kernel).
        k'.transmitted ≡ k.transmitted ++ (i, chunk_of k bytes len start) ∷ [] in
      let sent' =
        subst (Ensures Q) (sym (same k e) ∙ run) (transmit_from-sends k i bytes len start more) in
      same_chunk k.transmitted i chunk (chunk_of k bytes len start) k'.transmitted sent sent'
      ∙ ap (λ n. segment bytes start (min (len - start) n)) e

-- A piece is neither empty nor longer than a terminal takes.
abbrev pub Fits : ℕ → List ℕ → Type 0
Fits size chunk = (0 < length chunk) × (length chunk ≤ size)

split :
    (bytes : ℕ → ℕ) (len size start : ℕ)
    → ltb start len ≡ true
    → segment bytes start (min (len - start) size)
        ++ segment bytes (start + size) (len - (start + size))
      ≡ segment bytes start (len - start)
split bytes len size start more = elim (Bool-cases (ltb (len - start) size)) [
  | inl last ↦
      let none_left : len - (start + size) ≡ 0 = ground arith in rw (last, none_left, append-nil)
  | inr full ↦
      let whole : len - start ≡ size + (len - (start + size)) = ground arith in
      rw (full, whole, segment-append bytes start size (len - (start + size)))
]

-- A part that is the loop from `start` on.
abbrev IsFrom : (i : ℕ) (bytes : ℕ → ℕ) (len size start : ℕ) → M Outcome → Type 0
IsFrom i bytes len size start part =
    (k : Kernel) → k.hardware.terminal_max_line ≡ size → part k ≡ transmit_from i bytes len start k

resume-IsFrom :
    (i : ℕ) (bytes : ℕ → ℕ) (len size start : ℕ)
    → IsFrom i bytes len size (start + size) (tty_write_resume i bytes len start)
unfolding tty_write_resume
resume-IsFrom i bytes len size start k e = rw e refl

ended :
    {i : ℕ} {bytes : ℕ → ℕ} {len size : ℕ} {part : M Outcome} {chunks : List (List ℕ)} (start : ℕ)
    → IsFrom i bytes len size start part
    → Rounds i bytes len size part chunks
    → ltb start len ≡ false
    → size * length chunks ≡ 0
ended start same (over k k' o e run kept) done = omega arith
ended {i} {bytes} {len} {size} {part} start same (round k k' from chunk e run sent later) done =
    let more = round_more i bytes len start size part same k k' e from chunk run sent in
    absurd (let e' = more in cc)

Rounds-from :
    {i : ℕ} {bytes : ℕ → ℕ} {len size : ℕ} {part : M Outcome} {chunks : List (List ℕ)} (start : ℕ)
    → 0 < size
    → IsFrom i bytes len size start part
    → Rounds i bytes len size part chunks
    → (joined chunks ≡ segment bytes start (len - start))
      × All (Fits size) chunks
      × (len - start ≤ size * length chunks)
      × (size * length chunks < len - start + size)
Rounds-from {i} {bytes} {len} {size} {part} start positive same (over k k' o e run kept) =
    let done = over_done i bytes len start size part same k k' e o run kept in
    let none_left : len - start ≡ 0 = ground arith in
    let nothing : size * 0 ≡ 0 = omega arith in
    rw (none_left, nothing) (refl, tt, omega arith, omega arith)
Rounds-from {i} {bytes} {len} {size} {part} {chunks = _ ∷ chunks} start positive same
      (round k k' from chunk e run sent later) =
    let more = round_more i bytes len start size part same k k' e from chunk run sent in
    let here = round_start i bytes len start size part same k k' e from run more in
    let first = round_chunk i bytes len start size part same k k' e from chunk run sent more in
    let next : IsFrom i bytes len size (start + size) (tty_write_resume i bytes len from) =
      rw here (resume-IsFrom i bytes len size start) in
    let (bytes_sent, fit, enough, few) = Rounds-from (start + size) positive next later in
    let long = ap length first ∙ length-segment bytes start (min (len - start) size) in
    let count = mul-suc size (length chunks) in
    let last = ended (start + size) next later in
    (
      rw (first, bytes_sent) (split bytes len size start more),
      ((ground arith, ground arith), fit),
      ground arith,
      ground arith,
    )

-- Where a write of `len` bytes goes through its loop from `start` on to the end, what is sent is the
-- buffer from there, in order: no piece is empty or longer than the size a terminal takes, and there
-- are no more pieces than needed for it.
pub Rounds-send :
    {i : ℕ} {bytes : ℕ → ℕ} {len size : ℕ} {chunks : List (List ℕ)} (start : ℕ)
    → 0 < size
    → Rounds i bytes len size (transmit_from i bytes len start) chunks
    → (joined chunks ≡ segment bytes start (len - start))
      × All (Fits size) chunks
      × (len - start ≤ size * length chunks)
      × (size * length chunks < len - start + size)
Rounds-send start positive rounds = Rounds-from start positive (λ k e. refl) rounds
