-- ===== src/Loader/Memory/Arguments.antt =====
-- The argument list on a new stack, read back.
use cs58_yalnix.Base.{
  ℕ, ◌≡◌, ◌≤◌, ◌<◌, ◌⊎◌, inl, inr, refl, ap, sym, ◌∙◌, ◌+◌, ◌-◌, ◌*◌, ◌/◌, ◌%◌, ◌^◌, true, ◌&&◌,
  List, [], ◌∷◌, length, ltb, leb, arith,
}
use cs58_yalnix.Kernel.{Hardware}
use cs58_yalnix.Loader.{args_size, limit_1}
use cs58_yalnix.Loader.Memory.{with_bytes, with_word, with_string, with_args, new_stack}

-- The little-endian word at an address, and the string with its NUL.
abbrev pub word_at : (ℕ → ℕ) → ℕ → ℕ
word_at mem a = mem a + 256 * mem (a + 1) + 65536 * mem (a + 2) + 16777216 * mem (a + 3)

abbrev pub StringAt : (ℕ → ℕ) → ℕ → List ℕ → Type 0
StringAt mem p [] = mem p ≡ 0
StringAt mem p (c ∷ cs) = (mem p ≡ c) × StringAt mem (p + 1) cs

-- The words from `at` on point to these strings.
abbrev pub Argv : (ℕ → ℕ) → ℕ → List (List ℕ) → Type 0
Argv mem at [] = Unit
Argv mem at (a ∷ args) = StringAt mem (word_at mem at) a × Argv mem (at + 4) args

with_word-outside :
    (addr w : ℕ) (mem : ℕ → ℕ) (a : ℕ)
    → (a < addr) ⊎ (addr + 4 ≤ a)
    → with_word addr w mem a ≡ mem a
with_word-outside addr w mem a (inl low) = ground arith
with_word-outside addr w mem a (inr high) = ground arith

with_bytes-outside :
    (addr n : ℕ) (bytes mem : ℕ → ℕ) (a : ℕ)
    → (a < addr) ⊎ (addr + n ≤ a)
    → with_bytes addr n bytes mem a ≡ mem a
with_bytes-outside addr n bytes mem a (inl low) = ground arith
with_bytes-outside addr n bytes mem a (inr high) = ground arith

with_string-outside :
    (p : ℕ) (s : List ℕ) (mem : ℕ → ℕ) (a : ℕ)
    → (a < p) ⊎ (p + length s + 1 ≤ a)
    → with_string p s mem a ≡ mem a
with_string-outside p [] mem a (inl low) = with_bytes-outside p 1 (λ _. 0) mem a (inl low)
with_string-outside p [] mem a (inr high) =
    with_bytes-outside p 1 (λ _. 0) mem a (inr (omega arith))
with_string-outside p (c ∷ cs) mem a (inl low) =
    with_string-outside (p + 1) cs (with_bytes p 1 (λ _. c) mem) a (inl (omega arith))
    ∙ with_bytes-outside p 1 (λ _. c) mem a (inl low)
with_string-outside p (c ∷ cs) mem a (inr high) =
    with_string-outside (p + 1) cs (with_bytes p 1 (λ _. c) mem) a (inr (omega arith))
    ∙ with_bytes-outside p 1 (λ _. c) mem a (inr (omega arith))

-- Where a memory agrees with one that the string was written to, the string is there.
StringAt-with_string :
    (p : ℕ) (s : List ℕ) (mem mem' : ℕ → ℕ)
    → ((a : ℕ) → p ≤ a → a < p + length s + 1 → mem' a ≡ with_string p s mem a)
    → StringAt mem' p s
StringAt-with_string p [] mem mem' same = same p (omega arith) (omega arith) ∙ ground arith
StringAt-with_string p (c ∷ cs) mem mem' same = (
  same p (omega arith) (omega arith)
      ∙ with_string-outside (p + 1) cs (with_bytes p 1 (λ _. c) mem) p (inl (omega arith))
      ∙ ground arith,
  StringAt-with_string (p + 1) cs (with_bytes p 1 (λ _. c) mem) mem'
      λ a low high. same a (omega arith) (omega arith),
)

byte_of_word :
    (addr w i : ℕ) (mem : ℕ → ℕ) → i < 4 → with_word addr w mem (addr + i) ≡ w / 256 ^ i % 256
byte_of_word addr w i mem inside =
    let e : addr + i - addr ≡ i = omega arith in
    let test : (leb addr (addr + i) && ltb (addr + i) (addr + 4)) ≡ true = ground arith in
    rw (test, e) refl

word_at-with_word :
    (addr w : ℕ) (mem mem' : ℕ → ℕ)
    → w < 2 ^ 32
    → ((a : ℕ) → addr ≤ a → a < addr + 4 → mem' a ≡ with_word addr w mem a)
    → word_at mem' addr ≡ w
word_at-with_word addr w mem mem' fits same =
    let start : addr + 0 ≡ addr = omega arith in
    let b0 : mem' addr ≡ w % 256 =
      same addr (omega arith) (omega arith)
      ∙ ap (with_word addr w mem) (sym start)
      ∙ byte_of_word addr w 0 mem (omega arith)
      ∙ omega arith in
    let b1 : mem' (addr + 1) ≡ w / 256 % 256 =
      same (addr + 1) (omega arith) (omega arith) ∙ byte_of_word addr w 1 mem (omega arith) in
    let b2 : mem' (addr + 2) ≡ w / 65536 % 256 =
      same (addr + 2) (omega arith) (omega arith) ∙ byte_of_word addr w 2 mem (omega arith) in
    let b3 : mem' (addr + 3) ≡ w / 16777216 % 256 =
      same (addr + 3) (omega arith) (omega arith) ∙ byte_of_word addr w 3 mem (omega arith) in
    rw (b0, b1, b2, b3) (omega arith)

-- Below the words, between words and strings, and above the strings nothing is written.
abbrev Outside : ℕ → ℕ → List (List ℕ) → ℕ → Type 0
Outside cpp cp args a =
    (a < cpp) ⊎ (((cpp + 4 * length args ≤ a) × (a < cp)) ⊎ (cp + args_size args ≤ a))

with_args-Outside :
    (cpp cp : ℕ) (args : List (List ℕ)) (mem : ℕ → ℕ) (a : ℕ)
    → cpp + 4 * length args ≤ cp
    → Outside cpp cp args a
    → with_args cpp cp args mem a ≡ mem a
unfolding with_args
with_args-Outside cpp cp [] mem a fits out = refl
with_args-Outside cpp cp (s ∷ args) mem a fits out =
    let later : Outside (cpp + 4) (cp + length s + 1) args a = elim out [
      | inl low ↦ inl (omega arith)
      | inr (inl between) ↦ inr (inl (omega arith, omega arith))
      | inr (inr high) ↦ inr (inr (omega arith))
    ] in
    let string : (a < cp) ⊎ (cp + length s + 1 ≤ a) = elim out [
      | inl low ↦ inl (omega arith)
      | inr (inl between) ↦ inl (between.1)
      | inr (inr high) ↦ inr (omega arith)
    ] in
    let word : (a < cpp) ⊎ (cpp + 4 ≤ a) = elim out [
      | inl low ↦ inl low
      | inr (inl between) ↦ inr (omega arith)
      | inr (inr high) ↦ inr (omega arith)
    ] in
    with_args-Outside (cpp + 4) (cp + length s + 1) args (with_string cp s (with_word cpp cp mem)) a
      (omega arith) later
    ∙ with_string-outside cp s (with_word cpp cp mem) a string
    ∙ with_word-outside cpp cp mem a word

-- A memory that agrees on the words and the strings with one to which the arguments were written
-- has them.
Argv-with_args :
    (cpp cp : ℕ) (args : List (List ℕ)) (mem mem' : ℕ → ℕ)
    → cpp + 4 * length args ≤ cp
    → cp + args_size args ≤ 2 ^ 32
    → ((a : ℕ)
        → cpp ≤ a
        → a < cp + args_size args
        → (a < cpp + 4 * length args) ⊎ (cp ≤ a)
        → mem' a ≡ with_args cpp cp args mem a)
    → Argv mem' cpp args
unfolding with_args
Argv-with_args cpp cp [] mem mem' fits inside same = tt
Argv-with_args cpp cp (s ∷ args) mem mem' fits inside same =
    let mem1 = with_string cp s (with_word cpp cp mem) in
    let here : word_at mem' cpp ≡ cp = word_at-with_word cpp cp mem mem' (omega arith) λ a low high.
      same a low (omega arith) (inl (omega arith))
      ∙ with_args-Outside (cpp + 4) (cp + length s + 1) args mem1 a (omega arith)
          (inl (omega arith))
      ∙ with_string-outside cp s (with_word cpp cp mem) a (inl (omega arith)) in
    (
      rw here (
          StringAt-with_string cp s (with_word cpp cp mem) mem' λ a low high.
            same a (omega arith) (omega arith) (inr low)
            ∙ with_args-Outside (cpp + 4) (cp + length s + 1) args mem1 a (omega arith)
                (inr (inl (omega arith, omega arith)))),
      Argv-with_args (cpp + 4) (cp + length s + 1) args mem1 mem' (omega arith) (omega arith)
          λ a low high part.
            same a (omega arith) (omega arith)
              (elim part [ inl word ↦ inl (omega arith) | inr string ↦ inr (omega arith) ]),
    )

-- What a program finds at its stack: the number of arguments, the pointers to them, a NULL after the
-- last, and one for an empty environment.
abbrev pub StackOf : (ℕ → ℕ) → ℕ → List (List ℕ) → Type 0
StackOf mem cpp args =
    (word_at mem cpp ≡ length args)
    × Argv mem (cpp + 4) args
    × (word_at mem (cpp + 4 + 4 * length args) ≡ 0)
    × (word_at mem (cpp + 4 + 4 * length args + 4) ≡ 0)

pub new_stack-StackOf :
    (hw : Hardware) (cpp cp : ℕ) (args : List (List ℕ)) (mem : ℕ → ℕ)
    → cpp + 4 * (length args + 3) ≤ cp
    → cp + args_size args ≤ 2 ^ 32
    → StackOf (new_stack hw cpp cp args mem) cpp args
unfolding new_stack
new_stack-StackOf hw cpp cp args mem fits inside =
    let cleared = with_bytes cpp (limit_1 hw - cpp) (λ _. 0) mem in
    let counted = with_word cpp (length args) cleared in
    let listed = with_args (cpp + 4) cp args counted in
    let end = cpp + 4 + 4 * length args in
    let ended = with_word end 0 listed in
    let before : (a : ℕ) → (a < end) ⊎ (end + 8 ≤ a) → with_word (end + 4) 0 ended a ≡ listed a =
      λ a out.
        with_word-outside (end + 4) 0 ended a
          (elim out [ inl low ↦ inl (omega arith) | inr high ↦ inr (omega arith) ])
        ∙ with_word-outside end 0 listed a
            (elim out [ inl low ↦ inl low | inr high ↦ inr (omega arith) ]) in
    (
      word_at-with_word cpp (length args) cleared (with_word (end + 4) 0 ended) (omega arith)
          λ a low high.
            before a (inl (omega arith))
            ∙ with_args-Outside (cpp + 4) cp args counted a (omega arith) (inl high),
      Argv-with_args (cpp + 4) cp args counted (with_word (end + 4) 0 ended) (omega arith) inside
          λ a low high part.
            before a (elim part [ inl word ↦ inl word | inr string ↦ inr (omega arith) ]),
      word_at-with_word end 0 listed (with_word (end + 4) 0 ended) (omega arith)
          λ a low high. with_word-outside (end + 4) 0 ended a (inl (omega arith)),
      word_at-with_word (end + 4) 0 ended (with_word (end + 4) 0 ended) (omega arith)
          λ a low high. refl,
    )
