-- ===== src/Tty/Steps.antt =====
-- One step on a terminal at a time, and the bytes of a line as a list.
use cs58_yalnix.Base.{
  ℕ, zero, suc, ◌+◌, ◌-◌, ◌≤◌, ◌<◌, ◌≡◌, refl, true, false, some, List, ltb, leb, if◌then◌else◌,
  arith, ◌⊎◌, inl, inr,
}
use cs58_yalnix.Kernel.{Kernel, Terminal, ok, update}
use cs58_yalnix.Tty.{terminal_at, put_terminal, fill_user, filled}
use cs58_yalnix.Tty.Write.{segment}

-- The bytes that a terminal holds to be read.
abbrev pub line_of : Terminal → List ℕ
line_of t = segment t.buffer 0 t.bytes_available

module _ (k : Kernel) (terminals : ℕ → Terminal) (i : ℕ) (e : k.tty_state ≡ some terminals) where
  pub terminal_at_lem : ltb i k.hardware.num_terminals ≡ true → terminal_at i k ≡ ok (terminals i) k
  unfolding terminal_at
  terminal_at_lem inside = rw (e, inside)

  pub put_terminal_lem :
      (t : Terminal)
      → put_terminal i t k ≡ ok tt (record k { tty_state = some (update terminals i t) })
  unfolding put_terminal
  put_terminal_lem t = rw e

-- The bytes of a page table's region 1 once some of them are overwritten.
abbrev pub overwritten : (ℕ → ℕ) → (addr size n : ℕ) → (ℕ → ℕ) → ℕ → ℕ
overwritten mem addr size n bytes a =
    if leb addr a then filled (λ j. mem (addr + j)) size n bytes (a - addr) else mem a

pub fill_user_lem :
    (k : Kernel) (table addr size n : ℕ) (bytes : ℕ → ℕ)
    → k.ptbr1 ≡ some table
    → fill_user addr size n bytes k
      ≡ ok tt (record k {
        user_mem = update k.user_mem table (overwritten (k.user_mem table) addr size n bytes);
      })
unfolding fill_user
fill_user_lem k table addr size n bytes e = rw e

pub segment-ext :
    (f g : ℕ → ℕ) (start n : ℕ)
    → ((j : ℕ) → start ≤ j → j < start + n → f j ≡ g j)
    → segment f start n ≡ segment g start n
segment-ext f g start zero h = refl
segment-ext f g start (suc n) h = rw (
  h start (omega arith) (omega arith),
  segment-ext f g (start + 1) n (λ j low high. h j (omega arith) (omega arith)),
)

pub segment-shift :
    (f : ℕ → ℕ) (by start n : ℕ) → segment (λ j. f (by + j)) start n ≡ segment f (by + start) n
segment-shift f by start zero = refl
segment-shift f by start (suc n) =
    let e : by + start + 1 ≡ by + (start + 1) = omega arith in
    rw (segment-shift f by (start + 1) n, e)

-- What was written is what is read there afterwards.
pub overwritten-segment :
    (mem : ℕ → ℕ) (addr size n : ℕ) (bytes : ℕ → ℕ)
    → segment (λ j. overwritten mem addr size n bytes (addr + j)) 0 n ≡ segment bytes 0 n
overwritten-segment mem addr size n bytes = segment-ext _ bytes 0 n λ j low high.
    let inside : leb addr (addr + j) ≡ true = ground arith in
    let back : addr + j - addr ≡ j = omega arith in
    let short : ltb j n ≡ true = ground arith in rw (inside, back, short)

pub overwritten-outside :
    (mem : ℕ → ℕ) (addr size n : ℕ) (bytes : ℕ → ℕ) (a : ℕ)
    → n ≤ size
    → (a < addr) ⊎ (addr + size ≤ a)
    → overwritten mem addr size n bytes a ≡ mem a
overwritten-outside mem addr size n bytes a fits (inl before) =
    let below : leb addr a ≡ false = ground arith in rw below
overwritten-outside mem addr size n bytes a fits (inr behind) =
    let above : leb addr a ≡ true = ground arith in
    let past : ltb (a - addr) n ≡ false = ground arith in
    let past' : ltb (a - addr) size ≡ false = ground arith in
    let same : addr + (a - addr) ≡ a = omega arith in rw (above, past, past', same)
