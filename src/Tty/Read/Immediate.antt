-- ===== src/Tty/Read/Immediate.antt =====
-- `TtyReadHandler` on a terminal that holds bytes to be read.
use cs58_yalnix.Base.{
  ℕ, ◌+◌, ◌-◌, ◌≤◌, ◌<◌, ◌≡◌, refl, ap, ◌∙◌, true, false, some, ◌++◌, ltb, leb, if◌then◌else◌,
  arith, ◌⊎◌, inl, inr, Bool-cases, ==_refl, append-nil,
}
use cs58_yalnix.Base.Int.{pos}
use cs58_yalnix.Base.Alloc.{rest}
use cs58_yalnix.Kernel.{Kernel, Terminal, ok, update, malloc, returned}
use cs58_yalnix.Kernel.Ensures.{Returns, Returns-bind, Returns-weaken}
use cs58_yalnix.Kernel.Memory.{check_memory_validity}
use cs58_yalnix.Tty.{
  index_of, valid_receipt, fill_receipt, tty_buffer_consume, consume_from, consume_bytes,
  drop_bytes, min, filled,
}
use cs58_yalnix.Tty.Write.{segment}
use cs58_yalnix.Tty.Write.Chunks.{segment-append}
use cs58_yalnix.Tty.Steps.{
  line_of, terminal_at_lem, put_terminal_lem, overwritten, fill_user_lem, segment-ext,
  segment-shift, overwritten-segment, overwritten-outside,
}
use cs58_yalnix.Tty.Read.{bad_read, tty_read_handler}

-- The terminal once `n` of its bytes have been taken.
abbrev taken : Kernel → Terminal → ℕ → Terminal
taken k t n =
    if leb t.bytes_available n
    then record t {
      bytes_available = 0;
      buffer = filled t.buffer k.hardware.terminal_max_line 0 t.buffer;
    }
    else record t {
      bytes_available = t.bytes_available - n;
      buffer =
          filled t.buffer k.hardware.terminal_max_line (t.bytes_available - n)
            (λ j. t.buffer (n + j));
    }

line_of-taken :
    (k : Kernel) (t : Terminal) (n : ℕ)
    → n ≤ t.bytes_available
    → segment t.buffer 0 n ++ line_of (taken k t n) ≡ line_of t
line_of-taken k t n few = elim (Bool-cases (leb t.bytes_available n)) [
  | inl all ↦ let e : n ≡ t.bytes_available = ground arith in rw (all, e, append-nil)
  | inr some_left ↦
      let swap : n + 0 ≡ 0 + n = omega arith in
      let whole : n + (t.bytes_available - n) ≡ t.bytes_available = omega arith in
      rw some_left (
        ap (λ l. segment t.buffer 0 n ++ l)
          (segment-ext _ (λ j. t.buffer (n + j)) 0 (t.bytes_available - n)
              (λ j low high.
                let inside : ltb j (t.bytes_available - n) ≡ true = ground arith in rw inside)
            ∙ segment-shift t.buffer n 0 (t.bytes_available - n)
            ∙ ap (λ s. segment t.buffer s (t.bytes_available - n)) swap)
        ∙ segment-append t.buffer 0 n (t.bytes_available - n)
        ∙ ap (λ m. segment t.buffer 0 m) whole)
]

module _ (k : Kernel) (terminals : ℕ → Terminal) (i : ℕ) (e : k.tty_state ≡ some terminals)
    (inside : ltb i k.hardware.num_terminals ≡ true) where
  drop_bytes_lem :
      (n : ℕ)
      → k.mem 0 ≡ true
      → Returns
          (λ _ k'.
            (k'.tty_state ≡ some (update terminals i (taken k (terminals i) n)))
            × (k'.user_mem ≡ k.user_mem))
          (drop_bytes i n (terminals i) k)
  unfolding drop_bytes malloc
  drop_bytes_lem n room = elim (Bool-cases (leb (terminals i).bytes_available n)) [
    | inl all ↦ rw all (rw (put_terminal_lem k terminals i e) (refl, refl))
    | inr some_left ↦
        rw (some_left, room)
          (rw (put_terminal_lem (record k { mem = rest k.mem }) terminals i e) (refl, refl))
  ]

module _ (k : Kernel) (terminals : ℕ → Terminal) (i : ℕ) (e : k.tty_state ≡ some terminals)
    (inside : ltb i k.hardware.num_terminals ≡ true) where
  module _ (table buf n : ℕ) (to : k.ptbr1 ≡ some table) where
    -- What a read of `n` bytes into the caller's buffer leaves: the first bytes of the line in the
    -- buffer, the others in the terminal, and the rest of the caller's memory and of the terminals as
    -- they were.
    abbrev pub Taken : Kernel → Type 0
    Taken k' =
        (t : Terminal) × (k'.tty_state ≡ some (update terminals i t))
        × (segment (λ j. k'.user_mem table (buf + j)) 0 (min n (terminals i).bytes_available)
              ++ line_of t
            ≡ line_of (terminals i))
        × ((a : ℕ) → (a < buf) ⊎ (buf + n ≤ a) → k'.user_mem table a ≡ k.user_mem table a)

    abbrev count : ℕ
    count = min n (terminals i).bytes_available

    abbrev delivered : Kernel
    delivered = record k {
      user_mem =
          update k.user_mem table (overwritten (k.user_mem table) buf n count (terminals i).buffer);
    }

    module _ (valid : check_memory_validity buf k ≡ ok true k) (positive : 0 < n)
        (fits : n ≤ k.hardware.terminal_max_line)
        (some_line : 0 < (terminals i).bytes_available) where
      consume_from_lem :
          consume_from (some buf) i n (some terminals) k
          ≡ drop_bytes i count (terminals i) delivered
      unfolding consume_from valid_receipt consume_bytes fill_receipt
      consume_from_lem =
          let some_asked : ltb n 1 ≡ false = ground arith in
          let not_many : ltb k.hardware.terminal_max_line n ≡ false = ground arith in
          let exists : ltb k.hardware.num_terminals i ≡ false = ground arith in
          let some_there : ltb (terminals i).bytes_available 1 ≡ false = ground arith in
          rw
            (
              some_asked,
              not_many,
              exists,
              valid,
              terminal_at_lem k terminals i e inside,
              some_there,
            )
            (rw (fill_user_lem k table buf n count (terminals i).buffer to) refl)

      consume-takes :
          k.mem 0 ≡ true → Returns (λ _. Taken) (tty_buffer_consume (some buf) (pos i) (pos n) k)
      unfolding tty_buffer_consume
      consume-takes room =
          let bytes_there =
            overwritten-segment (k.user_mem table) buf n count (terminals i).buffer in
          rw (ap (λ o. consume_from (some buf) i n o k) e ∙ consume_from_lem) (
            Returns-weaken _ (λ _. Taken) (drop_bytes i count (terminals i) delivered)
              (drop_bytes_lem delivered terminals i e inside count room)
              λ _ k' c. (
                taken delivered (terminals i) count,
                c.0,
                rw (c.1, ==_refl table)
                    (ap (λ l. l ++ line_of (taken delivered (terminals i) count)) bytes_there
                      ∙ line_of-taken delivered (terminals i) count (ground arith)),
                λ a outside.
                    rw (c.1, ==_refl table)
                      (overwritten-outside (k.user_mem table) buf n count (terminals i).buffer a
                        (ground arith) outside),
              ))

    -- `TtyReadHandler` with a buffer that passes its checks, on a terminal that holds bytes, for at
    -- least one and at most TERMINAL_MAX_LINE bytes, where there is memory, returns at once, with 0 and
    -- not with the number of bytes. The
    -- caller's buffer, up to the length that was asked for or to the end of the line, followed by
    -- what is left in the terminal is the line that was there.
    pub tty_read_handler-takes :
        bad_read buf k ≡ ok false k
        → check_memory_validity buf k ≡ ok true k
        → 0 < n
        → n ≤ k.hardware.terminal_max_line
        → 0 < (terminals i).bytes_available
        → k.mem 0 ≡ true
        → Returns
            (λ rc k'. (rc ≡ returned (pos 0)) × Taken k')
            (tty_read_handler (pos i) buf (pos n) k)
    unfolding tty_read_handler index_of
    tty_read_handler-takes fine valid positive fits some_line room =
        let there : ltb 0 (terminals i).bytes_available ≡ true = ground arith in
        rw (fine, terminal_at_lem k terminals i e inside, there)
          (Returns-bind (λ _. Taken) _ (tty_buffer_consume (some buf) (pos i) (pos n) k) _
            (consume-takes valid positive fits some_line room) (λ _ k' c. (refl, c)))
