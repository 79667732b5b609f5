-- ===== src/Tty/Reading.antt =====
-- What survives reading from terminals: everything in tty_state.c, `TtyReadHandler` and
-- `TrapTTYReceiveHandler`.
use cs58_yalnix.Base.{ℕ, ◌-◌, ◌≤◌, Bool, Option, none, some, List, arith}
use cs58_yalnix.Base.Int.{ℤ, pos, negsuc}
use cs58_yalnix.Kernel.{Hardware, M, Terminal}
use cs58_yalnix.Kernel.Preserves.{structure}
use cs58_yalnix.Kernel.Memory.Reads.{check_memory_validity-reads}
use cs58_yalnix.Kernel.Scheduler.Frame.{malloc-Holds}
use cs58_yalnix.Tty.{
  fill_receipt, drop_bytes, valid_receipt, consume_bytes, consume_from, tty_buffer_consume,
}
use cs58_yalnix.Tty.Frame.{Of, Keeps, fill_user-Keeps, put_terminal-Keeps, terminal_at-bind}

module _ (hw : Hardware) (T : ℕ → Bool → Option ℕ → ℕ → Type 0) (S : List (ℕ × List ℕ) → Type 0)
    (less : (i : ℕ) (a : Bool) (w : Option ℕ) (b n : ℕ) → n ≤ b → T i a w b → T i a w n)
    (line : (i : ℕ) (a : Bool) (w : Option ℕ) (b n : ℕ)
      → n ≤ hw.terminal_max_line
      → T i a w b
      → T i a w n) where
  abbrev Stays : {A : Type 0} → M A → Type 0
  Stays = Keeps hw T S

  fill_receipt-Keeps :
      (receipt : Option ℕ) (size n : ℕ) (bytes : ℕ → ℕ) → Stays (fill_receipt receipt size n bytes)
  unfolding fill_receipt
  fill_receipt-Keeps none size n bytes = search structure
  fill_receipt-Keeps (some addr) size n bytes = fill_user-Keeps hw T S addr size n bytes

  drop_bytes-Keeps : (i n : ℕ) (t : Terminal) → Of hw T S i t → Stays (drop_bytes i n t)
  unfolding drop_bytes
  drop_bytes-Keeps i n t h =
      let none_left = less i t.availability t.curr_writer t.bytes_available 0 (omega arith) h in
      let fewer =
        less i t.availability t.curr_writer t.bytes_available (t.bytes_available - n) (omega arith)
          h in
      search (structure, put_terminal-Keeps, malloc-Holds, none_left, fewer) depth 10

  valid_receipt-Keeps : (receipt : Option ℕ) → Stays (valid_receipt receipt)
  unfolding valid_receipt
  valid_receipt-Keeps none = search structure
  valid_receipt-Keeps (some addr) = check_memory_validity-reads _ addr

  consume_bytes-Keeps :
      (receipt : Option ℕ) (i n : ℕ) (t : Terminal)
      → Of hw T S i t
      → Stays (consume_bytes receipt i n t)
  unfolding consume_bytes
  consume_bytes-Keeps receipt i n t h = search (structure, fill_receipt-Keeps, drop_bytes-Keeps)

  consume_from-Keeps :
      (receipt : Option ℕ) (i n : ℕ) (state : Option (ℕ → Terminal))
      → Stays (consume_from receipt i n state)
  unfolding consume_from
  consume_from-Keeps receipt i n none = search structure
  consume_from-Keeps receipt i n (some terminals) =
      search (structure, valid_receipt-Keeps, terminal_at-bind, consume_bytes-Keeps) depth 10

  pub tty_buffer_consume-Keeps :
      (receipt : Option ℕ) (i n : ℤ) → Stays (tty_buffer_consume receipt i n)
  unfolding tty_buffer_consume
  tty_buffer_consume-Keeps receipt (negsuc i) n = search structure
  tty_buffer_consume-Keeps receipt (pos i) (negsuc n) = search structure
  tty_buffer_consume-Keeps receipt (pos i) (pos n) = search (structure, consume_from-Keeps)
