-- ===== src/Tty/Traps/Keeps.antt =====
-- The terminal traps against what holds of the terminals.
use cs58_yalnix.Base.{ℕ, ◌≡◌, refl, ◌≤◌, Bool, true, Option, none, some, List}
use cs58_yalnix.Base.Int.{ℤ}
use cs58_yalnix.Kernel.{Hardware, M, Terminal}
use cs58_yalnix.Kernel.Preserves.{structure}
use cs58_yalnix.Kernel.Scheduler.Frame.{
  store-Holds, push_ready-Holds, pop_blocked-Holds, schedule_next_process-Holds,
}
use cs58_yalnix.Tty.Frame.{Of, Keeps, index_of-Keeps, put_terminal-Keeps, terminal_at-bind}
use cs58_yalnix.Tty.Receive.Keeps.{tty_handle_received-Keeps}
use cs58_yalnix.Tty.Write.{unblock_writer}
use cs58_yalnix.Tty.Traps.{
  leave_to, leave_trap, trap_tty_receive_handler, wake_writer, writer_done,
  trap_tty_transmit_handler,
}

module _ (hw : Hardware) (T : ℕ → Bool → Option ℕ → ℕ → Type 0) (S : List (ℕ × List ℕ) → Type 0)
    (less : (i : ℕ) (a : Bool) (w : Option ℕ) (b n : ℕ) → n ≤ b → T i a w b → T i a w n)
    (line : (i : ℕ) (a : Bool) (w : Option ℕ) (b n : ℕ)
      → n ≤ hw.terminal_max_line
      → T i a w b
      → T i a w n) where
  abbrev Stays : {A : Type 0} → M A → Type 0
  Stays = Keeps hw T S

  leave_to-Keeps : (p : Option ℕ) → Stays (leave_to p)
  unfolding leave_to
  leave_to-Keeps none = search (structure, schedule_next_process-Holds)
  leave_to-Keeps (some p) = search structure

  leave_trap-Keeps : Stays leave_trap
  unfolding leave_trap
  leave_trap-Keeps = search (structure, leave_to-Keeps)

  pub trap_tty_receive_handler-Keeps :
      (heap bytes : ℕ → ℕ) (n : ℕ) (code : ℤ) → Stays (trap_tty_receive_handler heap bytes n code)
  unfolding trap_tty_receive_handler
  trap_tty_receive_handler-Keeps heap bytes n code =
      let received = tty_handle_received-Keeps hw T S less line heap in
      search
        (
          structure, index_of-Keeps, terminal_at-bind, put_terminal-Keeps, received,
          leave_trap-Keeps,
        )
        depth 15

  pub unblock_writer-Keeps : (p : ℕ) → Stays (unblock_writer p)
  unfolding unblock_writer
  unblock_writer-Keeps p =
      search (structure, store-Holds, pop_blocked-Holds, push_ready-Holds) depth 12

  module _ (free : (i : ℕ) (a : Bool) (b : ℕ) → T i a none b → T i true none b) where
    wake_writer-Keeps :
        (i : ℕ) (t : Terminal) (w : Option ℕ)
        → t.curr_writer ≡ w
        → Of hw T S i t
        → Stays (wake_writer i t w)
    unfolding wake_writer
    wake_writer-Keeps i t none e h =
        put_terminal-Keeps hw T S i (record t { availability = true })
          (rw e (free i t.availability t.bytes_available (rw e at h)))
    wake_writer-Keeps i t (some p) e h = unblock_writer-Keeps p

    writer_done-Keeps : (code : ℤ) (state : Option (ℕ → Terminal)) → Stays (writer_done code state)
    unfolding writer_done
    writer_done-Keeps code none = search structure
    writer_done-Keeps code (some terminals) =
        let woken = λ (i : ℕ) (t : Terminal) (h : Of hw T S i t).
          wake_writer-Keeps i t t.curr_writer refl h in
        search (structure, index_of-Keeps, terminal_at-bind, woken, leave_trap-Keeps) depth 12

    pub trap_tty_transmit_handler-Keeps : (code : ℤ) → Stays (trap_tty_transmit_handler code)
    unfolding trap_tty_transmit_handler
    trap_tty_transmit_handler-Keeps code = search (structure, writer_done-Keeps) depth 12
