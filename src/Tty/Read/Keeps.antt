-- ===== src/Tty/Read/Keeps.antt =====
-- `TtyReadHandler` against what holds of the terminals.
use cs58_yalnix.Base.{ℕ, ◌≤◌, Bool, Option, none, some, List}
use cs58_yalnix.Base.Int.{ℤ, pos, negsuc}
use cs58_yalnix.Kernel.{Hardware, M, Terminal, ReadBuffer}
use cs58_yalnix.Kernel.Preserves.{structure}
use cs58_yalnix.Kernel.Memory.Reads.{check_memory_validity-reads}
use cs58_yalnix.Kernel.Scheduler.Frame.{store-Holds, schedule_next_process-Holds}
use cs58_yalnix.Set.{Set}
use cs58_yalnix.Tty.Frame.{
  Of, Keeps, bad_buffer-Keeps, index_of-Keeps, set_mem-Keeps, fill_user-Keeps, put_terminal-Keeps,
  terminal_at-bind,
}
use cs58_yalnix.Tty.Reading.{tty_buffer_consume-Keeps}
use cs58_yalnix.Tty.Read.{
  bad_read, insert_reader, remove_reader, await_line, tty_read_handler, copy_line, tty_read_resume,
}

module _ (hw : Hardware) (T : ℕ → Bool → Option ℕ → ℕ → Type 0) (S : List (ℕ × List ℕ) → Type 0)
    (less : (i : ℕ) (a : Bool) (w : Option ℕ) (b n : ℕ) → n ≤ b → T i a w b → T i a w n)
    (line : (i : ℕ) (a : Bool) (w : Option ℕ) (b n : ℕ)
      → n ≤ hw.terminal_max_line
      → T i a w b
      → T i a w n) where
  abbrev Stays : {A : Type 0} → M A → Type 0
  Stays = Keeps hw T S

  bad_read-Keeps : (buf : ℕ) → Stays (bad_read buf)
  unfolding bad_read
  bad_read-Keeps buf = search (structure, bad_buffer-Keeps)

  insert_reader-Keeps :
      (i : ℕ) (key : ℤ) (p : ℕ) (t : Terminal) (s : Option (Set ℕ))
      → Of hw T S i t
      → Stays (insert_reader i key p t s)
  unfolding insert_reader
  insert_reader-Keeps i key p t none h = search structure
  insert_reader-Keeps i key p t (some s) h =
      search (structure, put_terminal-Keeps, set_mem-Keeps) depth 10

  remove_reader-Keeps :
      (i : ℕ) (key : ℤ) (t : Terminal) (s : Option (Set ℕ))
      → Of hw T S i t
      → Stays (remove_reader i key t s)
  unfolding remove_reader
  remove_reader-Keeps i key t none h = search structure
  remove_reader-Keeps i key t (some s) h = search put_terminal-Keeps

  await_line-Keeps :
      (i buf : ℕ) (len : ℤ) (t : Terminal) → Of hw T S i t → Stays (await_line i buf len t)
  unfolding await_line
  await_line-Keeps i buf len t h =
      search (structure, store-Holds, insert_reader-Keeps, schedule_next_process-Holds) depth 12

  pub tty_read_handler-Keeps :
      (tty_id : ℤ) (buf : ℕ) (len : ℤ) → Stays (tty_read_handler tty_id buf len)
  unfolding tty_read_handler
  tty_read_handler-Keeps tty_id buf len =
      let consumed = tty_buffer_consume-Keeps hw T S less line in
      search
        (structure, bad_read-Keeps, index_of-Keeps, terminal_at-bind, consumed, await_line-Keeps)
        depth 15

  copy_line-Keeps : (i buf : ℕ) (n : ℤ) (into : Option ReadBuffer) → Stays (copy_line i buf n into)
  unfolding copy_line
  copy_line-Keeps i buf (negsuc n) into = search structure
  copy_line-Keeps i buf (pos n) none = search structure
  copy_line-Keeps i buf (pos n) (some b) =
      search (structure, fill_user-Keeps, terminal_at-bind, remove_reader-Keeps) depth 15

  pub tty_read_resume-Keeps : (i buf : ℕ) → Stays (tty_read_resume i buf)
  unfolding tty_read_resume
  tty_read_resume-Keeps i buf =
      search (structure, check_memory_validity-reads, copy_line-Keeps) depth 12
