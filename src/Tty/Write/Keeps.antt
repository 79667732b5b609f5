-- ===== src/Tty/Write/Keeps.antt =====
-- `TtyWriteHandler` against what holds of the terminals.
use cs58_yalnix.Base.{ℕ, ◌≡◌, Bool, true, false, Option, none, some, List, [], ◌∷◌, ◌++◌}
use cs58_yalnix.Base.Int.{ℤ, pos, negsuc}
use cs58_yalnix.Kernel.{Hardware, M, Terminal}
use cs58_yalnix.Kernel.Preserves.{Preserves-test, structure}
use cs58_yalnix.Kernel.Scheduler.Frame.{
  store-Holds, push_ready-Holds, pop_blocked-Holds, malloc-Holds, schedule_next_process-Holds,
}
use cs58_yalnix.Tty.Frame.{
  Of, Keeps, bad_buffer-Keeps, index_of-Keeps, set_mem-Keeps, put_terminal-Keeps, terminal_at-bind,
}
use cs58_yalnix.Ipc.Pipes.{user_bytes}
use cs58_yalnix.Queue.{Queue}
use cs58_yalnix.Tty.Write.{
  transmit, push_writer, pop_writer, unblock_writer, block_writer, unblock_next, finish_write,
  transmit_from, tty_write_resume, copy_and_send, await_terminal, tty_write_handler,
}

-- `May i` says that bytes may be sent to the terminal at `i`.
module _ (hw : Hardware) (T : ℕ → Bool → Option ℕ → ℕ → Type 0) (S : List (ℕ × List ℕ) → Type 0)
    (May : ℕ → Type 0)
    (claim : (i : ℕ) (w : Option ℕ) (b p : ℕ) → T i true w b → May i × T i false (some p) b)
    (own : (i : ℕ) (a : Bool) (w : Option ℕ) (b p : ℕ) → May i → T i a w b → T i a (some p) b)
    (free : (i : ℕ) (a : Bool) (w : Option ℕ) (b : ℕ) → May i → T i a w b → T i true none b)
    (send : (i : ℕ) (chunk : List ℕ) (sent : List (ℕ × List ℕ))
      → May i
      → S sent
      → S (sent ++ (i, chunk) ∷ [])) where
  abbrev Stays : {A : Type 0} → M A → Type 0
  Stays = Keeps hw T S

  transmit-Keeps : (i : ℕ) (chunk : List ℕ) → May i → Stays (transmit i chunk)
  unfolding transmit
  transmit-Keeps i chunk may = record {
    keeps = λ k v. (v.0, v.1, send i chunk k.transmitted may v.2);
  }

  push_writer-Keeps :
      (i p : ℕ) (t : Terminal) (q : Option (Queue ℕ)) → Of hw T S i t → Stays (push_writer i p t q)
  unfolding push_writer
  push_writer-Keeps i p t none h = search structure
  push_writer-Keeps i p t (some q) h =
      search (structure, put_terminal-Keeps, set_mem-Keeps) depth 10

  pop_writer-Keeps :
      (i : ℕ) (t : Terminal) (q : Option (Queue ℕ)) → Of hw T S i t → Stays (pop_writer i t q)
  unfolding pop_writer
  pop_writer-Keeps i t none h = search structure
  pop_writer-Keeps i t (some q) h = search (structure, put_terminal-Keeps)

  unblock_writer-Keeps : (p : ℕ) → Stays (unblock_writer p)
  unfolding unblock_writer
  unblock_writer-Keeps p =
      search (structure, store-Holds, pop_blocked-Holds, push_ready-Holds) depth 12

  block_writer-Keeps : (p : ℕ) → Stays (block_writer p)
  unfolding block_writer
  block_writer-Keeps p = search (structure, store-Holds)

  unblock_next-Keeps : (p : Option ℕ) → Stays (unblock_next p)
  unfolding unblock_next
  unblock_next-Keeps none = search structure
  unblock_next-Keeps (some p) =
      search (structure, unblock_writer-Keeps, schedule_next_process-Holds)

  finish_write-Keeps : (i : ℕ) → May i → Stays (finish_write i)
  unfolding finish_write
  finish_write-Keeps i may =
      let freed = λ (t : Terminal) (h : Of hw T S i t).
        free i t.availability t.curr_writer t.bytes_available may h in
      search
        (
          structure, store-Holds, terminal_at-bind, put_terminal-Keeps, pop_writer-Keeps, freed,
          unblock_next-Keeps,
        )
        depth 15

  transmit_from-Keeps :
      (i : ℕ) (bytes : ℕ → ℕ) (len start : ℕ) → May i → Stays (transmit_from i bytes len start)
  unfolding transmit_from
  transmit_from-Keeps i bytes len start may =
      let owned = λ (t : Terminal) (p : ℕ) (h : Of hw T S i t).
        own i t.availability t.curr_writer t.bytes_available p may h in
      search
        (
          structure, terminal_at-bind, put_terminal-Keeps, transmit-Keeps, block_writer-Keeps,
          owned, schedule_next_process-Holds, finish_write-Keeps,
        )
        depth 18

  pub tty_write_resume-Keeps :
      (i : ℕ) (bytes : ℕ → ℕ) (len start : ℕ) → May i → Stays (tty_write_resume i bytes len start)
  unfolding tty_write_resume
  tty_write_resume-Keeps i bytes len start may = search (structure, transmit_from-Keeps)

  user_bytes-Keeps : Stays user_bytes
  unfolding user_bytes
  user_bytes-Keeps = search structure

  copy_and_send-Keeps :
      (i buf : ℕ) (t : Terminal) (len : ℤ)
      → Of hw T S i t
      → t.availability ≡ true
      → Stays (copy_and_send i buf t len)
  unfolding copy_and_send
  copy_and_send-Keeps i buf t (negsuc n) h open_now = search structure
  copy_and_send-Keeps i buf t (pos n) h open_now =
      let claimed = λ (p : ℕ). claim i t.curr_writer t.bytes_available p (rw open_now at h) in
      let may = (claimed 0).0 in
      let taken = λ (p : ℕ). (claimed p).1 in
      search (structure, user_bytes-Keeps, put_terminal-Keeps, taken, may, transmit_from-Keeps)
        depth 12

  pub await_terminal-Keeps : (i buf : ℕ) (len : ℤ) → Stays (await_terminal i buf len)
  unfolding await_terminal
  await_terminal-Keeps i buf len = terminal_at-bind hw T S i _ λ t h.
      Preserves-test _ t.availability _ _
        (λ open_now. search (structure, malloc-Holds, copy_and_send-Keeps) depth 12)
        (λ taken.
          search (structure, block_writer-Keeps, push_writer-Keeps, schedule_next_process-Holds)
            depth 15)

  pub tty_write_handler-Keeps :
      (tty_id : ℤ) (buf : ℕ) (len : ℤ) → Stays (tty_write_handler tty_id buf len)
  unfolding tty_write_handler
  tty_write_handler-Keeps tty_id buf len =
      search (structure, bad_buffer-Keeps, index_of-Keeps, await_terminal-Keeps) depth 12
