-- ===== src/Tty/Receive.antt =====
-- `tty_handle_received` of src/datastructures/tty_state.c. The address that `malloc` gives a new
-- read buffer, by the process it is for, is a parameter.
pub mod Keeps
use cs58_yalnix.Base.{
  ℕ, Bool, true, false, ◌||◌, Option, none, some, List, [], ◌∷◌, if◌then◌else◌, ltb, leb,
}
use cs58_yalnix.Base.Int.{ℤ, pos, negsuc, ltb_ℤ}
use cs58_yalnix.Kernel.{
  Hardware, Kernel, Pcb, ProcessState, ready, dead, ReadBuffer, Terminal, M, pure, crash, gets,
  deref, load, store, malloc, pop_blocked, push_ready, ◌>>=◌, ◌>>◌,
}
use cs58_yalnix.Set
use cs58_yalnix.Set.{Set}
use cs58_yalnix.Tty.{min, filled, terminal_at, put_terminal, tty_buffer_consume}

abbrev is_dead : ProcessState → Bool
is_dead dead = true
is_dead _ = false

-- `MAX`.
abbrev max : ℕ → ℕ → ℕ
max a b = if ltb b a then a else b

-- `memcpy` with a negative size leaves its arrays.
requested_bytes : ℤ → ℕ → M ℕ
requested_bytes (pos r) n = pure (min r n)
requested_bytes (negsuc r) n = crash

-- A process gets its part of the line and is unblocked.
deliver : ℕ → Pcb → ReadBuffer → (ℕ → ℕ) → ℕ → M ℕ
unfolding requested_bytes
deliver p v into line n = do
  c ← requested_bytes v.tty_num_bytes_requested n
  size ← gets (λ k. k.hardware.terminal_max_line)
  store p (record v {
    tty_read_buffer_r0 = some (record into { bytes = filled into.bytes size c line });
    tty_num_bytes_read = pos c;
    state = ready;
    tty_has_bytes = true;
  })
  pop_blocked v.pid
  push_ready (some p)
  pure c

module _ (heap : ℕ → ℕ) where
  buffer_or_new : ℕ → Option ReadBuffer → M (Option ReadBuffer)
  buffer_or_new p (some b) = pure (some b)
  buffer_or_new p none = do
    got ← malloc
    junk ← gets (λ k. k.junk)
    pure (if got then some (record { address = heap p; bytes = junk }) else none)

  -- One round for a process that is not dead: the new maximum, or nothing where `malloc` fails.
  serve : ℕ → Pcb → Option ReadBuffer → (ℕ → ℕ) → ℕ → ℕ → M (Option ℕ)
  unfolding deliver
  serve p v none line n most = pure none
  serve p v (some into) line n most = do c ← deliver p v into line n; pure (some (max most c))

  abbrev unless_none : Option ℕ → (ℕ → M (Option ℕ)) → M (Option ℕ)
  unless_none none next = pure none
  unless_none (some c) next = next c

  -- The loop over the readers, with the maximum so far. `none` where it returned early.
  serve_all : List (ℤ × ℕ) → (ℕ → ℕ) → ℕ → ℕ → M (Option ℕ)
  unfolding serve buffer_or_new
  serve_all [] line n most = pure (some most)
  serve_all ((_, p) ∷ nodes) line n most = do
    v ← load p
    if is_dead v.state then serve_all nodes line n most else (do
      into ← buffer_or_new p v.tty_read_buffer_r0
      r ← serve p v into line n most
      unless_none r (serve_all nodes line n))

  -- Nobody reads any more, and what the longest read took is consumed.
  finish_receive : ℕ → Option ℕ → M (Unit {0})
  finish_receive i none = pure tt
  finish_receive i (some most) = do
    t ← terminal_at i
    put_terminal i (record t { curr_readers = some Set.empty })
    tty_buffer_consume none (pos i) (pos most)

  hand_out : ℕ → Terminal → ℕ → List (ℤ × ℕ) → M (Unit {0})
  unfolding serve_all finish_receive
  hand_out i t n [] = pure tt
  hand_out i t n (node ∷ nodes) = do r ← serve_all (node ∷ nodes) t.buffer n 0; finish_receive i r

  receive_line : ℕ → ℕ → M (Unit {0})
  unfolding hand_out terminal_at put_terminal
  receive_line i n = do
    t ← terminal_at i
    put_terminal i (record t { bytes_available = n })
    readers ← deref t.curr_readers
    hand_out i t n readers.nodes

  receive_checked : ℤ → ℤ → Hardware → M (Unit {0})
  unfolding receive_line
  receive_checked (pos i) (pos n) hw =
      if ltb hw.num_terminals i || ltb hw.terminal_max_line n || ltb n 1
      then pure tt
      else receive_line i n
  receive_checked (pos i) (negsuc n) hw = pure tt
  -- The buffer's entry is read before the check for a negative index.
  receive_checked (negsuc i) (pos n) hw =
      if ltb hw.terminal_max_line n || ltb n 1 then pure tt else crash
  receive_checked (negsuc i) (negsuc n) hw = pure tt

  receive_from : ℤ → ℤ → Option (ℕ → Terminal) → M (Unit {0})
  unfolding receive_checked
  receive_from i n none = pure tt
  receive_from i n (some terminals) = do hw ← gets (λ k. k.hardware); receive_checked i n hw

  -- `tty_handle_received`.
  unfoldable pub tty_handle_received : ℤ → ℤ → M (Unit {0})
  unfolding receive_from
  tty_handle_received i n = do state ← gets (λ k. k.tty_state); receive_from i n state
