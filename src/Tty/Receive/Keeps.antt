-- ===== src/Tty/Receive/Keeps.antt =====
-- `tty_handle_received` against what holds of the terminals.
use cs58_yalnix.Base.{
  ℕ, ◌≤◌, Bool, ◌||◌, inl, inr, Bool-cases, Option, none, some, List, [], ◌∷◌, ltb, arith,
}
use cs58_yalnix.Base.Int.{ℤ, pos, negsuc}
use cs58_yalnix.Kernel.{Hardware, M, Pcb, Terminal, ReadBuffer}
use cs58_yalnix.Kernel.Preserves.{structure}
use cs58_yalnix.Kernel.Scheduler.Frame.{
  store-Holds, push_ready-Holds, pop_blocked-Holds, malloc-Holds,
}
use cs58_yalnix.Tty.Frame.{Of, Keeps, put_terminal-Keeps, terminal_at-bind, hardware-bind}
use cs58_yalnix.Tty.Reading.{tty_buffer_consume-Keeps}
use cs58_yalnix.Tty.Receive.{
  requested_bytes, deliver, buffer_or_new, serve, unless_none, serve_all, finish_receive, hand_out,
  receive_line, receive_checked, receive_from, tty_handle_received,
}

module _ (hw : Hardware) (T : ℕ → Bool → Option ℕ → ℕ → Type 0) (S : List (ℕ × List ℕ) → Type 0)
    (less : (i : ℕ) (a : Bool) (w : Option ℕ) (b n : ℕ) → n ≤ b → T i a w b → T i a w n)
    (line : (i : ℕ) (a : Bool) (w : Option ℕ) (b n : ℕ)
      → n ≤ hw.terminal_max_line
      → T i a w b
      → T i a w n) where
  abbrev Stays : {A : Type 0} → M A → Type 0
  Stays = Keeps hw T S

  requested_bytes-Keeps : (r : ℤ) (n : ℕ) → Stays (requested_bytes r n)
  unfolding requested_bytes
  requested_bytes-Keeps (pos r) n = search structure
  requested_bytes-Keeps (negsuc r) n = search structure

  deliver-Keeps :
      (p : ℕ) (v : Pcb) (into : ReadBuffer) (bytes : ℕ → ℕ) (n : ℕ)
      → Stays (deliver p v into bytes n)
  unfolding deliver
  deliver-Keeps p v into bytes n =
      search (structure, requested_bytes-Keeps, store-Holds, pop_blocked-Holds, push_ready-Holds)
        depth 12

  module _ (heap : ℕ → ℕ) where
    buffer_or_new-Keeps : (p : ℕ) (b : Option ReadBuffer) → Stays (buffer_or_new heap p b)
    unfolding buffer_or_new
    buffer_or_new-Keeps p none = search (structure, malloc-Holds)
    buffer_or_new-Keeps p (some b) = search structure

    serve-Keeps :
        (p : ℕ) (v : Pcb) (b : Option ReadBuffer) (bytes : ℕ → ℕ) (n most : ℕ)
        → Stays (serve heap p v b bytes n most)
    unfolding serve
    serve-Keeps p v none bytes n most = search structure
    serve-Keeps p v (some b) bytes n most = search (structure, deliver-Keeps)

    unless_none-Keeps :
        (r : Option ℕ) (f : ℕ → M (Option ℕ))
        → ((c : ℕ) → Stays (f c))
        → Stays (unless_none heap r f)
    unless_none-Keeps none f h = search structure
    unless_none-Keeps (some c) f h = h c

    serve_all-Keeps :
        (nodes : List (ℤ × ℕ)) (bytes : ℕ → ℕ) (n most : ℕ)
        → Stays (serve_all heap nodes bytes n most)
    unfolding serve_all
    serve_all-Keeps [] bytes n most = search structure
    serve_all-Keeps ((key, p) ∷ nodes) bytes n most =
        let rest = serve_all-Keeps nodes bytes n in
        search (structure, rest, buffer_or_new-Keeps, serve-Keeps, unless_none-Keeps) depth 12

    finish_receive-Keeps : (i : ℕ) (r : Option ℕ) → Stays (finish_receive heap i r)
    unfolding finish_receive
    finish_receive-Keeps i none = search structure
    finish_receive-Keeps i (some most) =
        let consumed = tty_buffer_consume-Keeps hw T S less line in
        search (structure, terminal_at-bind, put_terminal-Keeps, consumed) depth 10

    hand_out-Keeps :
        (i : ℕ) (t : Terminal) (n : ℕ) (nodes : List (ℤ × ℕ)) → Stays (hand_out heap i t n nodes)
    unfolding hand_out
    hand_out-Keeps i t n [] = search structure
    hand_out-Keeps i t n (node ∷ nodes) = search (structure, serve_all-Keeps, finish_receive-Keeps)

    receive_line-Keeps : (i n : ℕ) → n ≤ hw.terminal_max_line → Stays (receive_line heap i n)
    unfolding receive_line
    receive_line-Keeps i n fits =
        let lined = λ (t : Terminal) (h : Of hw T S i t).
          line i t.availability t.curr_writer t.bytes_available n fits h in
        search (structure, terminal_at-bind, put_terminal-Keeps, hand_out-Keeps, lined) depth 12

    receive_checked-Keeps : (i n : ℤ) → Stays (receive_checked heap i n hw)
    unfolding receive_checked
    receive_checked-Keeps (pos i) (pos n) =
        elim (Bool-cases (ltb hw.num_terminals i || ltb hw.terminal_max_line n || ltb n 1)) [
          | inl refused ↦ rw refused (search structure)
          | inr passed ↦ rw passed (receive_line-Keeps i n (ground arith))
        ]
    receive_checked-Keeps (pos i) (negsuc n) = search structure
    receive_checked-Keeps (negsuc i) (pos n) = search structure
    receive_checked-Keeps (negsuc i) (negsuc n) = search structure

    receive_from-Keeps :
        (i n : ℤ) (state : Option (ℕ → Terminal)) → Stays (receive_from heap i n state)
    unfolding receive_from
    receive_from-Keeps i n none = search structure
    receive_from-Keeps i n (some terminals) = search (hardware-bind, receive_checked-Keeps)

    pub tty_handle_received-Keeps : (i n : ℤ) → Stays (tty_handle_received heap i n)
    unfolding tty_handle_received
    tty_handle_received-Keeps i n = search (structure, receive_from-Keeps)
