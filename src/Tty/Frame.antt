-- ===== src/Tty/Frame.antt =====
-- What survives reading from terminals. `T` speaks of the terminal at an index: whether it is
-- available, its writer, and the number of bytes to be read. `S` speaks of what was sent.
use cs58_yalnix.Base.{
  ℕ, ◌≡◌, Bool, inl, inr, Bool-cases, Option, none, some, List, if◌then◌else◌, ltb, ◌==◌, arith,
  subst, sym,
}
use cs58_yalnix.Base.Int.{ℤ, pos, negsuc}
use cs58_yalnix.Kernel.{
  Hardware, Kernel, M, ok, Terminal, update, deref, gets, ◌>>=◌, bind_res, pure, crash,
}
use cs58_yalnix.Kernel.Ensures.{Ensures, Ensures-bind}
use cs58_yalnix.Kernel.Preserves.{Preserves, structure}
use cs58_yalnix.Kernel.Memory.Reads.{check_memory_validity-reads}
use cs58_yalnix.Kernel.Scheduler.Frame.{Holds}
use cs58_yalnix.Ipc.Pipes.{bad_buffer}
use cs58_yalnix.Base.Alloc.{Mem}
use cs58_yalnix.Tty.{terminal_at, put_terminal, fill_user, index_of}

abbrev pub AllTerminals : (ℕ → Terminal → Type 0) → Option (ℕ → Terminal) → Type 0
AllTerminals T none = Unit
AllTerminals T (some terminals) = (i : ℕ) → T i (terminals i)

module _ (hw : Hardware) (T : ℕ → Bool → Option ℕ → ℕ → Type 0)
    (S : List (ℕ × List ℕ) → Type 0) where
  abbrev pub Of : ℕ → Terminal → Type 0
  Of i t = T i t.availability t.curr_writer t.bytes_available

  abbrev pub Sound : Hardware → Option (ℕ → Terminal) → List (ℕ × List ℕ) → Type 0
  Sound hw' state sent = (hw' ≡ hw) × AllTerminals Of state × S sent

  abbrev pub Keeps : {A : Type 0} → M A → Type 0
  Keeps = Preserves (Holds Sound)

  update-all :
      (terminals : ℕ → Terminal) (i : ℕ) (t : Terminal)
      → AllTerminals Of (some terminals)
      → Of i t
      → AllTerminals Of (some (update terminals i t))
  update-all terminals i t all h j = elim (Bool-cases (i == j)) [
    | inl same ↦ rw same (let e : i ≡ j = ground arith in subst (λ n. Of n t) e h)
    | inr apart ↦ rw apart (all j)
  ]

  put_in :
      (i : ℕ) (t : Terminal) (k : Kernel) (state : Option (ℕ → Terminal))
      → Of i t
      → Sound k.hardware state k.transmitted
      → Ensures
          (λ _. Holds Sound)
          (bind_res
            (deref state k)
            (λ terminals k'. ok tt (record k' { tty_state = some (update terminals i t) })))
  put_in i t k none h v = tt
  put_in i t k (some terminals) h v = (v.0, update-all terminals i t v.1 h, v.2)

  pub put_terminal-Keeps : (i : ℕ) (t : Terminal) → Of i t → Keeps (put_terminal i t)
  unfolding put_terminal
  put_terminal-Keeps i t h = record { keeps = λ k v. put_in i t k k.tty_state h v }

  found_in :
      (i : ℕ) (k : Kernel) (state : Option (ℕ → Terminal)) (n : ℕ)
      → AllTerminals Of state
      → Holds Sound k
      → Ensures
          (λ t k'. Of i t × Holds Sound k')
          (bind_res (deref state k) (λ terminals. if ltb i n then pure (terminals i) else crash))
  found_in i k none n all v = tt
  found_in i k (some terminals) n all v = elim (Bool-cases (ltb i n)) [
    | inl inside ↦ rw inside (all i, v)
    | inr outside ↦ rw outside tt
  ]

  pub terminal_at-bind :
      {B : Type 0} (i : ℕ) (f : Terminal → M B)
      → ((t : Terminal) → Of i t → Keeps (f t))
      → Keeps (terminal_at i >>= f)
  unfolding terminal_at
  terminal_at-bind i f h = record {
    keeps = λ k v.
        Ensures-bind (λ t k'. Of i t × Holds Sound k') (λ _. Holds Sound) (terminal_at i k) f
          (found_in i k k.tty_state k.hardware.num_terminals v.1 v)
          (λ t k' c. (h t c.0).keeps k' c.1);
  }

  pub hardware-bind :
      {B : Type 0} (f : Hardware → M B) → Keeps (f hw) → Keeps (gets (λ k. k.hardware) >>= f)
  hardware-bind f h = record {
    keeps = λ k v. subst (λ x. Ensures (λ _. Holds Sound) (f x k)) (sym (v.0)) (h.keeps k v);
  }

  pub fill_user-Keeps : (addr size n : ℕ) (bytes : ℕ → ℕ) → Keeps (fill_user addr size n bytes)
  unfolding fill_user
  fill_user-Keeps addr size n bytes = search structure

  pub bad_buffer-Keeps : (buf : ℕ) → Keeps (bad_buffer buf)
  unfolding bad_buffer
  bad_buffer-Keeps buf = search (structure, check_memory_validity-reads)

  pub index_of-Keeps : (i : ℤ) → Keeps (index_of i)
  unfolding index_of
  index_of-Keeps (pos i) = search structure
  index_of-Keeps (negsuc i) = search structure

  pub set_mem-Keeps : (f : Mem) → Keeps (λ k. ok tt (record k { mem = f }))
  set_mem-Keeps f = record { keeps = λ k v. v }
