-- ===== src/Tty/Boot.antt =====
-- The terminals that the machine boots with.
use cs58_yalnix.Base.{
  ℕ, zero, suc, ◌+◌, ◌≡◌, ◌<◌, refl, Bool, true, false, Option, none, some, ◌==◌, arith, Bool-cases,
  inl, inr,
}
use cs58_yalnix.Base.Alloc.{Mem, rest}
use cs58_yalnix.Kernel.{Kernel, Terminal, ok, malloc, update}
use cs58_yalnix.Set
use cs58_yalnix.Queue
use cs58_yalnix.Ipc.{new_set, new_queue}
use cs58_yalnix.Tty.{init_terminals, allocate_all, tty_state_init, fresh_terminal}

-- A terminal that nobody uses.
abbrev pub IsFresh : Terminal → Type 0
IsFresh t = (t.availability ≡ true) × (t.curr_writer ≡ none) × (t.bytes_available ≡ 0)

abbrev pub AllFresh : ℕ → Option (ℕ → Terminal) → Type 0
AllFresh n none = Unit
AllFresh n (some terminals) = (i : ℕ) → i < n → IsFresh (terminals i)

init_terminals-Fresh :
    (n i : ℕ) (terminals : ℕ → Terminal) (k : Kernel)
    → ((j : ℕ) → j < i → IsFresh (terminals j))
    → (o : Option (ℕ → Terminal)) × (m : Mem) × (init_terminals i n terminals k
        ≡ ok o (record k { mem = m }))
      × AllFresh (i + n) o
unfolding init_terminals malloc new_set new_queue Set.new Queue.new
init_terminals-Fresh zero i terminals k before =
    (some terminals, k.mem, refl, λ j inside. before j (omega arith))
init_terminals-Fresh (suc n) i terminals k before =
    let readers = (Set.new {A = ℕ} k.mem).0 in
    let writers = (Queue.new {A = ℕ} (rest (rest k.mem))).0 in
    let fresh = fresh_terminal k.junk readers writers in
    elim (Bool-cases (k.mem 1)) [
      | inr fails ↦ (none, rest (rest k.mem), rw fails refl, tt)
      | inl got ↦
          let so_far : (j : ℕ) → j < i + 1 → IsFresh (update terminals i fresh j) = λ j inside.
            elim (Bool-cases (i == j)) [
              | inl here ↦ rw here (refl, refl, refl)
              | inr other ↦ rw other (before j (ground arith))
            ] in
          let (o, m, run, all) =
            init_terminals-Fresh n (i + 1) (update terminals i fresh)
              (record k { mem = rest (rest (rest k.mem)) }) so_far in
          let e : i + 1 + n ≡ i + suc n = omega arith in (o, m, rw got run, rw e at all)
    ]

allocate_all_lem :
    (n : ℕ) (k : Kernel) → (b : Bool) × (m : Mem) × (allocate_all n k ≡ ok b (record k { mem = m }))
unfolding allocate_all malloc
allocate_all_lem zero k = (true, k.mem, refl)
allocate_all_lem (suc n) k = elim (Bool-cases (k.mem 0)) [
  | inr fails ↦ (false, rest k.mem, rw fails refl)
  | inl got ↦
      let (b, m, run) = allocate_all_lem n (record k { mem = rest k.mem }) in (b, m, rw got run)
]

-- `tty_state_init` returns, whatever memory is left: it gives no terminals, or fresh ones.
pub tty_state_init-Fresh :
    (raw : ℕ → Terminal) (k : Kernel)
    → (o : Option (ℕ → Terminal)) × (m : Mem) × (tty_state_init raw k ≡ ok o (record k { mem = m }))
      × AllFresh k.hardware.num_terminals o
unfolding tty_state_init
tty_state_init-Fresh raw k =
    let (b, m, run) = allocate_all_lem 7 k in
    elim (Bool-cases b) [
      | inr fails ↦ (none, m, rw run (rw fails refl), tt)
      | inl got ↦
          let (o, m', run', all) =
            init_terminals-Fresh k.hardware.num_terminals 0 raw (record k { mem = m })
              (λ j inside. absurd (omega arith)) in
          let e : 0 + k.hardware.num_terminals ≡ k.hardware.num_terminals = omega arith in
          (o, m', rw run (rw got run'), rw e at all)
    ]
