-- ===== src/Process/Create.antt =====
-- `pcbNew` of src/datastructures/pcb.c. What `malloc` gives is a parameter: the block's address and
-- contents, the address of a kernel context, the kernel stack entries and the terminal buffer.
use cs58_yalnix.Base.{
  ℕ, suc, ◌≡◌, refl, ap, inl, inr, false, Option, none, some, if◌then◌else◌, ◌==◌, ==_refl,
  Bool-cases,
}
use cs58_yalnix.Base.Int.{ℤ, pos}
use cs58_yalnix.Base.Alloc.{rest}
use cs58_yalnix.Kernel.{
  Kernel, Pcb, Pte, UserContext, ReadBuffer, M, pure, deref, ◌>>=◌, ◌>>◌, bind_res, malloc, store,
  ready,
}
use cs58_yalnix.Kernel.Ensures.{Returns}
use cs58_yalnix.Set
use cs58_yalnix.Set.{Set}
use cs58_yalnix.Ipc.{new_set}

module _ (at context_at : ℕ) (raw : Pcb) (fresh : ℕ → Pte) (input : ReadBuffer) where
  -- The context and the stack entries that were passed, or new ones; `none` where `malloc` fails.
  context_or_new : Option ℕ → M (Option ℕ)
  context_or_new (some c) = pure (some c)
  context_or_new none = do got ← malloc; pure (if got then some context_at else none)

  stack_or_new : Option (ℕ → Pte) → M (Option (ℕ → Pte))
  stack_or_new (some s) = pure (some s)
  stack_or_new none = do got ← malloc; pure (if got then some fresh else none)

  abbrev with_input : Pcb → Pcb
  with_input v = record v {
    tty_read_buffer_r0 = some input;
    tty_read_buffer_r1 = none;
    tty_has_bytes = false;
    tty_num_bytes_read = pos 0;
    tty_write_waiting = false;
  }

  -- The buffer for the terminal comes last.
  finish_new : Pcb → M (Option ℕ)
  finish_new v = do
    got ← malloc
    if got then (do store at (with_input v); pure (some at)) else pure none

  with_stack : Pcb → Option (ℕ → Pte) → M (Option ℕ)
  unfolding finish_new
  with_stack v none = pure none
  with_stack v (some s) = finish_new (record v { kernel_stack_pages = some s })

  with_context : Pcb → Option (ℕ → Pte) → Option ℕ → M (Option ℕ)
  unfolding with_stack stack_or_new
  with_context v kstack none = pure none
  with_context v kstack (some c) = do
    s ← stack_or_new kstack
    with_stack (record v { krn_ctx = some c }) s

  -- The fields that are set before the contexts. A set that could not be allocated stays NULL.
  abbrev new_block :
      ℤ → Option ℕ → Option ℕ → Option UserContext → Option (Set ℕ) → Option (Set ℕ) → Pcb
  new_block pid table parent usr children zombies = record raw {
    state = ready;
    waiting = false;
    pid = pid;
    delay_ticks = pos 0;
    exit_status = pos 0;
    child_exit_status = pos 0;
    parent = parent;
    children = children;
    zombies = zombies;
    page_table = table;
    usr_ctx = usr;
  }

  -- `pcbNew`: the new block's address, or NULL. The user context is copied from a pointer.
  unfoldable pub pcb_new :
      ℤ → Option ℕ → Option (ℕ → Pte) → Option ℕ → Option UserContext → Option ℕ → M (Option ℕ)
  unfolding with_context context_or_new
  pcb_new pid table kstack parent usr_ctx krn_ctx = do
    got ← malloc
    if got
        then (do
          children ← new_set
          zombies ← new_set
          usr ← malloc
          if usr
              then (do
                u ← deref usr_ctx
                c ← context_or_new krn_ctx
                with_context (new_block pid table parent (some u) children zombies) kstack c)
              else pure none)
        else pure none

  -- What was passed, or the new one.
  abbrev pub or_new : {A : Type 0} → Option A → A → A
  or_new (some a) new = a
  or_new none new = new

  -- Either nothing but memory changed, or the block is there.
  abbrev pub Created :
      (ℕ → Option Pcb)
      → ℤ
      → Option ℕ
      → Option (ℕ → Pte)
      → Option ℕ
      → UserContext
      → Option ℕ
      → Option ℕ
      → Kernel
      → Type 0
  Created before pid table kstack parent usr krn_ctx none k' = k'.pcbs ≡ before
  Created before pid table kstack parent usr krn_ctx (some p) k' =
      (p ≡ at)
      × ((v : Pcb) × (k'.pcbs at ≡ some v)
          × (v.pid ≡ pid)
          × (v.state ≡ ready)
          × (v.parent ≡ parent)
          × (v.page_table ≡ table)
          × (v.usr_ctx ≡ some usr)
          × (v.krn_ctx ≡ some (or_new krn_ctx context_at))
          × (v.kernel_stack_pages ≡ some (or_new kstack fresh))
          × (v.waiting ≡ false)
          × (v.delay_ticks ≡ pos 0)
          × (v.exit_status ≡ pos 0))
      × ((q : ℕ) → (at == q) ≡ false → k'.pcbs q ≡ before q)

  module _ (before : ℕ → Option Pcb) (pid : ℤ) (table parent : Option ℕ) (usr : UserContext)
      (children zombies : Option (Set ℕ)) where
    -- The block that is being made.
    abbrev block : Pcb
    block = new_block pid table parent (some usr) children zombies

    finish_new-Created :
        (k : Kernel) (kstack : Option (ℕ → Pte)) (krn_ctx : Option ℕ)
        → k.pcbs ≡ before
        → Returns (Created before pid table kstack parent usr krn_ctx) (
            finish_new
              (record block {
                krn_ctx = some (or_new krn_ctx context_at);
                kernel_stack_pages = some (or_new kstack fresh);
              })
              k)
    unfolding finish_new malloc
    finish_new-Created k kstack krn_ctx same =
        let made = record block {
          krn_ctx = some (or_new krn_ctx context_at);
          kernel_stack_pages = some (or_new kstack fresh);
        } in
        elim (Bool-cases (k.mem 0)) [
          | inl got ↦ rw got (
            refl,
            (
              with_input made,
              rw (==_refl at) refl,
              refl,
              refl,
              refl,
              refl,
              refl,
              refl,
              refl,
              refl,
              refl,
              refl,
            ),
            λ q apart. rw apart (ap (λ f. f q) same),
          )
          | inr fails ↦ rw fails same
        ]

    with_context-Created :
        (k : Kernel) (kstack : Option (ℕ → Pte)) (krn_ctx : Option ℕ)
        → k.pcbs ≡ before
        → Returns
            (Created before pid table kstack parent usr krn_ctx)
            (with_context block kstack (some (or_new krn_ctx context_at)) k)
    unfolding with_context with_stack stack_or_new malloc
    with_context-Created k (some s) krn_ctx same = finish_new-Created k (some s) krn_ctx same
    with_context-Created k none krn_ctx same = elim (Bool-cases (k.mem 0)) [
      | inl got ↦ rw got (finish_new-Created (record k { mem = rest k.mem }) none krn_ctx same)
      | inr fails ↦ rw fails same
    ]

    context_or_new-Created :
        (k : Kernel) (kstack : Option (ℕ → Pte)) (krn_ctx : Option ℕ)
        → k.pcbs ≡ before
        → Returns
            (Created before pid table kstack parent usr krn_ctx)
            (bind_res (context_or_new krn_ctx k) (with_context block kstack))
    unfolding context_or_new with_context malloc
    context_or_new-Created k kstack (some c) same = with_context-Created k kstack (some c) same
    context_or_new-Created k kstack none same = elim (Bool-cases (k.mem 0)) [
      | inl got ↦ rw got (with_context-Created (record k { mem = rest k.mem }) kstack none same)
      | inr fails ↦ rw fails same
    ]

  -- `pcbNew`, given a user context, always returns. Where it returns NULL it has changed no block; else
  -- the block that it returns is ready and does not wait or sleep, has the pid, the parent, the page
  -- table and the user context that were passed, and the kernel context and the kernel stack that were
  -- passed or, where they were NULL, new ones; and every other block is as it was.
  pub pcb_new-creates :
      (k : Kernel) (pid : ℤ) (table : Option ℕ) (kstack : Option (ℕ → Pte)) (parent : Option ℕ)
      (usr_ctx : UserContext) (krn_ctx : Option ℕ)
      → Returns
          (Created k.pcbs pid table kstack parent usr_ctx krn_ctx)
          (pcb_new pid table kstack parent (some usr_ctx) krn_ctx k)
  unfolding pcb_new malloc new_set Set.new
  pcb_new-creates k pid table kstack parent usr_ctx krn_ctx = elim (Bool-cases (k.mem 0)) [
    | inr fails ↦ rw fails refl
    | inl got ↦ rw got (elim (Bool-cases (k.mem 3)) [
      | inr fails ↦ rw fails refl
      | inl got' ↦ rw got' (
          context_or_new-Created k.pcbs pid table parent usr_ctx
            (if k.mem 1 then some Set.empty else none) (if k.mem 2 then some Set.empty else none)
            (record k { mem = λ n. k.mem (suc (suc (suc (suc n)))) }) kstack krn_ctx refl)
    ])
  ]
