-- ===== src/Loader/Program.antt =====
-- `LoadProgram` itself.
pub mod Protect
pub mod Finish
pub mod Replace
pub mod Loads
pub mod Commit
pub mod Keeps
use cs58_yalnix.Base.{
  ℕ, zero, suc, ◌+◌, ◌-◌, ◌*◌, ◌%◌, ◌^◌, Bool, true, false, ◌&&◌, Option, none, some, List, [], ◌∷◌,
  if◌then◌else◌, ltb, leb, not,
}
use cs58_yalnix.Base.Int.{ℤ, pos}
use cs58_yalnix.Kernel.{
  Hardware, Kernel, Pcb, Pte, M, ok, pure, gets, deref, load, store, malloc, ◌>>=◌, ◌>>◌,
}
use cs58_yalnix.Kernel.Memory.{check_memory_validity}
use cs58_yalnix.Ipc.{error}
use cs58_yalnix.Loader.{ProgramFile, LoadInfo, Layout, layout, base_1, limit_1, minus, assign_pages}
use cs58_yalnix.Loader.Memory.{
  with_bytes, change_bytes, free_old_pages, install_table, read_segment, protect_text, new_stack,
}

-- `proc->usr_ctx->sp` and `proc->usr_ctx->pc`.
set_sp : ℕ → ℕ → M (Unit {0})
set_sp p sp = do
  v ← load p
  u ← deref v.usr_ctx
  store p (record v { usr_ctx = some (record u { sp = sp }) })

set_pc : ℕ → ℕ → M (Unit {0})
set_pc p pc = do
  v ← load p
  u ← deref v.usr_ctx
  store p (record v { usr_ctx = some (record u { pc = pc }) })

set_brk : ℕ → ℕ → M (Unit {0})
set_brk p addr = do v ← load p; store p (record v { current_brk = addr })

-- The rest of the memory is made: the data without values, the entry point and the stack.
finish_memory : LoadInfo → Layout → List (List ℕ) → ℕ → M ℤ
unfolding set_pc
finish_memory li lay args p = do
  hw ← gets (λ k. k.hardware)
  change_bytes (with_bytes li.id_end (minus li.ud_end li.id_end) (λ _. 0))
  set_pc p li.entry
  change_bytes (new_stack hw lay.cpp lay.cp args)
  pure (pos 0)

-- The text is there and becomes executable.
pub finish_program : LoadInfo → Layout → List (List ℕ) → ℕ → M ℤ
unfolding finish_memory
finish_program li lay args p = do
  v ← load p
  table ← deref v.page_table
  protect_text table lay.text_pg1 (lay.data_pg1 - lay.text_pg1)
  finish_memory li lay args p

-- `argbuf` is the address that `malloc` gives for the copy of the arguments, `fresh` what it finds in
-- the block for the new page table, `stale` what the frames hold. `kill` is KILL.
module _ (argbuf : ℕ) (fresh : ℕ → Pte) (stale : ℕ → ℕ) (kill : ℤ) where
  read_program : ProgramFile → LoadInfo → Layout → List (List ℕ) → ℕ → M ℤ
  unfolding finish_program
  read_program file li lay args p = do
    text ← read_segment file li.t_faddr li.t_npg li.t_vaddr
    if text
        then (do
          initialized ← read_segment file li.id_faddr li.id_npg li.id_vaddr
          if initialized then finish_program li lay args p else pure kill)
        else pure kill

  -- The new page table replaces the old memory. `free_page_frame` is called for the pages of the
  -- table in REG_PTBR1.
  pub replace_memory : ProgramFile → LoadInfo → Layout → List (List ℕ) → ℕ → Option (ℕ → Pte) → M ℤ
  unfolding set_brk read_program
  replace_memory file li lay args p none = pure error
  replace_memory file li lay args p (some entries) = do
    hw ← gets (λ k. k.hardware)
    set_brk p ((lay.data_pg1 + lay.data_npg + 1) * hw.page_size + base_1 hw)
    cur ← gets (λ k. k.ptbr1)
    old ← deref cur
    free_old_pages old 0 hw.num_pages
    v ← load p
    table ← deref v.page_table
    install_table table entries stale
    read_program file li lay args p

  -- From here on the process is changed, also where ERROR is returned.
  commit : ProgramFile → LoadInfo → Layout → List (List ℕ) → Option ℕ → M ℤ
  unfolding set_sp replace_memory
  commit file li lay args proc = do
    p ← deref proc
    set_sp p lay.sp
    got ← malloc
    valid ← if got then check_memory_validity argbuf else pure false
    if valid
        then (do
          got' ← malloc
          n ← gets (λ k. k.hardware.num_pages)
          if got'
              then (do
                entries ← assign_pages lay 0 n fresh
                replace_memory file li lay args p entries)
              else pure error)
        else pure error

  check_program : ProgramFile → List (List ℕ) → Option ℕ → Option LoadInfo → M ℤ
  unfolding commit
  check_program file args proc none = pure error
  check_program file args proc (some li) = do
    hw ← gets (λ k. k.hardware)
    let lay = layout hw li args
    if ltb li.entry (base_1 hw)
        then pure error
        else if leb hw.max_pt_len (lay.stack_npg + lay.data_pg1 + lay.data_npg)
        then pure error
        else commit file li lay args proc

  -- `LoadProgram`, for the block at `p`. The file is `none` where `open` fails.
  unfoldable pub load_program : Option ProgramFile → List (List ℕ) → Option ℕ → M ℤ
  unfolding check_program
  load_program none args proc = pure error
  load_program (some file) args proc = check_program file args proc file.info
