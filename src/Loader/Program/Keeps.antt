-- ===== src/Loader/Program/Keeps.antt =====
-- What `LoadProgram` leaves alone, however it ends.
use cs58_yalnix.Base.{ℕ, zero, suc, ◌+◌, Option, none, some, List}
use cs58_yalnix.Base.Int.{ℤ}
use cs58_yalnix.Kernel.{Hardware, Kernel, Pte, M, pure, gets, update}
use cs58_yalnix.Kernel.Preserves.{Preserves, Preserves-bind, Preserves-gets, structure}
use cs58_yalnix.Kernel.Memory.Reads.{check_memory_validity-reads}
use cs58_yalnix.Loader.{ProgramFile, LoadInfo, Layout, take_three, new_entry, part_of, assign_pages}
use cs58_yalnix.Loader.Memory.Keeps.{
  Kept, store-Kept, malloc-Kept, pop_free_frame-Kept, change_bytes-Kept, free_old_pages-Kept,
  install_table-Kept, read_segment-Kept, protect_text-Kept,
}
use cs58_yalnix.Loader.Program.{
  set_sp, set_pc, set_brk, finish_memory, finish_program, read_program, replace_memory, commit,
  check_program, load_program,
}

module _ (k0 : Kernel) where
  set_sp-Kept : (p sp : ℕ) → Preserves (Kept k0) (set_sp p sp)
  unfolding set_sp
  set_sp-Kept p sp = search (structure, store-Kept k0) depth 20

  set_pc-Kept : (p pc : ℕ) → Preserves (Kept k0) (set_pc p pc)
  unfolding set_pc
  set_pc-Kept p pc = search (structure, store-Kept k0) depth 20

  set_brk-Kept : (p addr : ℕ) → Preserves (Kept k0) (set_brk p addr)
  unfolding set_brk
  set_brk-Kept p addr = search (structure, store-Kept k0) depth 20

  finish_memory-Kept :
      (li : LoadInfo) (lay : Layout) (args : List (List ℕ)) (p : ℕ)
      → Preserves (Kept k0) (finish_memory li lay args p)
  unfolding finish_memory
  finish_memory-Kept li lay args p = search (structure, change_bytes-Kept, set_pc-Kept) depth 20

  finish_program-Kept :
      (li : LoadInfo) (lay : Layout) (args : List (List ℕ)) (p : ℕ)
      → Preserves (Kept k0) (finish_program li lay args p)
  unfolding finish_program
  finish_program-Kept li lay args p =
      search (structure, protect_text-Kept, finish_memory-Kept) depth 20

  take_three-Kept : Preserves (Kept k0) take_three
  unfolding take_three
  take_three-Kept = search (structure, pop_free_frame-Kept) depth 20

  assigned-Kept :
      (lay : Layout) (i n : ℕ) (new : ℕ → Pte) (hw : Hardware)
      → ((new' : ℕ → Pte) → Preserves (Kept k0) (assign_pages lay (i + 1) n new'))
      → (frames : Option (ℕ × ℕ × ℕ))
      → Preserves (Kept k0) (elim frames as (λ x. M (Option (ℕ → Pte))) [
        | none ↦ pure none
        | some (f1, f2, f3) ↦
            assign_pages lay
              (i + 1)
              n
              (update new i (new_entry hw (part_of hw lay i) f1 f2 f3 (new i)))
      ])
  assigned-Kept lay i n new hw later none = search structure
  assigned-Kept lay i n new hw later (some (f1, f2, f3)) = later _

  assign_pages-Kept :
      (lay : Layout) (n i : ℕ) (new : ℕ → Pte) → Preserves (Kept k0) (assign_pages lay i n new)
  unfolding assign_pages
  assign_pages-Kept lay zero i new = search structure
  assign_pages-Kept lay (suc n) i new =
      let later = assign_pages-Kept lay n (i + 1) in
      Preserves-bind (Kept k0) (gets (λ k. k.hardware)) _
        (Preserves-gets (Kept k0) (λ k. k.hardware))
        λ hw.
          Preserves-bind (Kept k0) take_three _ take_three-Kept
            λ frames. assigned-Kept lay i n new hw later frames

  module _ (argbuf : ℕ) (fresh : ℕ → Pte) (stale : ℕ → ℕ) (kill : ℤ) (file : ProgramFile)
      (args : List (List ℕ)) where
    read_program-Kept :
        (li : LoadInfo) (lay : Layout) (p : ℕ)
        → Preserves (Kept k0) (read_program argbuf fresh stale kill file li lay args p)
    unfolding read_program
    read_program-Kept li lay p = search (structure, read_segment-Kept, finish_program-Kept) depth 30

    replace_memory-Kept :
        (li : LoadInfo) (lay : Layout) (p : ℕ) (new : Option (ℕ → Pte))
        → Preserves (Kept k0) (replace_memory argbuf fresh stale kill file li lay args p new)
    unfolding replace_memory
    replace_memory-Kept li lay p none = search structure
    replace_memory-Kept li lay p (some new) =
        search (structure, set_brk-Kept, free_old_pages-Kept, install_table-Kept, read_program-Kept)
          depth 40

    commit-Kept :
        (li : LoadInfo) (lay : Layout) (proc : Option ℕ)
        → Preserves (Kept k0) (commit argbuf fresh stale kill file li lay args proc)
    unfolding commit
    commit-Kept li lay proc =
        search
          (
            structure, set_sp-Kept, malloc-Kept, check_memory_validity-reads, assign_pages-Kept,
            replace_memory-Kept,
          )
          depth 40

    check_program-Kept :
        (proc : Option ℕ) (info : Option LoadInfo)
        → Preserves (Kept k0) (check_program argbuf fresh stale kill file args proc info)
    unfolding check_program
    check_program-Kept proc none = search structure
    check_program-Kept proc (some li) = search (structure, commit-Kept) depth 30

  pub load_program-Kept :
      (argbuf : ℕ) (fresh : ℕ → Pte) (stale : ℕ → ℕ) (kill : ℤ) (file : ProgramFile)
      (args : List (List ℕ)) (proc : Option ℕ)
      → Preserves (Kept k0) (load_program argbuf fresh stale kill (some file) args proc)
  unfolding load_program
  load_program-Kept argbuf fresh stale kill file args proc =
      check_program-Kept argbuf fresh stale kill file args proc file.info
