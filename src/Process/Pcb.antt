-- ===== src/Process/Pcb.antt =====
-- src/datastructures/pcb.c: `pcbOrphanChildren`, `pcbExit` and `pcbFree`.
use cs58_yalnix.Base.{
  ℕ, zero, suc, ◌+◌, Bool, true, false, Option, none, some, List, [], ◌∷◌, if◌then◌else◌, ◌==◌,
}
use cs58_yalnix.Base.Int.{ℤ}
use cs58_yalnix.Kernel.{
  Pte, M, ok, pure, ◌>>=◌, ◌>>◌, gets, deref, load, store, malloc, push_free_frame,
}
use cs58_yalnix.Set.{Set}

-- `set_iterate` with `setParentHelper`.
set_parents : Option ℕ → List (ℤ × ℕ) → M (Unit {0})
set_parents parent [] = pure tt
set_parents parent ((_, p) ∷ nodes) = do
  v ← load p
  store p (record v { parent = parent })
  set_parents parent nodes

abbrev nodes_of : Option (Set ℕ) → List (ℤ × ℕ)
nodes_of none = []
nodes_of (some s) = s.nodes

-- `pcbOrphanChildren`.
unfoldable pub pcb_orphan_children : ℕ → M (Unit {0})
unfolding set_parents
pcb_orphan_children p = do
  init ← gets (λ k. k.init_process)
  v ← load p
  set_parents init (nodes_of v.children)
  v' ← load p
  set_parents init (nodes_of v'.zombies)

-- A frame number in a block of its own goes on the free frame queue; the result of the push is
-- ignored. `false` where there is no memory for the block.
release_frame : ℕ → M Bool
release_frame pfn = do got ← malloc; if got then (do push_free_frame pfn; pure true) else pure false

-- The loop over `n` page table entries from `i` on.
release_frames : (ℕ → Pte) → ℕ → ℕ → M Bool
unfolding release_frame
release_frames entries i zero = pure true
release_frames entries i (suc n) =
    let rest = release_frames entries (i + 1) n in
    if (entries i).valid
    then (do done ← release_frame (entries i).pfn; if done then rest else pure false)
    else rest

free_table : ℕ → M (Unit {0})
free_table at k = ok tt (record k { page_tables = λ t. if t == at then none else k.page_tables t })

unfoldable pub release_table : ℕ → Option ℕ → M Bool
unfolding release_frames free_table
release_table p none = pure true
release_table p (some at) = do
  entries ← gets (λ k. k.page_tables at)
  table ← deref entries
  n ← gets (λ k. k.hardware.num_pages)
  done ← release_frames table 0 n
  if done
      then (do free_table at; v ← load p; store p (record v { page_table = none }); pure true)
      else pure false

-- The sets and contexts are freed and their pointers cleared.
unfoldable pub clear_pointers : ℕ → M (Unit {0})
clear_pointers p = do
  v ← load p
  store p (record v { children = none; zombies = none; usr_ctx = none; krn_ctx = none })

unfoldable pub release_stack : ℕ → Option (ℕ → Pte) → M Bool
unfolding release_frames
release_stack p none = pure true
release_stack p (some pages) = do
  done ← release_frames pages 0 2
  if done
      then (do v ← load p; store p (record v { kernel_stack_pages = none }); pure true)
      else pure false

-- The common body of `pcbExit` and `pcbFree`; `false` where it returned early.
unfoldable pub release : ℕ → M Bool
unfolding release_table clear_pointers release_stack
release p = do
  v ← load p
  done ← release_table p v.page_table
  if done
      then (do clear_pointers p; v' ← load p; release_stack p v'.kernel_stack_pages)
      else pure false

-- `pcbExit`.
unfoldable pub pcb_exit : Option ℕ → M (Unit {0})
unfolding release
pcb_exit none = pure tt
pcb_exit (some p) = do release p; pure tt

-- `free(pcb)`.
unfoldable pub free_block : ℕ → M (Unit {0})
free_block p k = ok tt (record k { pcbs = λ q. if q == p then none else k.pcbs q })

-- `pcbFree`, of a pointer that is not NULL.
unfoldable pub pcb_free : ℕ → M (Unit {0})
unfolding release free_block
pcb_free p = do done ← release p; if done then free_block p else pure tt
