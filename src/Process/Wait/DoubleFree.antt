-- ===== src/Process/Wait/DoubleFree.antt =====
-- What `WaitHandler` does with a zombie that `ExitHandler` has also put into the set of the dead.
use cs58_yalnix.Base.{
  ℕ, ◌≡◌, refl, ap, ◌∙◌, Bool, false, none, some, List, ◌∷◌, ◌==◌, ==_refl, Bool-cases, inl, inr,
}
use cs58_yalnix.Base.Int.{ℤ}
use cs58_yalnix.Kernel.{Kernel, Pcb, Res, ok, fault, halt, M, load, pop_dead, bind_res}
use cs58_yalnix.Kernel.Ensures.{Runs, load_lem, Returns, Returns-weaken}
use cs58_yalnix.Kernel.Memory.{check_memory_validity}
use cs58_yalnix.Set
use cs58_yalnix.Set.{Set}
use cs58_yalnix.Set.Laws.{pop_eq_find}
use cs58_yalnix.Process.Pcb.{
  release, release_table, release_stack, clear_pointers, free_block, pcb_free,
}
use cs58_yalnix.Process.Wait.{
  reap, reap_zombies, free_popped, wait_sets, wait_with, wait_current, status_wanted, wait_handler,
}

-- The resources of an exited process are gone, its block is not.
pub record IsExited (k : Kernel) (z : ℕ) (u : Pcb) : Type 0 where
  pub block : k.pcbs z ≡ some u
  pub no_table : u.page_table ≡ none
  pub no_stack : u.kernel_stack_pages ≡ none

bind_res-fault :
    {A B : Type 0} (r : Res A) (f : A → M B)
    → Returns (λ a k. f a k ≡ fault) r
    → bind_res r f ≡ fault
bind_res-fault (ok a k) f h = h
bind_res-fault fault f h = refl
bind_res-fault halt f h = absurd h

module _ (k : Kernel) (z : ℕ) (u : Pcb) (x : IsExited k z u) where
  -- The block is freed, nothing else is left to free.
  pcb_free-exited : Returns (λ _ k'. k'.pcbs z ≡ none) (pcb_free z k)
  unfolding pcb_free release release_table clear_pointers release_stack free_block
  pcb_free-exited = rw (x.block, x.no_table, x.block, ==_refl z, x.no_stack, ==_refl z) refl

load-freed : (k : Kernel) (z : ℕ) → k.pcbs z ≡ none → load z k ≡ fault
load-freed k z e = rw e

module _ (k : Kernel) (z : ℕ) (u : Pcb) (x : IsExited k z u) (key : ℤ) (rest : List (ℤ × ℕ))
    (listed : Set.find k.dead_pcbs u.pid ≡ some z) where
  reap-fault : reap ((key, z) ∷ rest) k ≡ fault
  unfolding reap free_popped pop_dead
  reap-fault =
      rw (x.block, pop_eq_find k.dead_pcbs u.pid, listed)
        (bind_res-fault (pcb_free z (record k { dead_pcbs = (Set.pop k.dead_pcbs u.pid).1 })) _ (
          Returns-weaken (λ _ k'. k'.pcbs z ≡ none) _ _
            (pcb_free-exited (record k { dead_pcbs = (Set.pop k.dead_pcbs u.pid).1 }) z u
              (record { block = x.block; no_table = x.no_table; no_stack = x.no_stack }))
            (λ _ k' e. rw e refl)))

status_wanted_lem :
    (addr : ℕ) (k : Kernel) (wanted : Bool)
    → check_memory_validity addr k ≡ ok wanted k
    → (b : Bool) × (status_wanted addr k ≡ ok b k)
unfolding status_wanted
status_wanted_lem addr k wanted checked = elim (Bool-cases (addr == 0)) [
  | inl null ↦ (false, rw null refl)
  | inr given ↦ (wanted, rw (given, checked) refl)
]

module _ (k : Kernel) (p z : ℕ) (v u : Pcb) (r : Runs k p v) (children : Set ℕ) (zombies : Set ℕ)
    (key : ℤ) (rest : List (ℤ × ℕ)) (has_children : v.children ≡ some children)
    (has_zombies : v.zombies ≡ some zombies) (first : zombies.nodes ≡ (key, z) ∷ rest)
    (x : IsExited k z u) (listed : Set.find k.dead_pcbs u.pid ≡ some z) where
  wait_current-fault :
      (addr : ℕ) (wanted : Bool)
      → check_memory_validity addr k ≡ ok wanted k
      → wait_current (some p) addr k ≡ fault
  unfolding wait_current wait_sets wait_with reap_zombies
  wait_current-fault addr wanted checked =
      let status = status_wanted_lem addr k wanted checked in
      rw
        (
          load_lem r,
          has_children,
          has_zombies,
          status.1,
          first,
          x.block,
          reap-fault k z u x key rest listed,
        )
        refl

  -- `WaitHandler` runs into undefined behaviour where the current process has its two sets, the
  -- first zombie has neither a page table nor a kernel stack left, and that zombie is, under its
  -- pid, in the set of the dead as well: its block is freed, and then read to be freed again. The
  -- check of the status pointer must return.
  pub wait_handler-fault :
      (addr : ℕ) (wanted : Bool)
      → check_memory_validity addr k ≡ ok wanted k
      → wait_handler addr k ≡ fault
  unfolding wait_handler
  wait_handler-fault addr wanted checked =
      ap (λ o. wait_current o addr k) r.current ∙ wait_current-fault addr wanted checked
