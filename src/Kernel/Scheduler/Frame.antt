-- ===== src/Kernel/Scheduler/Frame.antt =====
-- What the scheduler has nothing to do with: the terminals, what was sent to them and the constants
-- of the machine. A predicate `Q` of these survives every call of it.
use cs58_yalnix.Base.{ℕ, Option, none, some, List}
use cs58_yalnix.Base.Int.{ℤ}
use cs58_yalnix.Kernel.{
  Hardware, Kernel, M, Terminal, Pcb, Pte, ProcessState, ready, blocked, running, dead, delayed, ok,
  store, pop_ready, push_ready, pop_blocked, insert_blocked, insert_dead, insert_delayed, malloc,
}
use cs58_yalnix.Kernel.Preserves.{Preserves, structure}
use cs58_yalnix.Kernel.Memory.Reads.{check_memory_validity-reads}
use cs58_yalnix.Kernel.Scheduler.{
  kc_switch, save_context, load_context, valid_block, note_pages, loaded_pages, switch_to,
  enqueue_as, enqueue_process, enqueue_current_process, run_idle, run_next, schedule_next_process,
}

module _ (Q : Hardware → Option (ℕ → Terminal) → List (ℕ × List ℕ) → Type 0) where
  abbrev pub Holds : Kernel → Type 0
  Holds k = Q k.hardware k.tty_state k.transmitted

  abbrev Keeps : {A : Type 0} → M A → Type 0
  Keeps = Preserves Holds

  pub store-Holds : (p : ℕ) (v : Pcb) → Keeps (store p v)
  store-Holds p v = record { keeps = λ k h. h }

  pub push_ready-Holds : (p : Option ℕ) → Keeps (push_ready p)
  unfolding push_ready
  push_ready-Holds p = record { keeps = λ k h. h }

  pub pop_blocked-Holds : (key : ℤ) → Keeps (pop_blocked key)
  unfolding pop_blocked
  pop_blocked-Holds key = record { keeps = λ k h. h }

  pub malloc-Holds : Keeps malloc
  unfolding malloc
  malloc-Holds = record { keeps = λ k h. h }

  pop_ready-Holds : Keeps pop_ready
  unfolding pop_ready
  pop_ready-Holds = record { keeps = λ k h. h }

  note_pages-Holds :
      (p : ℕ) (v : Pcb) (context : Option ℕ) (pages : Option (ℕ → Pte))
      → Keeps (note_pages p v context pages)
  unfolding note_pages
  note_pages-Holds p v (some c) (some old) = record { keeps = λ k h. h }
  note_pages-Holds p v (some c) none = record { keeps = λ k h. h }
  note_pages-Holds p v none pages = record { keeps = λ k h. h }

  save_context-Holds : (p : Option ℕ) → Keeps (save_context p)
  unfolding save_context
  save_context-Holds none = search structure
  save_context-Holds (some p) = search (structure, note_pages-Holds)

  set_stack-Holds :
      (p : ℕ) (pages : ℕ → Pte)
      → Keeps (λ k.
        ok tt (record k { region_0_pages = loaded_pages k pages; current_process = some p }))
  set_stack-Holds p pages = record { keeps = λ k h. h }

  load_context-Holds : (p : ℕ) → Keeps (load_context p)
  unfolding load_context
  load_context-Holds p = search (structure, set_stack-Holds)

  valid_block-Holds : (p : Option ℕ) → Keeps (valid_block p)
  unfolding valid_block
  valid_block-Holds none = search structure
  valid_block-Holds (some p) = check_memory_validity-reads Holds p

  kc_switch-Holds : (curr : Option ℕ) (next : ℕ) → Keeps (kc_switch curr next)
  unfolding kc_switch
  kc_switch-Holds curr next =
      search
        (
          structure, valid_block-Holds, check_memory_validity-reads, save_context-Holds,
          load_context-Holds,
        )
        depth 12

  set_table-Holds : (v : Pcb) → Keeps (λ k. ok tt (record k { ptbr1 = v.page_table }))
  set_table-Holds v = record { keeps = λ k h. h }

  switch_to-Holds : (p : ℕ) → Keeps (switch_to p)
  unfolding switch_to
  switch_to-Holds p = search (structure, set_table-Holds, kc_switch-Holds) depth 12

  enqueue_as-Holds : (s : ProcessState) (p : ℕ) (v : Pcb) → Keeps (enqueue_as s p v)
  unfolding enqueue_as push_ready insert_dead insert_blocked insert_delayed
  enqueue_as-Holds ready p v = record { keeps = λ k h. h }
  enqueue_as-Holds dead p v = record { keeps = λ k h. h }
  enqueue_as-Holds blocked p v = record { keeps = λ k h. h }
  enqueue_as-Holds delayed p v = record { keeps = λ k h. h }
  enqueue_as-Holds running p v = record { keeps = λ k h. h }

  enqueue_process-Holds : (p : Option ℕ) → Keeps (enqueue_process p)
  unfolding enqueue_process
  enqueue_process-Holds none = search structure
  enqueue_process-Holds (some p) = search (structure, enqueue_as-Holds)

  enqueue_current_process-Holds : Keeps enqueue_current_process
  unfolding enqueue_current_process
  enqueue_current_process-Holds = search (structure, enqueue_process-Holds)

  run_idle-Holds : (p : Option ℕ) → Keeps (run_idle p)
  unfolding run_idle
  run_idle-Holds (some p) = search structure
  run_idle-Holds none = search (structure, switch_to-Holds)

  run_next-Holds : (p : Option ℕ) → Keeps (run_next p)
  unfolding run_next
  run_next-Holds none =
      search (structure, enqueue_current_process-Holds, pop_ready-Holds, run_idle-Holds)
  run_next-Holds (some p) = search (structure, enqueue_current_process-Holds, switch_to-Holds)

  pub schedule_next_process-Holds : Keeps schedule_next_process
  unfolding schedule_next_process
  schedule_next_process-Holds = search (structure, pop_ready-Holds, run_next-Holds)
