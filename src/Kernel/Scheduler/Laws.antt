-- ===== src/Kernel/Scheduler/Laws.antt =====
-- What a call of `ScheduleNextProcess` does to the process that runs and to the one that is next.
use cs58_yalnix.Base.{
  ℕ, ◌≡◌, refl, ap, ◌+◌, ◌/◌, ◌^◌, ◌%◌, ◌<◌, true, false, Option, none, some, List, [], ◌∷◌, ◌++◌,
  leb, ◌==◌, arith, ==_refl, ◌∙◌,
}
use cs58_yalnix.Base.Int.{is_neg, pos, ◌+ℤ◌, ◌-ℤ◌}
use cs58_yalnix.Kernel.{
  Hardware, Kernel, Pcb, Pte, ready, blocked, ok, push_ready, pop_ready, insert_blocked, update,
}
use cs58_yalnix.Kernel.Ensures.{Returns}
use cs58_yalnix.Kernel.Memory.{check_memory_validity}
use cs58_yalnix.Kernel.Scheduler.{
  kc_switch, save_context, load_context, valid_block, note_pages, saved_pages, loaded_pages,
  switch_to, enqueue_as, enqueue_process, enqueue_current_process, run_next, schedule_next_process,
}
use cs58_yalnix.Queue
use cs58_yalnix.Set
use cs58_yalnix.Set.Laws.{insert-fresh}
use cs58_yalnix.Base.Alloc.{rest}

-- An address in a valid page of region 0, as all kernel data is.
pub record IsKernelAddress (h : Hardware) (pages : ℕ → Pte) (addr : ℕ) : Type 0 where
  pub low : leb (2 ^ 31) addr ≡ false
  pub region_0 : addr / h.page_size < h.num_pages
  pub mapped : (pages (addr / h.page_size)).valid ≡ true

pub IsKernelAddress-valid :
    (k : Kernel) (addr : ℕ)
    → IsKernelAddress k.hardware k.region_0_pages addr
    → check_memory_validity addr k ≡ ok true k
unfolding check_memory_validity
IsKernelAddress-valid k addr h = ground (arith, h.low, h.region_0, h.mapped)

-- A block that the CPU can be given to: it and its kernel context lie in valid pages, and it has a
-- kernel stack.
pub record CanRun (h : Hardware) (pages : ℕ → Pte) (pcbs : ℕ → Option Pcb) (p : ℕ) (v : Pcb)
    : Type 0 where
  pub block : pcbs p ≡ some v
  pub address : IsKernelAddress h pages p
  pub context : ℕ
  pub has_context : v.krn_ctx ≡ some context
  pub context_address : IsKernelAddress h pages context
  pub stack : ℕ → Pte
  pub has_stack : v.kernel_stack_pages ≡ some stack

-- What is written into another block, or into this one but for its context and stack, does not
-- matter.
pub CanRun-other :
    {h : Hardware} {pages : ℕ → Pte} {pcbs : ℕ → Option Pcb} {q : ℕ} {u : Pcb} (p : ℕ)
    (o : Option Pcb)
    → (p == q) ≡ false
    → CanRun h pages pcbs q u
    → CanRun h pages (update pcbs p o) q u
CanRun-other p o apart c = record {
  block = rw apart (c.block);
  address = c.address;
  context = c.context;
  has_context = c.has_context;
  context_address = c.context_address;
  stack = c.stack;
  has_stack = c.has_stack;
}

pub CanRun-self :
    {h : Hardware} {pages : ℕ → Pte} {pcbs : ℕ → Option Pcb} {p : ℕ} {v : Pcb} (w : Pcb)
    → w.krn_ctx ≡ v.krn_ctx
    → w.kernel_stack_pages ≡ v.kernel_stack_pages
    → CanRun h pages pcbs p v
    → CanRun h pages (update pcbs p (some w)) p w
CanRun-self {p} w e e' c = record {
  block = rw (==_refl p) refl;
  address = c.address;
  context = c.context;
  has_context = e ∙ c.has_context;
  context_address = c.context_address;
  stack = c.stack;
  has_stack = e' ∙ c.has_stack;
}

-- The block once its kernel stack's pages are noted in it.
abbrev pub saved_block : (k : Kernel) → Pcb → (ℕ → Pte) → Pcb
saved_block k v stack = record v { kernel_stack_pages = some (saved_pages k stack) }

abbrev pub after_switch : Kernel → ℕ → Pcb → (ℕ → Pte) → ℕ → (ℕ → Pte) → Kernel
after_switch k p v old q new = record k {
  pcbs = update k.pcbs p (some (saved_block k v old));
  region_0_pages = loaded_pages k new;
  current_process = some q;
}

module _ (k : Kernel) (p : ℕ) (v : Pcb) (c : CanRun k.hardware k.region_0_pages k.pcbs p v) where
  save_context_lem :
      save_context (some p) k
      ≡ ok tt (record k { pcbs = update k.pcbs p (some (saved_block k v c.stack)) })
  unfolding save_context note_pages
  save_context_lem = rw c.block (
      ap (λ o. note_pages p v o v.kernel_stack_pages k) c.has_context
      ∙ ap (λ o. note_pages p v (some c.context) o k) c.has_stack)

load_context_lem :
    (k : Kernel) (p : ℕ) (v : Pcb) (stack : ℕ → Pte)
    → k.pcbs p ≡ some v
    → v.kernel_stack_pages ≡ some stack
    → load_context p k
      ≡ ok tt (record k { region_0_pages = loaded_pages k stack; current_process = some p })
unfolding load_context
load_context_lem k p v stack b s = rw (b, s)

module _ (k : Kernel) (p q : ℕ) (v u : Pcb) (from : CanRun k.hardware k.region_0_pages k.pcbs p v)
    (to : CanRun k.hardware k.region_0_pages k.pcbs q u) (apart : (p == q) ≡ false) where
  kc_switch_lem : kc_switch (some p) q k ≡ ok tt (after_switch k p v from.stack q to.stack)
  unfolding kc_switch valid_block
  kc_switch_lem =
      rw (IsKernelAddress-valid k p from.address, to.block, to.has_context)
        (rw (IsKernelAddress-valid k to.context to.context_address, save_context_lem k p v from)
          (load_context_lem
            (record k { pcbs = update k.pcbs p (some (saved_block k v from.stack)) }) q u to.stack
            (rw (apart, to.block)) to.has_stack))

module _ (k : Kernel) (p q : ℕ) (v u : Pcb) (from : CanRun k.hardware k.region_0_pages k.pcbs p v)
    (to : CanRun k.hardware k.region_0_pages k.pcbs q u) (apart : (p == q) ≡ false) where
  switch_to_lem :
      k.current_process ≡ some p
      → switch_to q k
        ≡ ok tt (after_switch (record k { ptbr1 = u.page_table }) p v from.stack q to.stack)
  unfolding switch_to
  switch_to_lem runs =
      rw (to.block, runs)
        (kc_switch_lem (record k { ptbr1 = u.page_table; current_process = some p }) p q v u from to
          apart)

-- The kernel once the front of the ready queue has left, and once a process has lined up in it.
abbrev pub after_pop : Kernel → List ℕ → Kernel
after_pop k qs = record k {
  process_ready_queue = record k.process_ready_queue {
    items = qs;
    count = k.process_ready_queue.count -ℤ pos 1;
  };
}

abbrev pub after_push : Kernel → ℕ → Kernel
after_push k p = record k {
  process_ready_queue = record {
    items = k.process_ready_queue.items ++ p ∷ [];
    next_key = (k.process_ready_queue.next_key + 1) % 2 ^ 32;
    count = k.process_ready_queue.count +ℤ pos 1;
  };
  mem = rest k.mem;
}

pop_ready_lem :
    (k : Kernel) (q : ℕ) (qs : List ℕ)
    → k.process_ready_queue.items ≡ q ∷ qs
    → pop_ready k ≡ ok (some q) (after_pop k qs)
unfolding pop_ready Queue.pop
pop_ready_lem k q qs line = rw line

module _ (k : Kernel) (p : ℕ) (v : Pcb) (runs : k.current_process ≡ some p)
    (block : k.pcbs p ≡ some v) where
  enqueue_ready_lem :
      v.state ≡ ready → k.mem 0 ≡ true → enqueue_current_process k ≡ ok tt (after_push k p)
  unfolding enqueue_current_process enqueue_process enqueue_as push_ready Queue.push
  enqueue_ready_lem s room = rw (runs, block, s, room)

  enqueue_blocked_lem :
      v.state ≡ blocked
      → enqueue_current_process k
        ≡ ok tt (record k {
          blocked_pcbs = (Set.insert k.blocked_pcbs v.pid (some p) k.mem).1;
          mem = (Set.insert k.blocked_pcbs v.pid (some p) k.mem).2;
        })
  unfolding enqueue_current_process enqueue_process enqueue_as insert_blocked
  enqueue_blocked_lem s = rw (runs, block, s)

module _ (k : Kernel) (p q : ℕ) (qs : List ℕ) (v u : Pcb)
    (from : CanRun k.hardware k.region_0_pages k.pcbs p v)
    (to : CanRun k.hardware k.region_0_pages k.pcbs q u) (apart : (p == q) ≡ false)
    (runs : k.current_process ≡ some p) (line : k.process_ready_queue.items ≡ q ∷ qs) where
  -- What `ScheduleNextProcess` leaves: the process at `q` runs in its own address space, on its own
  -- kernel stack, and the ready queue holds these processes.
  abbrev pub Scheduled : List ℕ → Kernel → Type 0
  Scheduled ready_items k' =
      (k'.current_process ≡ some q)
      × (k'.ptbr1 ≡ u.page_table)
      × (k'.region_0_pages ≡ loaded_pages k to.stack)
      × (k'.pcbs p ≡ some (saved_block k v from.stack))
      × (k'.process_ready_queue.items ≡ ready_items)
      × (k'.ipc_wrapper ≡ k.ipc_wrapper)

  pub schedule_ready_lem :
      v.state ≡ ready
      → k.mem 0 ≡ true
      → schedule_next_process k
        ≡ ok tt (
            after_switch
              (record (after_push (after_pop k qs) p) { ptbr1 = u.page_table })
              p
              v
              from.stack
              q
              to.stack)
  unfolding schedule_next_process run_next
  schedule_ready_lem s room =
      rw (pop_ready_lem k q qs line, enqueue_ready_lem (after_pop k qs) p v runs from.block s room)
        (switch_to_lem (after_push (after_pop k qs) p) p q v u from to apart runs)

  -- Round robin: where another process is first on the ready queue, both blocks are fit to run
  -- (block, kernel context and kernel stack in valid memory) and there is memory, a current
  -- process in the ready state that calls `ScheduleNextProcess` goes to the end of the ready queue
  -- with its kernel stack saved, and the first process runs, in its own address space and on its
  -- own kernel stack.
  pub schedule_next_process-round_robin :
      v.state ≡ ready
      → k.mem 0 ≡ true
      → Returns (λ _. Scheduled (qs ++ p ∷ [])) (schedule_next_process k)
  schedule_next_process-round_robin s room =
      rw (schedule_ready_lem s room) (refl, refl, refl, rw (==_refl p), refl, refl)

  -- Under the same conditions a current process in the blocked state, with a pid that is not
  -- negative and not in use in the blocked set, does not go back on the ready queue: it is found
  -- in the blocked set by its pid, and the first process of the ready queue runs.
  pub schedule_next_process-block :
      v.state ≡ blocked
      → k.mem 0 ≡ true
      → is_neg v.pid ≡ false
      → Set.find k.blocked_pcbs v.pid ≡ none
      → Returns
          (λ _ k'. Scheduled qs k' × (Set.find k'.blocked_pcbs v.pid ≡ some p))
          (schedule_next_process k)
  unfolding schedule_next_process run_next
  schedule_next_process-block s room valid fresh =
      let kept = insert-fresh k.blocked_pcbs v.pid p k.mem valid fresh room in
      rw
        (
          pop_ready_lem k q qs line,
          enqueue_blocked_lem (after_pop k qs) p v runs from.block s,
          switch_to_lem
              (record (after_pop k qs) {
                blocked_pcbs = (Set.insert k.blocked_pcbs v.pid (some p) k.mem).1;
                mem = (Set.insert k.blocked_pcbs v.pid (some p) k.mem).2;
              })
              p q v u from to apart runs,
        )
        ((refl, refl, refl, rw (==_refl p), refl, refl), kept)
