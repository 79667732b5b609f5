-- ===== src/Kernel/Scheduler/Turns.antt =====
-- Processes that only give the CPU away: calls of `ScheduleNextProcess` one after another.
use cs58_yalnix.Base.{
  ℕ, zero, suc, ◌≡◌, refl, sym, subst, ◌/◌, ◌<◌, true, false, some, List, [], ◌∷◌, ◌++◌, All,
  All-mono, length, append_assoc, ◌==◌, Bool-cases, inl, inr, arith, leb,
}
use cs58_yalnix.Kernel.{Kernel, Pcb, Pte, ready, M, ok, pure, ◌>>◌}
use cs58_yalnix.Kernel.Ensures.{Returns}
use cs58_yalnix.Kernel.Scheduler.{schedule_next_process, stack_base, loaded_pages}
use cs58_yalnix.Kernel.Scheduler.Laws.{
  IsKernelAddress, CanRun, saved_block, after_pop, after_push, after_switch, schedule_ready_lem,
}

-- Every process gives the CPU away, `n` times in all.
unfoldable pub turns : ℕ → M (Unit {0})
turns zero = pure tt
turns (suc n) = do schedule_next_process; turns n

-- A ready process that can be given the CPU, now and after any switch: its block and its kernel
-- context are below the kernel stack, whose pages the switches exchange.
pub record IsFit (k : Kernel) (q : ℕ) : Type 0 where
  pub v : Pcb
  pub can_run : CanRun k.hardware k.region_0_pages k.pcbs q v
  pub is_ready : v.state ≡ ready
  pub block_below : q / k.hardware.page_size < stack_base k
  pub context_below : can_run.context / k.hardware.page_size < stack_base k

abbrev pub Distinct : List ℕ → Type 0
Distinct [] = Unit
Distinct (x ∷ xs) = All (λ y. (x == y) ≡ false) xs × Distinct xs

-- The process at `p` runs, those of the list are in this order on the ready queue, no two are the
-- same, all are fit to run, and there is memory.
pub record IsFair (k : Kernel) (p : ℕ) (ps : List ℕ) : Type 0 where
  pub runs : k.current_process ≡ some p
  pub line : k.process_ready_queue.items ≡ ps
  pub distinct : Distinct (p ∷ ps)
  pub fit : All (IsFit k) (p ∷ ps)
  pub room : (n : ℕ) → k.mem n ≡ true

pub ==_false_sym : (x y : ℕ) → (x == y) ≡ false → (y == x) ≡ false
==_false_sym x y e = ground (arith, e)

pub All-last : (P : ℕ → Type 0) (xs : List ℕ) (x : ℕ) → All P xs → P x → All P (xs ++ x ∷ [])
All-last P [] x all h = (h, tt)
All-last P (y ∷ xs) x all h = (all.0, All-last P xs x all.1 h)

pub Distinct-rotate : (p : ℕ) (ps : List ℕ) → Distinct (p ∷ ps) → Distinct (ps ++ p ∷ [])
Distinct-rotate p [] d = (tt, tt)
Distinct-rotate p (x ∷ ps) d = (
  All-last (λ y. (x == y) ≡ false) ps p d.1.0 (==_false_sym p x d.0.0),
  Distinct-rotate p ps (d.0.1, d.1.1),
)

pub IsKernelAddress-loaded :
    (k : Kernel) (stack : ℕ → Pte) (addr : ℕ)
    → addr / k.hardware.page_size < stack_base k
    → IsKernelAddress k.hardware k.region_0_pages addr
    → IsKernelAddress k.hardware (loaded_pages k stack) addr
IsKernelAddress-loaded k stack addr below a =
    let outside : leb (stack_base k) (addr / k.hardware.page_size) ≡ false =
      ground (arith, below) in
    record { low = a.low; region_0 = a.region_0; mapped = rw outside (a.mapped) }

module _ (k : Kernel) (p q : ℕ) (qs : List ℕ) (from : IsFit k p) (to : IsFit k q) where
  -- The kernel once the process at `p` has given the CPU to the first one of the ready queue.
  abbrev pub next_turn : Kernel
  next_turn =
      after_switch (record (after_push (after_pop k qs) p) { ptbr1 = to.v.page_table }) p from.v
        from.can_run.stack q to.can_run.stack

  unfoldable pub fit_self : (r : ℕ) → (p == r) ≡ true → IsFit k r → IsFit next_turn r
  fit_self r same f =
      let ca = from.can_run.context_address in
      record {
        v = saved_block k from.v from.can_run.stack;
        can_run = record {
          block = rw same refl;
          address = IsKernelAddress-loaded k to.can_run.stack r f.block_below f.can_run.address;
          context = from.can_run.context;
          has_context = from.can_run.has_context;
          context_address =
              IsKernelAddress-loaded k to.can_run.stack from.can_run.context from.context_below ca;
          stack = _;
          has_stack = refl;
        };
        is_ready = from.is_ready;
        block_below = f.block_below;
        context_below = from.context_below;
      }

  unfoldable pub fit_other : (r : ℕ) → (p == r) ≡ false → IsFit k r → IsFit next_turn r
  fit_other r apart f =
      let ca = f.can_run.context_address in
      record {
        v = f.v;
        can_run = record {
          block = rw apart (f.can_run.block);
          address = IsKernelAddress-loaded k to.can_run.stack r f.block_below f.can_run.address;
          context = f.can_run.context;
          has_context = f.can_run.has_context;
          context_address =
              IsKernelAddress-loaded k to.can_run.stack f.can_run.context f.context_below ca;
          stack = f.can_run.stack;
          has_stack = f.can_run.has_stack;
        };
        is_ready = f.is_ready;
        block_below = f.block_below;
        context_below = f.context_below;
      }

  IsFit-next : (r : ℕ) → IsFit k r → IsFit next_turn r
  IsFit-next r f = elim (Bool-cases (p == r)) [
    | inl same ↦ fit_self r same f
    | inr apart ↦ fit_other r apart f
  ]

-- The first process of the ready queue gets the CPU, and the one that ran is the last one now.
pub next_turn_lem :
    (k : Kernel) (p q : ℕ) (qs : List ℕ) (f : IsFair k p (q ∷ qs))
    → schedule_next_process k ≡ ok tt (next_turn k p q qs f.fit.0 f.fit.1.0)
next_turn_lem k p q qs f =
    schedule_ready_lem k p q qs f.fit.0.v f.fit.1.0.v f.fit.0.can_run f.fit.1.0.can_run
      f.distinct.0.0 f.runs f.line f.fit.0.is_ready (f.room 0)

pub IsFair-next :
    (k : Kernel) (p q : ℕ) (qs : List ℕ) (f : IsFair k p (q ∷ qs))
    → IsFair (next_turn k p q qs f.fit.0 f.fit.1.0) q (qs ++ p ∷ [])
IsFair-next k p q qs f =
    let k' = next_turn k p q qs f.fit.0 f.fit.1.0 in
    let keeps = IsFit-next k p q qs f.fit.0 f.fit.1.0 in
    let others = All-mono (IsFit k) (IsFit k') keeps (q ∷ qs) f.fit.1 in
    record {
      runs = refl;
      line = refl;
      distinct = Distinct-rotate p (q ∷ qs) f.distinct;
      fit = All-last (IsFit k') (q ∷ qs) p others (keeps p f.fit.0);
      room = λ n. f.room (suc n);
    }

-- Nobody starves among processes that only give the CPU away: where all processes of the ready
-- queue and the one that runs are different, ready and fit to run, and memory never runs out, the
-- process behind `n` others on the ready queue runs after `n + 1` calls of `ScheduleNextProcess`.
-- The ready queue then holds those behind it, the process that ran at first, and the `n` others, in
-- this order.
pub turns-runs :
    (before after : List ℕ) (q : ℕ) {k : Kernel} {p : ℕ}
    → IsFair k p (before ++ q ∷ after)
    → Returns
        (λ _ k'.
          (k'.current_process ≡ some q) × (k'.process_ready_queue.items ≡ after ++ p ∷ before))
        (turns (suc (length before)) k)
unfolding turns
turns-runs [] after q {k} {p} f = rw (next_turn_lem k p q after f) (refl, refl)
turns-runs (r ∷ before) after q {k} {p} f =
    let k' = next_turn k p r (before ++ q ∷ after) f.fit.0 f.fit.1.0 in
    let e = append_assoc before (q ∷ after) (p ∷ []) in
    let f' = IsFair-next k p r (before ++ q ∷ after) f in
    let rotated = subst (IsFair k' r) e f' in
    rw (next_turn_lem k p r (before ++ q ∷ after) f, sym (append_assoc after (p ∷ []) (r ∷ before)))
      (turns-runs before (after ++ p ∷ []) q rotated)
