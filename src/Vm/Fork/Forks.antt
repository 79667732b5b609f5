-- ===== src/Vm/Fork/Forks.antt =====
-- `ForkHandler` as a whole, for the process that calls it.
use cs58_yalnix.Base.{
  ℕ, ◌≡◌, ◌<◌, ◌⊎◌, inl, inr, refl, sym, subst, ◌+◌, ◌%◌, ◌^◌, Bool, true, false, none, some, List,
  [], ◌∷◌, ◌++◌, if◌then◌else◌, ltb, ◌==◌, ==_refl, arith,
}
use cs58_yalnix.Base.Int.{ℤ, pos, ◌+ℤ◌, ◌-ℤ◌}
use cs58_yalnix.Kernel.{
  Kernel, Pcb, Pte, UserContext, ReadBuffer, Res, ok, pure, malloc, push_ready, update, ready,
  bind_res,
}
use cs58_yalnix.Kernel.Ensures.{Returns, Returns-bind, Returns-Ensures}
use cs58_yalnix.Queue
use cs58_yalnix.Queue.{Queue}
use cs58_yalnix.Set
use cs58_yalnix.Set.{Set}
use cs58_yalnix.Ipc.{error, new_set}
use cs58_yalnix.Process.Create.{pcb_new}
use cs58_yalnix.Vm.{pop_free_frame}
use cs58_yalnix.Vm.Fork.{
  blank, count_processes, children_or_new, insert_child, stack_pages, start_child, finish_fork,
  fork_resume, copy_pages, copy_process, fork_handler,
}
use cs58_yalnix.Vm.Fork.Copies.{SamePage, Copied, Ready, copy_pages-Copied}
use cs58_yalnix.Vm.Fork.Keeps.{Copying, copy_pages-Copying}
use cs58_yalnix.Vm.Fork.Windows.{AllLaidOut, InHeap-IsKernelAddress, kc_copy-AllLaidOut}
use cs58_yalnix.Vm.Fork.Child.{calling, CanFork, Forked, with_child, insert_lem, find_lem}

module _ (at context_at : ℕ) (raw : Pcb) (fresh : ℕ → Pte) (input : ReadBuffer) (new : ℕ)
    (raw_table : ℕ → Pte) (new_pid : ℤ) (k : Kernel) (p : ℕ) (v : Pcb) (u : UserContext) (cur : ℕ)
    (parent : ℕ → Pte) (s : Set ℕ)
    (c : CanFork k at context_at new new_pid p v u cur parent s) where
  -- `ForkHandler` returns the pid of the new process, or ERROR with no free frame left.
  abbrev Forks : ℤ → Kernel → Type 0
  Forks rc k' =
      (rc ≡ new_pid) × Forked k at new new_pid p v u cur parent s k'
      ⊎ (rc ≡ error) × (k'.free_frame_queue.items ≡ [])

  -- The kernel with memory, and with an empty page table for the child.
  abbrev calls : Kernel
  calls = record k { mem = λ _. true; current_process = some p }

  calls_lem : k ≡ calls
  calls_lem = λ i. record k { mem = λ n. c.memory n i; current_process = c.runs i }

  abbrev copies : Kernel
  copies = record calls {
    page_tables = update k.page_tables new (some (blank k.hardware.num_pages raw_table));
  }

  -- The kernel when the pages have been copied.
  abbrev copied : Kernel → List ℕ → Kernel
  copied kc free = record kc {
    hardware = k.hardware;
    kernel_brk_offset = k.kernel_brk_offset;
    mem = λ _. true;
    pcbs = k.pcbs;
    current_process = some p;
    process_ready_queue = k.process_ready_queue;
    free_frame_queue = record kc.free_frame_queue { items = free };
  }

  copied_lem :
      (kc : Kernel) → Copying copies c.room c.stack kc → kc ≡ copied kc kc.free_frame_queue.items
  copied_lem kc (hw, brk, mem, pcbs, current, queue, laid) = λ i. record kc {
    hardware = hw i;
    kernel_brk_offset = brk i;
    mem = mem i;
    pcbs = pcbs i;
    current_process = current i;
    process_ready_queue = queue i;
  }

  -- The child's block as `pcbNew` makes it, and when it is complete.
  abbrev new_child : Pcb
  new_child = record raw {
    state = ready;
    waiting = false;
    pid = new_pid;
    delay_ticks = pos 0;
    exit_status = pos 0;
    child_exit_status = pos 0;
    parent = some p;
    children = some Set.empty;
    zombies = some Set.empty;
    page_table = some new;
    usr_ctx = some u;
    krn_ctx = some context_at;
    kernel_stack_pages = some fresh;
    tty_read_buffer_r0 = some input;
    tty_read_buffer_r1 = none;
    tty_has_bytes = false;
    tty_num_bytes_read = pos 0;
    tty_write_waiting = false;
  }

  abbrev whole_child : ℕ → ℕ → Pcb
  whole_child f g = record new_child {
    current_brk = v.current_brk;
    kernel_stack_pages = some (stack_pages k.hardware fresh f g);
  }

  -- What comes after the copy.
  abbrev after_copy : Kernel → Res ℤ
  after_copy kc =
      bind_res
        (pcb_new at context_at raw fresh input new_pid (some new) none (some p) (some u) none kc)
        (finish_fork context_at p new_pid)

  abbrev finished : Kernel → ℕ → ℕ → List ℕ → Kernel
  finished kc f g free = record (copied kc free) {
    pcbs =
        update
          (update
            (update (update k.pcbs at (some new_child)) at
              (some (record new_child { current_brk = v.current_brk })))
            at (some (whole_child f g)))
          p (some (calling v u cur (with_child s new_pid at)));
    process_ready_queue = record {
      items = k.process_ready_queue.items ++ at ∷ [];
      next_key = (k.process_ready_queue.next_key + 1) % 2 ^ 32;
      count = k.process_ready_queue.count +ℤ pos 1;
    };
    free_frame_queue = record kc.free_frame_queue {
      items = free;
      count = kc.free_frame_queue.count -ℤ pos 1 -ℤ pos 1;
    };
  }

  -- The new process is complete, whatever the pages are through which its stack was copied.
  finished-Forked :
      (kc : Kernel) (f g : ℕ) (free : List ℕ) (region pages : ℕ → Pte)
      → AllLaidOut k.hardware k.kernel_brk_offset region
      → kc.page_tables new ≡ some pages
      → ((j : ℕ)
          → j < k.hardware.num_pages
          → SamePage k.hardware parent pages (k.user_mem cur) (kc.user_mem new) j)
      → (finished kc f g free).pcbs at ≡ some (whole_child f g)
      → Forked k at new new_pid p v u cur parent s
          (record (finished kc f g free) { region_0_pages = region })
  finished-Forked kc f g free region pages laid found same child_at =
      let address = λ (a : ℕ).
        InHeap-IsKernelAddress k.hardware k.kernel_brk_offset region a (omega (arith, c.room))
          laid in
      record {
        child = whole_child f g;
        child_runs = record {
          block = child_at;
          address = address at c.in_heap;
          context = context_at;
          has_context = refl;
          context_address = address context_at c.context;
          stack = stack_pages k.hardware fresh f g;
          has_stack = refl;
        };
        child_ready = refl;
        child_pid = refl;
        child_parent = refl;
        child_context = refl;
        child_brk = refl;
        child_table = refl;
        children = with_child s new_pid at;
        parent_at = rw (==_refl p) refl;
        is_child = find_lem s new_pid at c.new_key c.positive;
        others = λ q a b. rw (a, b) refl;
        current = refl;
        queued = refl;
        pages = pages;
        pages_at = found;
        same = same;
        region_0 = laid;
      }

  after_copy-Forks :
      (kc : Kernel) (free : List ℕ)
      → AllLaidOut k.hardware k.kernel_brk_offset kc.region_0_pages
      → (pages : ℕ → Pte) → kc.page_tables new ≡ some pages
      → ((j : ℕ)
          → j < k.hardware.num_pages
          → SamePage k.hardware parent pages (k.user_mem cur) (kc.user_mem new) j)
      → Returns Forks (after_copy (copied kc free))
  unfolding pcb_new malloc new_set Set.new finish_fork pop_free_frame Queue.pop start_child
      children_or_new insert_child push_ready Queue.push fork_resume
  after_copy-Forks kc [] laid pages found same =
      rw c.apart (rw c.block (rw (==_refl at) (inr (refl, refl))))
  after_copy-Forks kc (f ∷ []) laid pages found same =
      rw c.apart (rw c.block (rw (==_refl at) (inr (refl, refl))))
  after_copy-Forks kc (f ∷ g ∷ free) laid pages found same =
      let apart' : (p == at) ≡ false = let h = c.apart in ground arith in
      let child_at : (finished kc f g free).pcbs at ≡ some (whole_child f g) =
        rw (apart', ==_refl at) refl in
      let address =
        InHeap-IsKernelAddress k.hardware k.kernel_brk_offset kc.region_0_pages at
          (omega (arith, c.room)) laid c.in_heap in
      let (region, run, laid') =
        kc_copy-AllLaidOut context_at at (finished kc f g free) (whole_child f g) context_at
          (stack_pages k.hardware fresh f g) address child_at refl refl c.room laid in
      let made = finished-Forked kc f g free region pages laid' found same child_at in
      let inserted = insert_lem s new_pid at c.new_key c.positive in
      rw
        (
          c.apart,
          c.block,
          ==_refl at,
          ==_refl at,
          c.apart,
          c.block,
          ==_refl at,
          c.apart,
          c.block,
          inserted,
          run,
          ==_refl p,
          c.other_pid,
        )
        (inl (refl, made))

  -- The copy, and what comes then.
  copies-Ready :
      Ready k.hardware parent
        (k.user_mem cur)
        cur
        new
        cur
        c.tables_apart
        c.tables_apart
        0
        k.hardware.num_pages
        copies
        (blank k.hardware.num_pages raw_table)
  copies-Ready = record {
    machine = refl;
    maps = rw c.tables_apart c.maps;
    table = rw (==_refl new) refl;
    source = c.register;
    bytes = refl;
    unmapped = λ j low high.
        let inside : ltb j k.hardware.num_pages ≡ true = ground arith in rw inside refl;
    fits = omega arith;
  }

  after_pages-Forks :
      (done : Bool) (kc : Kernel)
      → Copied k.hardware parent
          (k.user_mem cur)
          cur
          new
          cur
          0
          k.hardware.num_pages
          (blank k.hardware.num_pages raw_table)
          (k.user_mem new)
          k.free_frame_queue.items
          done
          kc
        × Copying copies c.room c.stack kc
      → Returns Forks ((if done then after_copy else pure error) kc)
  after_pages-Forks false kc (d, keeps) = inr (refl, d.exhausted refl)
  after_pages-Forks true kc (d, keeps) =
      let laid : AllLaidOut k.hardware k.kernel_brk_offset kc.region_0_pages = keeps.6 in
      subst (λ k1. Returns Forks (after_copy k1)) (sym (copied_lem kc keeps))
        (after_copy-Forks kc kc.free_frame_queue.items laid d.child d.found
          λ j inside. d.same refl j (omega arith) (omega arith))

  calls-Forks :
      Returns Forks (fork_handler at context_at raw fresh input new raw_table new_pid calls)
  unfolding fork_handler copy_process malloc
  calls-Forks =
      let counted : count_processes calls ≡ ok c.count calls =
        subst (λ k1. count_processes k1 ≡ ok c.count k1) calls_lem c.counted in
      rw counted (
        rw c.few (
          rw c.block (
            Returns-bind _ Forks (copy_pages cur new 0 k.hardware.num_pages copies) _
              (Returns-Ensures _ _ (copy_pages cur new 0 k.hardware.num_pages copies)
                (copy_pages-Copied k.hardware parent (k.user_mem cur) cur new cur c.tables_apart
                  c.tables_apart k.hardware.num_pages 0 copies
                  (blank k.hardware.num_pages raw_table) copies-Ready)
                ((copy_pages-Copying copies c.room c.stack cur new k.hardware.num_pages 0).keeps
                  copies (refl, refl, refl, refl, refl, refl, c.laid)))
              after_pages-Forks)))

  -- Where no allocation fails, there are fewer processes than MAX_PROCESSES, the new block and context
  -- are in the kernel's heap, block and page table are not the caller's, the new pid is not negative,
  -- not the caller's and not one of its children's, and region 0 is laid out as at boot, `ForkHandler`
  -- returns to the caller with the pid of a new process, or gives up with ERROR and no free frame left.
  -- The new process is ready and last on the ready queue, can be given the CPU, and is in the caller's
  -- set of children under its pid, with the caller as its parent. It has the caller's context and break
  -- and a page table of its own, which maps the same pages with the same protections to the same bytes.
  -- Then no other block has changed, and region 0 is laid out as before.
  pub fork_handler-Forks :
      Returns Forks (fork_handler at context_at raw fresh input new raw_table new_pid k)
  fork_handler-Forks =
      subst
        (λ k1. Returns Forks (fork_handler at context_at raw fresh input new raw_table new_pid k1))
        (sym calls_lem) calls-Forks
