-- ===== src/Vm/Fork/Child.antt =====
-- What `ForkHandler` needs, and what it makes.
use cs58_yalnix.Base.{
  ℕ, ◌≡◌, ◌≤◌, ◌<◌, refl, sym, ap, ◌∙◌, ◌+◌, ◌*◌, true, false, none, some, [], ◌∷◌, ◌++◌, ◌==◌,
}
use cs58_yalnix.Base.Int.{ℤ, pos, ◌==ℤ◌, ◌+ℤ◌, leb_ℤ, is_neg, ==ℤ_refl}
use cs58_yalnix.Kernel.{Kernel, Pcb, Pte, UserContext, ok, ready}
use cs58_yalnix.Kernel.Scheduler.Laws.{CanRun}
use cs58_yalnix.Set
use cs58_yalnix.Set.{Set}
use cs58_yalnix.Set.Laws.{has_key-find_node, find-insert}
use cs58_yalnix.Vm.Fork.{count_processes}
use cs58_yalnix.Vm.Fork.Copies.{SamePage}
use cs58_yalnix.Vm.Fork.Windows.{AllLaidOut, InHeap}

-- The block of a process that calls `Fork`.
abbrev pub calling : Pcb → UserContext → (cur : ℕ) → Set ℕ → Pcb
calling v u cur s = record v { usr_ctx = some u; page_table = some cur; children = some s }

-- The kernel can make a new process with this pid for the process at `p`: memory does not run out and
-- what it gives is in the heap and new, and there are not too many processes.
pub record CanFork (k : Kernel) (at context_at new : ℕ) (new_pid : ℤ) (p : ℕ) (v : Pcb)
    (u : UserContext) (cur : ℕ) (parent : ℕ → Pte) (s : Set ℕ) : Type 0 where
  pub memory : (n : ℕ) → k.mem n ≡ true
  pub runs : k.current_process ≡ some p
  pub block : k.pcbs p ≡ some (calling v u cur s)
  pub maps : k.page_tables cur ≡ some parent
  pub register : k.ptbr1 ≡ some cur
  pub count : ℤ
  pub counted : count_processes k ≡ ok count k
  pub few : leb_ℤ (pos k.hardware.max_processes) count ≡ false
  pub apart : (at == p) ≡ false
  pub tables_apart : (new == cur) ≡ false
  pub new_key : Set.find s new_pid ≡ none
  pub positive : is_neg new_pid ≡ false
  pub other_pid : (v.pid ==ℤ new_pid) ≡ false
  pub stack : 0 < k.hardware.num_kstack_frames
  pub room :
      k.hardware.orig_kernel_brk_page + k.kernel_brk_offset + 2 * k.hardware.num_kstack_frames
      ≤ k.hardware.num_pages
  pub laid : AllLaidOut k.hardware k.kernel_brk_offset k.region_0_pages
  pub in_heap : InHeap k.hardware k.kernel_brk_offset at
  pub context : InHeap k.hardware k.kernel_brk_offset context_at

-- The new process is there, ready and a child of the caller, and its memory is a copy.
pub record Forked (k : Kernel) (at new : ℕ) (new_pid : ℤ) (p : ℕ) (v : Pcb) (u : UserContext)
    (cur : ℕ) (parent : ℕ → Pte) (s : Set ℕ) (k' : Kernel) : Type 0 where
  pub child : Pcb
  pub child_runs : CanRun k.hardware k'.region_0_pages k'.pcbs at child
  pub child_ready : child.state ≡ ready
  pub child_pid : child.pid ≡ new_pid
  pub child_parent : child.parent ≡ some p
  pub child_context : child.usr_ctx ≡ some u
  pub child_brk : child.current_brk ≡ v.current_brk
  pub child_table : child.page_table ≡ some new
  pub children : Set ℕ
  pub parent_at : k'.pcbs p ≡ some (calling v u cur children)
  pub is_child : Set.find children new_pid ≡ some at
  pub others : (q : ℕ) → (at == q) ≡ false → (p == q) ≡ false → k'.pcbs q ≡ k.pcbs q
  pub current : k'.current_process ≡ some p
  pub queued : k'.process_ready_queue.items ≡ k.process_ready_queue.items ++ at ∷ []
  pub pages : ℕ → Pte
  pub pages_at : k'.page_tables new ≡ some pages
  pub same :
      (j : ℕ)
      → j < k.hardware.num_pages
      → SamePage k.hardware parent pages (k.user_mem cur) (k'.user_mem new) j
  pub region_0 : AllLaidOut k.hardware k.kernel_brk_offset k'.region_0_pages

-- The set with the new child in it.
abbrev pub with_child : Set ℕ → ℤ → ℕ → Set ℕ
with_child s new_pid at = record {
  nodes = (new_pid, at) ∷ s.nodes;
  node_count = s.node_count +ℤ pos 1;
}

pub insert_lem :
    (s : Set ℕ) (new_pid : ℤ) (at : ℕ)
    → Set.find s new_pid ≡ none
    → is_neg new_pid ≡ false
    → Set.insert s new_pid (some at) (λ _. true) ≡ (pos 0, with_child s new_pid at, λ _. true)
unfolding Set.insert Set.find
insert_lem s new_pid at unused positive =
    let absent : Set.has_key new_pid s.nodes ≡ false =
      has_key-find_node new_pid s.nodes ∙ rw (rw positive at unused) refl in
    rw (positive, absent) refl

pub find_lem :
    (s : Set ℕ) (new_pid : ℤ) (at : ℕ)
    → Set.find s new_pid ≡ none
    → is_neg new_pid ≡ false
    → Set.find (with_child s new_pid at) new_pid ≡ some at
find_lem s new_pid at unused positive =
    let run = insert_lem s new_pid at unused positive in
    ap (λ r. Set.find r.1 new_pid) (sym run)
    ∙ find-insert s new_pid new_pid at (λ _. true) (rw run refl)
    ∙ rw (==ℤ_refl new_pid) refl
