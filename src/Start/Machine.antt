-- ===== src/Start/Machine.antt =====
-- What `KernelStart` needs, and what it makes of the machine.
use cs58_yalnix.Base.{
  ℕ, ◌≡◌, ◌≤◌, ◌<◌, refl, ◌+◌, ◌*◌, true, false, Option, none, some, List, [], ◌∷◌, length, ◌==◌,
  arith,
}
use cs58_yalnix.Kernel.{Hardware, Kernel, Pcb, Pte, UserContext, Terminal}
use cs58_yalnix.Kernel.Scheduler.Laws.{CanRun}
use cs58_yalnix.Queue
use cs58_yalnix.Queue.{Queue}
use cs58_yalnix.Set
use cs58_yalnix.Ipc.Preserve.{IsValidIpc}
use cs58_yalnix.Tty.Boot.{AllFresh}
use cs58_yalnix.Tty.Frame.{AllTerminals}
use cs58_yalnix.Tty.Calls.Invariant.{IsUsable}
use cs58_yalnix.Vm.Boot.FreeFrames.{free_from}
use cs58_yalnix.Vm.Fork.Windows.{AllLaidOut, InHeap}
use cs58_yalnix.Loader.{ProgramFile, LoadInfo, layout, base_1, words_start, stack_pointer}
use cs58_yalnix.Loader.Fit.{ArgsFit}
use cs58_yalnix.Loader.Memory.Arguments.{StackOf}
use cs58_yalnix.Loader.Pages.{IsEntry, triple_at, after_triples}
use cs58_yalnix.Loader.Program.Protect.{protection}
use cs58_yalnix.Loader.Program.Replace.{Whole}
use cs58_yalnix.Start.{Given}

-- A machine and a program that the kernel can start with: the kernel's regions lie in order, with
-- room for the windows below its stack; blocks and tables that `malloc` gives are in the heap and
-- apart; there are enough frames; the program fits.
pub record CanBoot (k : Kernel) (num_frames : ℕ) (given : Given) (argbuf : ℕ) (file : ProgramFile)
    (li : LoadInfo) (args : List (List ℕ)) : Type 0 where
  pub memory : (n : ℕ) → k.mem n ≡ true
  pub text_first : k.hardware.first_kernel_text_page ≤ k.hardware.first_kernel_data_page
  pub data_first :
      k.hardware.first_kernel_data_page ≤ k.hardware.orig_kernel_brk_page + k.kernel_brk_offset
  pub room :
      k.hardware.orig_kernel_brk_page + k.kernel_brk_offset + 2 * k.hardware.num_kstack_frames
      ≤ k.hardware.num_pages
  pub stack : 0 < k.hardware.num_kstack_frames
  pub frames : 4 * k.hardware.num_pages + 3 ≤ num_frames
  pub idle_table : (given.idle_pages.at == given.region_1.at) ≡ false
  pub init_table : (given.init_pages.at == given.region_1.at) ≡ false
  pub apart : (given.init_block.at == given.idle_block.at) ≡ false
  pub idle_block : InHeap k.hardware k.kernel_brk_offset given.idle_block.at
  pub idle_context : InHeap k.hardware k.kernel_brk_offset given.idle_context_at
  pub buffer : InHeap k.hardware k.kernel_brk_offset argbuf
  pub known : file.info ≡ some li
  pub linked : base_1 k.hardware ≤ li.entry
  pub program_room :
      (layout k.hardware li args).stack_npg
        + (layout k.hardware li args).data_pg1
        + (layout k.hardware li args).data_npg
      < k.hardware.max_pt_len
  pub tables_fit : k.hardware.max_pt_len ≤ k.hardware.num_pages
  pub program_text : (layout k.hardware li args).text_pg1 ≤ (layout k.hardware li args).data_pg1
  pub args_fit : ArgsFit k.hardware args
  pub text : Whole k.hardware file li.t_faddr li.t_npg
  pub initialized : Whole k.hardware file li.id_faddr li.id_npg

-- The machine that runs init.
pub record Booted (k : Kernel) (num_frames : ℕ) (given : Given) (li : LoadInfo)
    (args : List (List ℕ)) (u : UserContext) (r : Option UserContext) (k' : Kernel) : Type 0 where
  pub context : r ≡ some (record u { sp = stack_pointer k.hardware args; pc = li.entry })
  pub current : k'.current_process ≡ some given.init_block.at
  pub idle_process : k'.idle_process ≡ some given.idle_block.at
  pub idle_block : Pcb
  pub idle_runs : CanRun k.hardware k'.region_0_pages k'.pcbs given.idle_block.at idle_block
  pub init_block : Pcb
  pub init_at : k'.pcbs given.init_block.at ≡ some init_block
  pub init_table : init_block.page_table ≡ some given.init_pages.at
  pub register : k'.ptbr1 ≡ some given.init_pages.at
  pub arguments : StackOf (k'.user_mem given.init_pages.at) (words_start k.hardware args) args
  pub f1 : ℕ
  pub f2 : ℕ
  pub f3 : ℕ
  pub frames : List ℕ
  pub free_frames : free_from k.hardware k.kernel_brk_offset 0 num_frames ≡ f1 ∷ f2 ∷ f3 ∷ frames
  pub pages : ℕ → Pte
  pub pages_at : k'.page_tables given.init_pages.at ≡ some pages
  pub entries :
      (j : ℕ)
      → j < k.hardware.num_pages
      → IsEntry k.hardware
          (layout k.hardware li args)
          j
          (protection k.hardware (layout k.hardware li args) j)
          (triple_at frames j)
          (pages j)
  pub left : k'.free_frame_queue.items ≡ after_triples k.hardware.num_pages frames
  pub region_0 : AllLaidOut k.hardware k.kernel_brk_offset k'.region_0_pages
  pub nobody_ready : k'.process_ready_queue ≡ Queue.empty
  pub nobody_blocked : k'.blocked_pcbs ≡ Set.empty
  pub nobody_dead : k'.dead_pcbs ≡ Set.empty
  pub nobody_delayed : k'.delayed_pcbs ≡ Set.empty
  pub objects : IsValidIpc k'.ipc_wrapper
  pub terminals : AllTerminals (IsUsable k.hardware) k'.tty_state

pub split_three :
    (n : ℕ) (l : List ℕ)
    → n + 3 ≤ length l
    → (f1 f2 f3 : ℕ) × (fs : List ℕ) × (l ≡ f1 ∷ f2 ∷ f3 ∷ fs) × (n ≤ length fs)
split_three n (f1 ∷ f2 ∷ f3 ∷ fs) long = (f1, f2, f3, fs, refl, omega arith)
split_three n (f1 ∷ f2 ∷ []) long = absurd (omega arith)
split_three n (f1 ∷ []) long = absurd (omega arith)
split_three n [] long = absurd (omega arith)

pub Fresh-IsUsable :
    (hw : Hardware) (o : Option (ℕ → Terminal))
    → AllFresh hw.num_terminals o
    → AllTerminals (IsUsable hw) o
Fresh-IsUsable hw none fresh = tt
Fresh-IsUsable hw (some terminals) fresh = λ i inside.
    let (available, writer, bytes) = fresh i (ground arith) in
    ((λ e. available), omega (arith, bytes))
