-- ===== src/Loader.antt =====
-- `LoadProgram` and `free_page_frame` of src/kernel.c. The file that the host opens is a parameter:
-- what `LoadInfo` finds in it (an answer of load_info.h, whose fields are unsigned), and the result
-- and the bytes of `read` at an offset. So are what `malloc` gives, and what the frames held before
-- that the process gets. Writes to the memory of the process are those of the page table in REG_PTBR1.
pub mod Memory
pub mod Program
pub mod Fit
pub mod Pages
use cs58_yalnix.Base.{
  ℕ, zero, suc, ◌+◌, ◌-◌, ◌*◌, ◌/◌, ◌%◌, ◌^◌, Bool, true, false, ◌&&◌, Option, none, some, List, [],
  ◌∷◌, length, if◌then◌else◌, ltb, leb,
}
use cs58_yalnix.Base.Int.{ℤ, pos, negsuc, ◌==ℤ◌}
use cs58_yalnix.Kernel.{
  Hardware, Kernel, Pcb, Pte, M, ok, pure, crash, gets, deref, load, store, malloc, push_free_frame,
  update, ◌>>=◌, ◌>>◌,
}
use cs58_yalnix.Kernel.Memory.{check_memory_validity}
use cs58_yalnix.Ipc.{error}
use cs58_yalnix.Vm.{pop_free_frame, down_to_page}
use cs58_yalnix.Vm.UserMemory.{entry_at, put_entry}

-- `struct load_info`.
pub record LoadInfo : Type 0 where
  pub entry : ℕ
  pub t_vaddr : ℕ
  pub t_npg : ℕ
  pub t_faddr : ℕ
  pub id_vaddr : ℕ
  pub id_npg : ℕ
  pub id_faddr : ℕ
  pub id_end : ℕ
  pub ud_npg : ℕ
  pub ud_end : ℕ

-- An open file: `LoadInfo` (`none` for all but LI_NO_ERROR), and `read` at an offset for a number of
-- bytes.
pub record ProgramFile : Type 0 where
  pub info : Option LoadInfo
  pub read : ℕ → ℕ → ℤ × (ℕ → ℕ)

-- VMEM_1_BASE and VMEM_1_LIMIT.
abbrev pub base_1 : Hardware → ℕ
base_1 hw = hw.num_pages * hw.page_size

abbrev pub limit_1 : Hardware → ℕ
limit_1 hw = hw.num_pages * hw.page_size * 2

-- A difference of 32-bit addresses.
abbrev pub minus : ℕ → ℕ → ℕ
minus a b = (a + 2 ^ 32 - b % 2 ^ 32) % 2 ^ 32

-- The bytes of the arguments, each with its NUL.
abbrev pub args_size : List (List ℕ) → ℕ
args_size [] = 0
args_size (a ∷ args) = length a + 1 + args_size args

-- Where the program's parts go: page numbers in region 1, the arguments' strings (`cp`), the words
-- below them (`cpp`) and the stack pointer.
pub record Layout : Type 0 where
  pub text_pg1 : ℕ
  pub data_pg1 : ℕ
  pub data_npg : ℕ
  pub cp : ℕ
  pub cpp : ℕ
  pub sp : ℕ
  pub stack_npg : ℕ

-- `& ~7`.
abbrev pub double_word : ℕ → ℕ
double_word a = a - a % 8

abbrev pub strings_start : Hardware → List (List ℕ) → ℕ
strings_start hw args = minus (limit_1 hw) (args_size args)

abbrev pub words_start : Hardware → List (List ℕ) → ℕ
words_start hw args =
    double_word (minus (strings_start hw args) ((length args + 3 + hw.post_argv_null_space) * 4))

abbrev pub stack_pointer : Hardware → List (List ℕ) → ℕ
stack_pointer hw args = minus (words_start hw args) hw.initial_stack_frame_size

abbrev pub layout : Hardware → LoadInfo → List (List ℕ) → Layout
layout hw li args = record {
  text_pg1 = minus li.t_vaddr (base_1 hw) / hw.page_size;
  data_pg1 = minus li.id_vaddr (base_1 hw) / hw.page_size;
  data_npg = li.id_npg + li.ud_npg;
  cp = strings_start hw args;
  cpp = words_start hw args;
  sp = stack_pointer hw args;
  stack_npg =
      minus (limit_1 hw) (down_to_page hw (stack_pointer hw args) * hw.page_size) / hw.page_size;
}

-- The regions of a new page table. The first page of the text counts as data, as do all below it.
pub data Part : Type 0 where
  text data_heap stack outside : Part

abbrev pub part_of : Hardware → Layout → ℕ → Part
part_of hw lay i =
    if ltb lay.text_pg1 i && ltb i lay.data_pg1
    then text
    else if ltb i (lay.data_pg1 + lay.data_npg)
    then data_heap
    else if leb (hw.num_pages - lay.stack_npg) i
    then stack
    else outside

abbrev pub mapped_to : Hardware → ℕ → Pte
mapped_to hw f = record { valid = true; prot = hw.prot_read_write; pfn = f }

-- Each part takes a frame of its own; the other two are given to nobody.
abbrev pub new_entry : Hardware → Part → ℕ → ℕ → ℕ → Pte → Pte
new_entry hw text f1 f2 f3 old = mapped_to hw f1
new_entry hw data_heap f1 f2 f3 old = mapped_to hw f2
new_entry hw stack f1 f2 f3 old = mapped_to hw f3
new_entry hw outside f1 f2 f3 old = record old { valid = false; prot = 0 }

three : Option ℕ → Option ℕ → Option ℕ → Option (ℕ × ℕ × ℕ)
three (some f1) (some f2) (some f3) = some (f1, f2, f3)
three none f2 f3 = none
three (some f1) none f3 = none
three (some f1) (some f2) none = none

-- Three frames from the free frame queue. Those that were popped are lost where one is missing.
take_three : M (Option (ℕ × ℕ × ℕ))
unfolding three
take_three = do f1 ← pop_free_frame; f2 ← pop_free_frame; f3 ← pop_free_frame; pure (three f1 f2 f3)

-- The loop over `n` pages from `i` on; `none` where the frames run out.
unfoldable pub assign_pages : Layout → ℕ → ℕ → (ℕ → Pte) → M (Option (ℕ → Pte))
unfolding take_three
assign_pages lay i zero entries = pure (some entries)
assign_pages lay i (suc n) entries = do
  hw ← gets (λ k. k.hardware)
  frames ← take_three
  elim frames [
    | none ↦ pure none
    | some (f1, f2, f3) ↦
        assign_pages lay (i + 1) n
          (update entries i (new_entry hw (part_of hw lay i) f1 f2 f3 (entries i)))
  ]
