-- ===== src/Tests/Programs.antt =====
-- A program is loaded on a machine with regions of six pages.
use cs58_yalnix.Base.{ℕ, ◌+◌, ◌≡◌, refl, arith, true, false, some, List, [], ◌∷◌}
use cs58_yalnix.Base.Int.{pos, negsuc}
use cs58_yalnix.Kernel.{Hardware, Kernel, Pte, running, fault}
use cs58_yalnix.Kernel.Ensures.{Returns}
use cs58_yalnix.Ipc.Locks.{unlocked}
use cs58_yalnix.Loader.{LoadInfo, ProgramFile}
use cs58_yalnix.Loader.Program.{load_program}
use cs58_yalnix.Loader.Program.Loads.{CanLoad, Loaded, load_program-loads}
use cs58_yalnix.Traps.{read_through, exec_handler}
use cs58_yalnix.Traps.Exec.{load_current, exec_handler-fault}
use cs58_yalnix.Tests.Sample.{hw, page, process, machine, lock_of, line, user_context}

abbrev pub small : Hardware
small = record hw { num_pages = 6; max_pt_len = 6 }

-- Two pages of text, two of data, and one for the stack.
abbrev pub info : LoadInfo
info = record {
  entry = 49152;
  t_vaddr = 49152;
  t_npg = 2;
  t_faddr = 0;
  id_vaddr = 65536;
  id_npg = 1;
  id_faddr = 16384;
  id_end = 65600;
  ud_npg = 1;
  ud_end = 81920;
}

abbrev pub file : ProgramFile
file = record { info = some info; read = λ offset n. (pos n, λ i. offset + i) }

abbrev pub arguments : List (List ℕ)
arguments = (105 ∷ 110 ∷ []) ∷ (65 ∷ []) ∷ []

abbrev empty_page : Pte
empty_page = record page { valid = false }

abbrev pub loading_machine : Kernel
loading_machine = record (machine running (lock_of unlocked [] (pos 0))) {
  hardware = small;
  page_tables = λ _. some (λ _. empty_page);
  free_frame_queue =
      line
        (50 ∷ 51 ∷ 52 ∷ 53 ∷ 54 ∷ 55 ∷ 56 ∷ 57 ∷ 58 ∷ 59 ∷ 60 ∷ 61 ∷ 62 ∷ 63 ∷ 64 ∷ 65 ∷ 66 ∷ 67
          ∷ [])
        (pos 18);
}

can_load :
    CanLoad loading_machine 16000 file info arguments 100
      (process (pos 1) running)
      user_context
      5000
can_load = record {
  known = refl;
  linked = omega arith;
  room = omega arith;
  tables_fit = omega arith;
  text_first = omega arith;
  args_fit = record { small = omega arith; fits = omega arith };
  text = refl;
  initialized = refl;
  memory = λ n. refl;
  buffer = record { low = refl; region_0 = omega arith; mapped = refl };
  frames = omega arith;
  block = refl;
  context = refl;
  own_table = refl;
  own_entries = λ _. empty_page;
  own_entries_at = refl;
  cur = 5000;
  before = λ _. empty_page;
  register = refl;
  before_at = refl;
  unmapped = λ j _. refl;
}

load_program-loads_example :
    Returns
      (λ rc k'. (rc ≡ pos 0) × Loaded loading_machine info arguments 100 5000 user_context k')
      (load_program 16000
        (λ _. page)
        (λ _. 7)
        (negsuc 1)
        (some file)
        arguments
        (some 100)
        loading_machine)
load_program-loads_example =
    load_program-loads 16000 (λ _. page) (λ _. 7) (negsuc 1) loading_machine file info arguments 100
      (process (pos 1) running) user_context 5000 can_load

-- A process that runs a program calls `Exec`.
abbrev running_machine : Kernel
running_machine = record loading_machine { page_tables = λ _. some (λ _. page) }

exec_handler-fault_example :
    exec_handler
      (λ _. true)
      (λ _. true)
      (load_current 16000 (λ _. page) (λ _. 7) (negsuc 1) (λ _. some file) (λ _. arguments))
      (negsuc 1)
      49200
      49300
      running_machine
    ≡ fault
unfolding read_through
exec_handler-fault_example =
    exec_handler-fault (λ _. true) (λ _. true) 16000 (λ _. page) (λ _. 7) (negsuc 1)
      (λ _. some file) (λ _. arguments) 49200 49300 running_machine file info 100
      (process (pos 1) running) user_context 5000 (λ _. page) refl refl refl refl refl refl
      (record {
        known = refl;
        linked = omega arith;
        room = omega arith;
        memory = λ n. refl;
        buffer = record { low = refl; region_0 = omega arith; mapped = refl };
        frames = omega arith;
        block = refl;
        context = refl;
      })
      refl refl refl (omega arith) (omega arith)
