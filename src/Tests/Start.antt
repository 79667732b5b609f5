-- ===== src/Tests/Start.antt =====
-- The kernel boots on a machine with regions of six pages.
use cs58_yalnix.Base.{ℕ, ◌+◌, refl, arith, some, []}
use cs58_yalnix.Base.Int.{pos, negsuc}
use cs58_yalnix.Kernel.{Hardware, Kernel, running}
use cs58_yalnix.Kernel.Ensures.{Returns}
use cs58_yalnix.Loader.Program.{load_program}
use cs58_yalnix.Start.{NewBlock, Given, kernel_start}
use cs58_yalnix.Start.Machine.{CanBoot, Booted}
use cs58_yalnix.Start.Boots.{kernel_start-boots}
use cs58_yalnix.Tests.Sample.{page, process, terminal, user_context}
use cs58_yalnix.Tests.Programs.{small, info, file, arguments, loading_machine}

abbrev small_kernel : Hardware
small_kernel = record small {
  num_kstack_frames = 1;
  first_kernel_text_page = 1;
  first_kernel_data_page = 2;
  orig_kernel_brk_page = 3;
}

abbrev switched_on : Kernel
switched_on = record loading_machine { hardware = small_kernel; kernel_brk_offset = 1 }

abbrev new_block : ℕ → NewBlock
new_block a = record {
  at = a;
  context_at = a + 200;
  raw = process (pos 0) running;
  fresh = λ _. page;
  input = record { address = a + 400; bytes = λ _. 0 };
}

abbrev given : Given
given = record {
  region_1 = record { at = 20000; entries = λ _. page };
  idle_pages = record { at = 21000; entries = λ _. page };
  init_pages = record { at = 22000; entries = λ _. page };
  idle_block = new_block 23000;
  init_block = new_block 24000;
  idle_context_at = 25000;
  init_context_at = 26000;
  kc_context_at = 27000;
  idle_pid = pos 0;
  init_pid = pos 1;
  do_idle = 9000;
  raw_terminals = λ _. terminal;
}

switched_on-CanBoot : CanBoot switched_on 27 given 16000 file info arguments
switched_on-CanBoot = record {
  memory = λ n. refl;
  text_first = omega arith;
  data_first = omega arith;
  room = omega arith;
  stack = omega arith;
  frames = omega arith;
  idle_table = refl;
  init_table = refl;
  apart = refl;
  idle_block = (refl, omega arith, omega arith);
  idle_context = (refl, omega arith, omega arith);
  buffer = (refl, omega arith, omega arith);
  known = refl;
  linked = omega arith;
  program_room = omega arith;
  tables_fit = omega arith;
  program_text = omega arith;
  args_fit = record { small = omega arith; fits = omega arith };
  text = refl;
  initialized = refl;
}

kernel_start-boots_example : Returns (Booted switched_on 27 given info arguments user_context) (
    kernel_start given
      (λ name args proc. load_program 16000 (λ _. page) (λ _. 7) (negsuc 1) (some file) args proc)
      []
      arguments
      27
      user_context
      switched_on)
kernel_start-boots_example =
    kernel_start-boots switched_on 27 given 16000 (λ _. page) (λ _. 7) (negsuc 1) (λ _. some file)
      [] arguments user_context file info switched_on-CanBoot refl
