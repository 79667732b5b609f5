-- ===== src/Traps/Exec.antt =====
-- `ExecHandler` with the `LoadProgram` of src/kernel.c. The files of the host and the strings at the
-- user's `argvec` are parameters.
use cs58_yalnix.Base.{ℕ, ◌≡◌, ◌<◌, refl, ap, ◌∙◌, Bool, true, false, Option, some, List, ◌==◌}
use cs58_yalnix.Base.Int.{ℤ}
use cs58_yalnix.Kernel.{Kernel, Pcb, UserContext, Pte, M, ok, fault, gets, ◌>>=◌}
use cs58_yalnix.Loader.{ProgramFile, LoadInfo}
use cs58_yalnix.Loader.Program.{load_program}
use cs58_yalnix.Loader.Program.Commit.{CanCommit, load_program-fault}
use cs58_yalnix.Traps.{read_through, exec_handler, is_null}

-- `LoadProgram(filename, argvec, current_process)`.
unfoldable pub load_current :
    (argbuf : ℕ) (fresh : ℕ → Pte) (stale : ℕ → ℕ) (kill : ℤ) (files : ℕ → Option ProgramFile)
    (strings : ℕ → List (List ℕ))
    → ℕ
    → ℕ
    → M ℤ
load_current argbuf fresh stale kill files strings filename argvec = do
  p ← gets (λ k. k.current_process)
  load_program argbuf fresh stale kill (files filename) (strings argvec) p

-- Where the file is there, its program and arguments pass the checks of `LoadProgram`, and neither
-- memory nor frames run out, `Exec` of a process whose first page of region 1 is mapped comes to a read
-- that C leaves undefined: to give that page back, `free_page_frame` calls `check_memory_validity`,
-- which reads the entry of `region_0_pages` past its last one. What happens then is up to the memory
-- behind that table.
pub exec_handler-fault :
    (exists executable : ℕ → Bool) (argbuf : ℕ) (fresh : ℕ → Pte) (stale : ℕ → ℕ) (kill : ℤ)
    (files : ℕ → Option ProgramFile) (strings : ℕ → List (List ℕ)) (filename argvec : ℕ)
    (k : Kernel) (file : ProgramFile) (li : LoadInfo) (p : ℕ) (v : Pcb) (u : UserContext) (cur : ℕ)
    (entries : ℕ → Pte)
    → (filename == 0) ≡ false
    → k.current_process ≡ some p
    → exists filename ≡ true
    → executable filename ≡ true
    → read_through argvec k ≡ ok tt k
    → files filename ≡ some file
    → CanCommit k argbuf file li (strings argvec) p v u
    → k.ptbr1 ≡ some cur
    → k.page_tables cur ≡ some entries
    → (entries 0).valid ≡ true
    → 0 < k.hardware.page_size
    → 0 < k.hardware.num_pages
    → exec_handler exists executable
        (load_current argbuf fresh stale kill files strings)
        kill
        filename
        argvec
        k
      ≡ fault
unfolding exec_handler load_current
exec_handler-fault exists executable argbuf fresh stale kill files strings filename argvec k file li
      p v u cur entries named runs found may_run readable open_file can register at mapped positive
      pages =
    let lost =
      load_program-fault argbuf fresh stale kill k file li (strings argvec) p v u can cur entries
        register at mapped positive pages in
    let somebody : is_null k.current_process ≡ false = ap is_null runs in
    let load = λ (f : Option ProgramFile) (o : Option ℕ).
      load_program argbuf fresh stale kill f (strings argvec) o k in
    let loaded : load (files filename) k.current_process ≡ fault =
      ap (load (files filename)) runs ∙ ap (λ f. load f (some p)) open_file ∙ lost in
    rw (named, somebody, found, may_run) (rw readable (rw loaded refl))
