-- ===== src/Loader/Program/Finish.antt =====
-- The last part of `LoadProgram`, once the new page table is in place.
use cs58_yalnix.Base.{ℕ, ◌≡◌, ◌≤◌, refl, ◌-◌, false, Option, some, List, ◌==◌, ==_refl, arith}
use cs58_yalnix.Base.Int.{pos}
use cs58_yalnix.Kernel.{Hardware, Kernel, Pcb, Pte, UserContext, ok, bind_res, update}
use cs58_yalnix.Kernel.Ensures.{Returns, Returns-bind}
use cs58_yalnix.Queue.{Queue}
use cs58_yalnix.Loader.{LoadInfo, Layout, minus}
use cs58_yalnix.Loader.Memory.{with_bytes, change_bytes, protect_text, new_stack}
use cs58_yalnix.Loader.Program.Protect.{with_tables, protected, Protected, protect_text-Protected}
use cs58_yalnix.Loader.Program.{set_pc, finish_memory, finish_program}

-- The process at `p` with the block `w` and the context `u` runs on the page table at `table`.
pub record OnTable (k : Kernel) (p table : ℕ) (w : Pcb) (u : UserContext) (entries : ℕ → Pte)
    : Type 0 where
  pub block : k.pcbs p ≡ some w
  pub context : w.usr_ctx ≡ some u
  pub own_table : w.page_table ≡ some table
  pub entries_at : k.page_tables table ≡ some entries
  pub register : k.ptbr1 ≡ some table

-- What the process and its memory are at the end.
pub record Finished (hw : Hardware) (pcbs : ℕ → Option Pcb) (free : Queue ℕ) (li : LoadInfo)
    (lay : Layout) (args : List (List ℕ)) (p table : ℕ) (w : Pcb) (u : UserContext)
    (entries : ℕ → Pte) (k' : Kernel) : Type 0 where
  pub block : k'.pcbs p ≡ some (record w { usr_ctx = some (record u { pc = li.entry }) })
  pub others : (q : ℕ) → (p == q) ≡ false → k'.pcbs q ≡ pcbs q
  pub after : ℕ → Pte
  pub after_at : k'.page_tables table ≡ some after
  pub pages : (j : ℕ) → after j ≡ protected hw lay.text_pg1 (lay.data_pg1 - lay.text_pg1) entries j
  pub register : k'.ptbr1 ≡ some table
  pub free_kept : k'.free_frame_queue ≡ free
  pub bytes : ℕ → ℕ
  pub stack : k'.user_mem table ≡ new_stack hw lay.cpp lay.cp args bytes

abbrev pub FinishedFrom :
    Kernel
    → LoadInfo
    → Layout
    → List (List ℕ)
    → (p table : ℕ) → Pcb
    → UserContext
    → (ℕ → Pte)
    → Kernel
    → Type 0
FinishedFrom k = Finished k.hardware k.pcbs k.free_frame_queue

pub change_bytes_lem :
    (f : (ℕ → ℕ) → ℕ → ℕ) (k : Kernel) (table : ℕ)
    → k.ptbr1 ≡ some table
    → change_bytes f k
      ≡ ok tt (record k { user_mem = update k.user_mem table (f (k.user_mem table)) })
unfolding change_bytes
change_bytes_lem f k table e = rw e

-- The kernel once the process has its entry point, and this memory at `table`.
abbrev with_memory : Kernel → ℕ → Pcb → ℕ → (ℕ → ℕ) → (ℕ → ℕ) → Kernel
with_memory k p v table mem mem' = record k {
  user_mem = update (update k.user_mem table mem) table mem';
  pcbs = update k.pcbs p (some v);
}

set_pc_lem :
    (k : Kernel) (p pc : ℕ) (w : Pcb) (u : UserContext)
    → k.pcbs p ≡ some w
    → w.usr_ctx ≡ some u
    → set_pc p pc k
      ≡ ok tt (record k {
        pcbs = update k.pcbs p (some (record w { usr_ctx = some (record u { pc = pc }) }));
      })
unfolding set_pc
set_pc_lem k p pc w u block context = rw block (rw context refl)

module _ (li : LoadInfo) (lay : Layout) (args : List (List ℕ)) (p table : ℕ) (w : Pcb)
    (u : UserContext) where
  finish_memory_lem :
      (k : Kernel)
      → k.pcbs p ≡ some w
      → w.usr_ctx ≡ some u
      → k.ptbr1 ≡ some table
      → (mem : ℕ → ℕ) × (finish_memory li lay args p k
          ≡ ok (pos 0) (
              with_memory k p
                (record w { usr_ctx = some (record u { pc = li.entry }) })
                table
                mem
                (new_stack k.hardware lay.cpp lay.cp args mem)))
  unfolding finish_memory
  finish_memory_lem k block context register =
      let zeroed = with_bytes li.id_end (minus li.ud_end li.id_end) (λ _. 0) (k.user_mem table) in
      let w' : Pcb = record w { usr_ctx = some (record u { pc = li.entry }) } in
      let k1 : Kernel = record k { user_mem = update k.user_mem table zeroed } in
      let k2 : Kernel = record k1 { pcbs = update k.pcbs p (some w') } in
      (
        zeroed,
        rw
            (
              change_bytes_lem (with_bytes li.id_end (minus li.ud_end li.id_end) (λ _. 0)) k table
                  register,
              set_pc_lem k1 p li.entry w u block context,
              change_bytes_lem (new_stack k.hardware lay.cpp lay.cp args) k2 table register,
            )
            (rw (==_refl table) refl),
      )

  pub finish_program-Finished :
      (entries : ℕ → Pte) (k : Kernel)
      → OnTable k p table w u entries
      → lay.data_pg1 ≤ k.hardware.num_pages
      → lay.text_pg1 ≤ k.hardware.num_pages
      → Returns
          (λ rc k'. (rc ≡ pos 0) × FinishedFrom k li lay args p table w u entries k')
          (finish_program li lay args p k)
  unfolding finish_program
  finish_program-Finished entries k o fits fits' =
      let n = lay.data_pg1 - lay.text_pg1 in
      let start : finish_program li lay args p k
          ≡ bind_res (protect_text table lay.text_pg1 n k) (λ _. finish_memory li lay args p) =
        rw o.block (rw o.own_table refl) in
      rw start (
        Returns-bind (λ _. Protected k table lay.text_pg1 n entries) _
          (protect_text table lay.text_pg1 n k) _
          (protect_text-Protected table n lay.text_pg1 entries k o.entries_at (omega arith))
          λ _ k1 s.
            let (tables, after, k_eq, at, pages) = s in
            let (mem, done) =
              finish_memory_lem (with_tables k tables) o.block o.context o.register in
            rw (k_eq, done)
              (
                refl,
                record {
                  block = rw (==_refl p) refl;
                  others = λ q apart. rw apart refl;
                  after = after;
                  after_at = at;
                  pages = pages;
                  register = o.register;
                  free_kept = refl;
                  bytes = mem;
                  stack = rw (==_refl table) refl;
                },
              ))
