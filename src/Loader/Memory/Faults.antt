-- ===== src/Loader/Memory/Faults.antt =====
-- What `free_page_frame` does to the first page of region 1.
use cs58_yalnix.Base.{
  ℕ, zero, suc, ◌≡◌, ◌<◌, refl, ◌∙◌, ◌+◌, ◌*◌, ◌/◌, ◌^◌, true, false, some, ltb, leb, ==_refl, ap,
  Bool-cases, inl, inr, arith,
}
use native.Mathlib.Nat.{mul-div_cancel}
use cs58_yalnix.Kernel.{Kernel, Pte, fault}
use cs58_yalnix.Kernel.Memory.{check_memory_validity}
use cs58_yalnix.Loader.{base_1}
use cs58_yalnix.Loader.Memory.{free_page_frame, free_old_pages}
use cs58_yalnix.Vm.UserMemory.Frames.{entry_at_lem}

free_page_frame-fault :
    (k : Kernel) → 0 < k.hardware.page_size → 0 < k.hardware.num_pages → free_page_frame 0 k ≡ fault
unfolding free_page_frame check_memory_validity
free_page_frame-fault k positive pages =
    let n = k.hardware.num_pages in
    let addr = base_1 k.hardware + 0 * k.hardware.page_size in
    let start : addr ≡ n * k.hardware.page_size = omega arith in
    let page : addr / k.hardware.page_size ≡ n =
      ap (λ a. a / k.hardware.page_size) start ∙ mul-div_cancel n positive in
    let e : ltb (n * 2) n ≡ false = ground arith in
    let e' : ltb n n ≡ false = ground arith in
    elim (Bool-cases (leb (2 ^ 31) addr)) [
      | inl high ↦ rw high refl
      | inr low ↦ rw (low, page, e, e', ==_refl n) refl
    ]

pub free_old_pages-fault :
    (k : Kernel) (table : ℕ) (entries : ℕ → Pte) (n : ℕ)
    → 0 < k.hardware.page_size
    → 0 < k.hardware.num_pages
    → k.page_tables table ≡ some entries
    → (entries 0).valid ≡ true
    → 0 < n
    → free_old_pages table 0 n k ≡ fault
unfolding free_old_pages
free_old_pages-fault k table entries zero positive pages e valid some_pages = absurd (omega arith)
free_old_pages-fault k table entries (suc n) positive pages e valid some_pages =
    let exists : ltb 0 k.hardware.num_pages ≡ true = ground arith in
    rw (entry_at_lem k table entries e 0 exists)
      (rw valid (rw (free_page_frame-fault k positive pages) refl))
