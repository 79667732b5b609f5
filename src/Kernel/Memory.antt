-- ===== src/Kernel/Memory.antt =====
-- The address checks of src/kernel.c. An address is the bit pattern of a `void*`.
pub mod Reads
use cs58_yalnix.Base.{
  ℕ, Bool, true, Option, none, some, if◌then◌else◌, ◌-◌, ◌*◌, ◌/◌, ◌^◌, ltb, leb, ◌==◌,
}
use cs58_yalnix.Kernel.{Hardware, M, pure, crash, gets, deref, ◌>>=◌, ok}

-- `get_raw_page_no`.
unfoldable pub get_raw_page_no : Hardware → ℕ → ℕ
get_raw_page_no hw addr = addr / hw.page_size

-- `&` of a pointer that may be NULL.
abbrev pub address : Option ℕ → ℕ
address none = 0
address (some p) = p

region_1_validity : ℕ → M Bool
region_1_validity page = do
  table ← gets (λ k. k.ptbr1)
  at ← deref table
  pages ← gets (λ k. k.page_tables at)
  entries ← deref pages
  pure (entries page).valid

-- `check_memory_validity`, as the truth of its result. An address with the top bit set is a
-- negative `int`, and it and the two pages next past a table index an array out of bounds. Past
-- both regions the code returns -1, which is true.
unfoldable pub check_memory_validity : ℕ → M Bool
unfolding region_1_validity
check_memory_validity addr k =
    let page = addr / k.hardware.page_size in
    let n = k.hardware.num_pages in
    if leb (2 ^ 31) addr
    then crash k
    else if ltb (n * 2) page
    then ok true k
    else if ltb n page
    then (if page == n * 2 then crash k else region_1_validity (page - n) k)
    else if page == n
    then crash k
    else ok (k.region_0_pages page).valid k
