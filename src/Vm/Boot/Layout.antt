-- ===== src/Vm/Boot/Layout.antt =====
-- The region 0 page table that the machine boots with.
use cs58_yalnix.Base.{
  ℕ, zero, suc, ◌+◌, ◌≤◌, ◌<◌, ◌≡◌, refl, sym, subst, ap, ==_refl, ◌∙◌, true, false, some, ◌&&◌,
  ◌||◌, if◌then◌else◌, ltb, leb, ◌==◌, arith, Bool-cases, inl, inr,
}
use cs58_yalnix.Kernel.{Hardware, Kernel, Pte, ok, update}
use cs58_yalnix.Kernel.Ensures.{Returns}
use cs58_yalnix.Vm.{region_0_at, put_region_0}
use cs58_yalnix.Vm.Boot.{
  region_of_page, entry_of, stack_base, init_region_0, init_region_1, init_page_tables,
}

module _ (hw : Hardware) (offset : ℕ) where
  abbrev entry : ℕ → Pte → Pte
  entry page old = entry_of hw (region_of_page hw offset page) page old

  abbrev pages_after : ℕ → ℕ → (ℕ → Pte) → ℕ → Pte
  pages_after page zero pages = pages
  pages_after page (suc n) pages =
      pages_after (page + 1) n (update pages page (entry page (pages page)))

  pages_after-outside :
      (page n : ℕ) (pages : ℕ → Pte) (j : ℕ)
      → (leb page j && ltb j (page + n)) ≡ false
      → pages_after page n pages j ≡ pages j
  pages_after-outside page zero pages j out = refl
  pages_after-outside page (suc n) pages j out =
      let further : (leb (page + 1) j && ltb j (page + 1 + n)) ≡ false = ground arith in
      let other : (page == j) ≡ false = ground arith in
      pages_after-outside (page + 1) n _ j further ∙ rw other refl

  pages_after-inside :
      (page n : ℕ) (pages : ℕ → Pte) (j : ℕ)
      → page ≤ j
      → j < page + n
      → pages_after page n pages j ≡ entry j (pages j)
  pages_after-inside page zero pages j low high = absurd (omega arith)
  pages_after-inside page (suc n) pages j low high = elim (Bool-cases (page == j)) [
    | inl here ↦
        let e : page ≡ j = ground arith in
        let out : (leb (page + 1) j && ltb j (page + 1 + n)) ≡ false = ground arith in
        pages_after-outside (page + 1) n _ j out ∙ rw here (ap (λ x. entry x (pages x)) e)
    | inr later ↦
        pages_after-inside (page + 1) n _ j (ground arith) (omega arith)
        ∙ ap (entry j) (rw later refl)
  ]

pub region_0_at_lem :
    (k : Kernel) (i : ℕ)
    → ltb i k.hardware.num_pages ≡ true
    → region_0_at i k ≡ ok (k.region_0_pages i) k
unfolding region_0_at
region_0_at_lem k i inside = rw inside

init_region_0_lem :
    (k : Kernel) (page n : ℕ)
    → page + n ≤ k.hardware.num_pages
    → init_region_0 page n k
      ≡ ok tt (record k {
        region_0_pages = pages_after k.hardware k.kernel_brk_offset page n k.region_0_pages;
      })
unfolding init_region_0 put_region_0
init_region_0_lem k page zero fits = refl
init_region_0_lem k page (suc n) fits =
    let inside : ltb page k.hardware.num_pages ≡ true = ground arith in
    rw (region_0_at_lem k page inside) (
      init_region_0_lem
        (record k {
          region_0_pages =
              update k.region_0_pages page
                (entry k.hardware k.kernel_brk_offset page (k.region_0_pages page));
        })
        (page + 1) n (omega arith))

abbrev cleared : (ℕ → Pte) → ℕ → ℕ → Pte
cleared entries page = update entries page (record (entries page) { valid = false; prot = 0 })

init_region_1-invalid :
    (page n : ℕ) (entries : ℕ → Pte) (j : ℕ)
    → (entries j).valid ≡ false
    → (init_region_1 page n entries j).valid ≡ false
unfolding init_region_1
init_region_1-invalid page zero entries j h = h
init_region_1-invalid page (suc n) entries j h =
    init_region_1-invalid (page + 1) n (cleared entries page) j (ground arith)

init_region_1-clears :
    (page n : ℕ) (entries : ℕ → Pte) (j : ℕ)
    → page ≤ j
    → j < page + n
    → (init_region_1 page n entries j).valid ≡ false
unfolding init_region_1
init_region_1-clears page zero entries j low high = absurd (omega arith)
init_region_1-clears page (suc n) entries j low high = elim (Bool-cases (page == j)) [
  | inl here ↦ init_region_1-invalid (page + 1) n (cleared entries page) j (ground arith)
  | inr later ↦
      init_region_1-clears (page + 1) n (cleared entries page) j (ground arith) (omega arith)
]

-- What a region 0 entry has to be: the pages of the kernel's text, data, heap and stack are mapped to
-- the frames of the same numbers, the text to be read and executed and the others to be read and
-- written, and no other page is mapped.
abbrev pub IsLaidOut : Hardware → (brk_offset : ℕ) → ℕ → Pte → Type 0
IsLaidOut hw offset page entry =
    (entry.valid ≡ (
      leb hw.first_kernel_text_page page && ltb page (hw.orig_kernel_brk_page + offset)
      || leb (stack_base hw) page))
    × (entry.valid ≡ true
        → (entry.pfn ≡ page)
          × (entry.prot ≡ (
              if leb hw.first_kernel_text_page page && ltb page hw.first_kernel_data_page
              then hw.prot_read_exec
              else hw.prot_read_write)))

pub entry-IsLaidOut :
    (hw : Hardware) (offset page : ℕ) (old : Pte)
    → hw.first_kernel_text_page ≤ hw.first_kernel_data_page
    → hw.first_kernel_data_page ≤ hw.orig_kernel_brk_page + offset
    → hw.first_kernel_text_page ≤ stack_base hw
    → hw.first_kernel_data_page ≤ stack_base hw
    → page < hw.num_pages
    → IsLaidOut hw offset page (entry hw offset page old)
entry-IsLaidOut hw offset page old text heap below below' inside = ground arith

module _ (k : Kernel) (region_1 : ℕ) (entries : ℕ → Pte)
    (text : k.hardware.first_kernel_text_page ≤ k.hardware.first_kernel_data_page)
    (heap : k.hardware.first_kernel_data_page
      ≤ k.hardware.orig_kernel_brk_page + k.kernel_brk_offset)
    (below : k.hardware.first_kernel_data_page ≤ stack_base k.hardware) where
  -- The whole of what `init_page_tables` changes.
  pub init_page_tables_lem :
      (pages table : ℕ → Pte) × (init_page_tables region_1 entries k
        ≡ ok tt (record k {
          region_0_pages = pages;
          page_tables = update k.page_tables region_1 (some table);
        }))
      × ((page : ℕ)
          → page < k.hardware.num_pages
          → IsLaidOut k.hardware k.kernel_brk_offset page (pages page))
      × ((page : ℕ) → page < k.hardware.num_pages → (table page).valid ≡ false)
  unfolding init_page_tables
  init_page_tables_lem = (
    pages_after k.hardware k.kernel_brk_offset 0 k.hardware.num_pages k.region_0_pages,
    init_region_1 0 k.hardware.num_pages entries,
    rw (init_region_0_lem k 0 k.hardware.num_pages (omega arith)) refl,
    λ page inside.
        subst (IsLaidOut k.hardware k.kernel_brk_offset page)
          (sym (
            pages_after-inside k.hardware k.kernel_brk_offset 0 k.hardware.num_pages
              k.region_0_pages page (omega arith) (omega arith)))
          (entry-IsLaidOut k.hardware k.kernel_brk_offset page (k.region_0_pages page) text heap
            (omega arith) below inside),
    λ page inside.
        init_region_1-clears 0 k.hardware.num_pages entries page (omega arith) (omega arith),
  )

  -- Where the kernel's text lies before its data, its data before its break, and both before its
  -- stack, `init_page_tables` returns, with every page of region 0 laid out as above and no page of
  -- region 1 mapped.
  pub init_page_tables-IsLaidOut :
      Returns
        (λ _ k'.
          ((page : ℕ)
            → page < k.hardware.num_pages
            → IsLaidOut k.hardware k.kernel_brk_offset page (k'.region_0_pages page))
          × ((table : ℕ → Pte) × (k'.page_tables region_1 ≡ some table)
              × ((page : ℕ) → page < k.hardware.num_pages → (table page).valid ≡ false)))
        (init_page_tables region_1 entries k)
  init_page_tables-IsLaidOut =
      let (pages, table, run, laid, unmapped) = init_page_tables_lem in
      rw run (laid, (table, rw (==_refl region_1) refl, unmapped))
