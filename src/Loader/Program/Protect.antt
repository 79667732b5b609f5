-- ===== src/Loader/Program/Protect.antt =====
-- The text of a program is protected once it is read.
use cs58_yalnix.Base.{
  ℕ, zero, suc, ◌≡◌, ◌≤◌, refl, ◌∙◌, ◌+◌, ◌-◌, true, false, ◌&&◌, Option, some, if◌then◌else◌, ltb,
  leb, ◌==◌, ==_refl, arith, Bool-cases, inl, inr, Bool,
}
use cs58_yalnix.Kernel.{Hardware, Kernel, Pte, update}
use cs58_yalnix.Kernel.Ensures.{Returns, Returns-weaken}
use cs58_yalnix.Vm.UserMemory.Frames.{entry_at_lem, put_entry_lem}
use cs58_yalnix.Loader.{Layout}
use cs58_yalnix.Loader.Memory.{protect_text}
use cs58_yalnix.Loader.Pages.{IsEntry}

-- The kernel with other page tables.
abbrev pub with_tables : Kernel → (ℕ → Option (ℕ → Pte)) → Kernel
with_tables k tables = record k { page_tables = tables }

-- A page of the text can be executed and not written.
abbrev pub protected : Hardware → (i n : ℕ) → (ℕ → Pte) → ℕ → Pte
protected hw i n entries j =
    if (leb i j && ltb j (i + n)) && (entries j).valid
    then record (entries j) { prot = hw.prot_read_exec }
    else entries j

-- The entry of a mapped page of the text.
abbrev executable : Hardware → Pte → Pte
executable hw e = record { valid = true; prot = hw.prot_read_exec; pfn = e.pfn }

protected_skip :
    (hw : Hardware) (i n : ℕ) (entries : ℕ → Pte) (j : ℕ)
    → (entries i).valid ≡ false
    → protected hw (i + 1) n entries j ≡ protected hw i (suc n) entries j
protected_skip hw i n entries j invalid = elim (Bool-cases (i == j)) [
  | inl here ↦
      let e : i ≡ j = ground arith in
      let off : (entries j).valid ≡ false = rw e at invalid in rw off (ground arith)
  | inr apart ↦
      let e : leb (i + 1) j ≡ leb i j = ground arith in
      let e' : ltb j (i + 1 + n) ≡ ltb j (i + suc n) = ground arith in rw (e, e') refl
]

protected_put :
    (hw : Hardware) (i n : ℕ) (entries : ℕ → Pte) (j : ℕ)
    → (entries i).valid ≡ true
    → protected hw (i + 1) n (update entries i (executable hw (entries i))) j
      ≡ protected hw i (suc n) entries j
protected_put hw i n entries j valid = elim (Bool-cases (i == j)) [
  | inl here ↦
      let e : i ≡ j = ground arith in
      let on : (entries j).valid ≡ true = rw e at valid in
      let out : leb (i + 1) j ≡ false = ground arith in
      let first : (leb i j && ltb j (i + suc n)) ≡ true = ground arith in
      rw (here, out, first, on, e) refl
  | inr apart ↦
      let e : leb (i + 1) j ≡ leb i j = ground arith in
      let e' : ltb j (i + 1 + n) ≡ ltb j (i + suc n) = ground arith in rw (apart, e, e') refl
]

abbrev pub Protected : Kernel → (table i n : ℕ) → (ℕ → Pte) → Kernel → Type 0
Protected k table i n entries k' =
    (tables : ℕ → Option (ℕ → Pte)) × (after : ℕ → Pte) × (k' ≡ with_tables k tables)
    × (tables table ≡ some after)
    × ((j : ℕ) → after j ≡ protected k.hardware i n entries j)

pub protect_text-Protected :
    (table n i : ℕ) (entries : ℕ → Pte) (k : Kernel)
    → k.page_tables table ≡ some entries
    → i + n ≤ k.hardware.num_pages
    → Returns (λ _. Protected k table i n entries) (protect_text table i n k)
unfolding protect_text
protect_text-Protected table zero i entries k e inside =
    (k.page_tables, entries, refl, e, λ j. ground arith)
protect_text-Protected table (suc n) i entries k e inside =
    let exists : ltb i k.hardware.num_pages ≡ true = ground arith in
    elim (Bool-cases (entries i).valid) [
      | inr invalid ↦
          rw (entry_at_lem k table entries e i exists, invalid)
            (Returns-weaken _ _ (protect_text table (i + 1) n k)
              (protect_text-Protected table n (i + 1) entries k e (omega arith))
              λ _ k' s.
                let (tables, after, k_eq, at, pages) = s in
                (
                  tables,
                  after,
                  k_eq,
                  at,
                  λ j. pages j ∙ protected_skip k.hardware i n entries j invalid,
                ))
      | inl valid ↦
          let x = executable k.hardware (entries i) in
          let k1 = with_tables k (update k.page_tables table (some (update entries i x))) in
          rw (entry_at_lem k table entries e i exists, valid)
            (rw (put_entry_lem k table entries e i x) (
              Returns-weaken _ _ (protect_text table (i + 1) n k1)
                (protect_text-Protected table n (i + 1) (update entries i x) k1
                  (rw (==_refl table) refl) (omega arith))
                λ _ k' s.
                  let (tables, after, k_eq, at, pages) = s in
                  (
                    tables,
                    after,
                    k_eq,
                    at,
                    λ j. pages j ∙ protected_put k.hardware i n entries j valid,
                  )))
    ]

-- The protection of a page that is in use.
abbrev pub protection : Hardware → Layout → ℕ → ℕ
protection hw lay j =
    if leb lay.text_pg1 j && ltb j lay.data_pg1 then hw.prot_read_exec else hw.prot_read_write

guarded-IsEntry :
    (hw : Hardware) (lay : Layout) (j : ℕ) (frames : Option (ℕ × ℕ × ℕ)) (b : Bool) (e : Pte)
    → IsEntry hw lay j hw.prot_read_write frames e
    → IsEntry hw lay j
        (if b then hw.prot_read_exec else hw.prot_read_write)
        frames
        (if b && e.valid then record e { prot = hw.prot_read_exec } else e)
guarded-IsEntry hw lay j frames false e h = h
guarded-IsEntry hw lay j frames true e h = elim (Bool-cases e.valid) [
  | inl on ↦
      let x : Pte = record e { prot = hw.prot_read_exec } in
      let made : (if e.valid then x else e) ≡ x = ground arith in
      rw made (record { valid = h.valid; prot = λ v. refl; frame = λ v. h.frame v })
  | inr off ↦
      let x : Pte = record e { prot = hw.prot_read_exec } in
      let kept : (if e.valid then x else e) ≡ e = ground arith in
      rw kept (record { valid = h.valid; prot = λ v. absurd (let v' = v in cc); frame = h.frame })
]

pub protected-IsEntry :
    (hw : Hardware) (lay : Layout) (j : ℕ) (frames : Option (ℕ × ℕ × ℕ)) (entries : ℕ → Pte)
    → lay.text_pg1 ≤ lay.data_pg1
    → IsEntry hw lay j hw.prot_read_write frames (entries j)
    → IsEntry hw lay j
        (protection hw lay j)
        frames
        (protected hw lay.text_pg1 (lay.data_pg1 - lay.text_pg1) entries j)
protected-IsEntry hw lay j frames entries first e =
    let bound : lay.text_pg1 + (lay.data_pg1 - lay.text_pg1) ≡ lay.data_pg1 = omega arith in
    rw bound
      (guarded-IsEntry hw lay j frames (leb lay.text_pg1 j && ltb j lay.data_pg1) (entries j) e)
