-- ===== src/Vm/UserMemory/Frames.antt =====
-- No frame is lost or handed out twice while the memory of a process grows.
use cs58_yalnix.Base.{
  ℕ, zero, suc, ◌+◌, ◌≤◌, ◌<◌, ◌≡◌, refl, sym, subst, ap, ◌∙◌, inl, inr, Bool, true, false, none,
  some, List, [], ◌∷◌, ◌++◌, All, if◌then◌else◌, ltb, ◌==◌, ==_refl, arith, Bool-cases,
}
use mathlib.Core.List.{Perm, perm_middle}
use mathlib.Core.List.Perm
use cs58_yalnix.Kernel.{Hardware, Kernel, Pte, ok, update}
use cs58_yalnix.Kernel.Ensures.{Returns, Returns-weaken}
use cs58_yalnix.Queue
use cs58_yalnix.Base.Int.{pos, ◌-ℤ◌}
use cs58_yalnix.Vm.{pop_free_frame}
use cs58_yalnix.Vm.UserMemory.{entry_at, put_entry, map_entry, allocate_pages}

-- The frames behind the mapped pages among `n` pages from `i` on.
abbrev pub frames_of : (ℕ → Pte) → (i n : ℕ) → List ℕ
frames_of entries i zero = []
frames_of entries i (suc n) =
    if (entries i).valid
    then (entries i).pfn ∷ frames_of entries (i + 1) n
    else frames_of entries (i + 1) n

pub frames_of-outside :
    (entries : ℕ → Pte) (e : Pte) (i n j : ℕ)
    → j < i
    → frames_of (update entries j e) i n ≡ frames_of entries i n
frames_of-outside entries e i zero j below = refl
frames_of-outside entries e i (suc n) j below =
    let apart : (j == i) ≡ false = ground arith in
    rw (apart, frames_of-outside entries e (i + 1) n j (omega arith))

frames_of-mapped :
    (entries : ℕ → Pte) (e : Pte) (i n j : ℕ)
    → i ≤ j
    → j < i + n
    → (entries j).valid ≡ false
    → e.valid ≡ true
    → Perm (frames_of (update entries j e) i n) (e.pfn ∷ frames_of entries i n)
frames_of-mapped entries e i zero j low high old new = absurd (omega arith)
frames_of-mapped entries e i (suc n) j low high old new = elim (Bool-cases (j == i)) [
  | inl here ↦
      let same : j ≡ i = ground arith in
      let old' : (entries i).valid ≡ false = rw (← same) old in
      rw (here, new, old')
        (rw (frames_of-outside entries e (i + 1) n j (omega arith)) (Perm.refl _))
  | inr later ↦
      let ih = frames_of-mapped entries e (i + 1) n j (ground arith) (omega arith) old new in
      rw later (elim (Bool-cases (entries i).valid) [
        | inl mapped ↦ rw mapped (Perm.trans (Perm.cons (entries i).pfn ih) (Perm.swap _ _ _))
        | inr free ↦ rw free ih
      ])
]

-- What a loop over these pages leaves of a page table and of the free frame queue.
pub record Grown (before : ℕ → Pte) (free : List ℕ) (n : ℕ) (pages : List ℕ) (after : ℕ → Pte)
    (left : List ℕ) (done : Bool) : Type 0 where
  pub conserved : Perm (frames_of after 0 n ++ left) (frames_of before 0 n ++ free)
  pub kept : (j : ℕ) → (before j).valid ≡ true → after j ≡ before j
  pub mapped : done ≡ true → All (λ i. (after i).valid ≡ true) pages
  pub exhausted : done ≡ false → left ≡ []

abbrev rw_entry : Hardware → ℕ → Pte
rw_entry hw f = record { valid = true; prot = hw.prot_read_write; pfn = f }

-- A page that was mapped, and one that gets the first free frame.
Grown-mapped :
    {before after : ℕ → Pte} {free left : List ℕ} {n i : ℕ} {pages : List ℕ} {done : Bool}
    → (before i).valid ≡ true
    → Grown before free n pages after left done
    → Grown before free n (i ∷ pages) after left done
Grown-mapped {i} valid g = record {
  conserved = g.conserved;
  kept = g.kept;
  mapped = λ d. (ap (λ e. e.valid) (g.kept i valid) ∙ valid, g.mapped d);
  exhausted = g.exhausted;
}

Grown-new :
    (hw : Hardware) {before after : ℕ → Pte} {free left : List ℕ} {n i f : ℕ} {pages : List ℕ}
    {done : Bool}
    → (before i).valid ≡ false
    → i < n
    → Grown (update before i (rw_entry hw f)) free n pages after left done
    → Grown before (f ∷ free) n (i ∷ pages) after left done
Grown-new hw {before} {after} {free} {left} {n} {i} {f} invalid inside g = record {
  conserved = Perm.trans g.conserved (
      Perm.trans
        (Perm.append_right free
          (frames_of-mapped before (rw_entry hw f) 0 n i (omega arith) (omega arith) invalid refl))
        (Perm.symm (perm_middle {a = f} (frames_of before 0 n) free)));
  kept = λ j valid.
      let apart : (i == j) ≡ false = other j valid in
      let same : update before i (rw_entry hw f) j ≡ before j = rw apart refl in
      g.kept j (ap (λ e. e.valid) same ∙ valid) ∙ same;
  mapped = λ d.
      let here : update before i (rw_entry hw f) i ≡ rw_entry hw f = rw (==_refl i) refl in
      (ap (λ e. e.valid) (g.kept i (ap (λ e. e.valid) here)) ∙ ap (λ e. e.valid) here, g.mapped d);
  exhausted = g.exhausted;
}
  where
    other : (j : ℕ) → (before j).valid ≡ true → (i == j) ≡ false
    other j valid = elim (Bool-cases (i == j)) [
      | inl same ↦ absurd (
          let e : i ≡ j = ground arith in
          let v = subst (λ x. (before x).valid ≡ true) (sym e) valid in cc)
      | inr apart ↦ apart
    ]

module _ (k : Kernel) (table : ℕ) (before : ℕ → Pte) (e : k.page_tables table ≡ some before) where
  pub entry_at_lem :
      (i : ℕ) → ltb i k.hardware.num_pages ≡ true → entry_at table i k ≡ ok (before i) k
  unfolding entry_at
  entry_at_lem i inside = rw (e, inside)

  pub put_entry_lem :
      (i : ℕ) (x : Pte)
      → put_entry table i x k
        ≡ ok tt (record k { page_tables = update k.page_tables table (some (update before i x)) })
  unfolding put_entry
  put_entry_lem i x = rw e

abbrev pub After : Kernel → ℕ → (ℕ → Pte) → List ℕ → Bool → Kernel → Type 0
After k table before pages done k' =
    (after : ℕ → Pte) × (k'.page_tables table ≡ some after)
    × Grown before k.free_frame_queue.items k.hardware.num_pages pages after
        k'.free_frame_queue.items done
    × (k'.pcbs ≡ k.pcbs)
    × (k'.hardware ≡ k.hardware)

pub pop_none : (k : Kernel) → k.free_frame_queue.items ≡ [] → pop_free_frame k ≡ ok none k
unfolding pop_free_frame Queue.pop
pop_none k line = rw line

pub pop_some :
    (k : Kernel) (f : ℕ) (fs : List ℕ)
    → k.free_frame_queue.items ≡ f ∷ fs
    → pop_free_frame k
      ≡ ok (some f) (record k {
        free_frame_queue = record k.free_frame_queue {
          items = fs;
          count = k.free_frame_queue.count -ℤ pos 1;
        };
      })
unfolding pop_free_frame Queue.pop
pop_some k f fs line = rw line

abbrev popped : Kernel → List ℕ → Kernel
popped k fs = record k {
  free_frame_queue = record k.free_frame_queue {
    items = fs;
    count = k.free_frame_queue.count -ℤ pos 1;
  };
}

-- The kernel once the page at `i` has the first free frame.
abbrev with_page : Kernel → ℕ → (ℕ → Pte) → ℕ → ℕ → List ℕ → Kernel
with_page k table before i f fs = record k {
  free_frame_queue = record k.free_frame_queue {
    items = fs;
    count = k.free_frame_queue.count -ℤ pos 1;
  };
  page_tables = update k.page_tables table (some (update before i (rw_entry k.hardware f)));
}

module _ (table i : ℕ) (pages : List ℕ) (k : Kernel) (before : ℕ → Pte)
    (e : k.page_tables table ≡ some before) (inside : i < k.hardware.num_pages)
    (invalid : (before i).valid ≡ false) where
  take_frame :
      (items : List ℕ)
      → k.free_frame_queue.items ≡ items
      → ((f : ℕ) (fs : List ℕ)
          → Returns
              (After
                (with_page k table before i f fs)
                table
                (update before i (rw_entry k.hardware f))
                pages)
              (allocate_pages table pages (with_page k table before i f fs)))
      → Returns (After k table before (i ∷ pages)) (allocate_pages table (i ∷ pages) k)
  unfolding allocate_pages map_entry
  take_frame [] line later =
      let exists : ltb i k.hardware.num_pages ≡ true = ground arith in
      rw (entry_at_lem k table before e i exists, invalid, pop_none k line)
        (
          before,
          e,
          record {
            conserved = Perm.refl _;
            kept = λ j valid. refl;
            mapped = λ d. absurd (let d' = d in cc);
            exhausted = λ d. line;
          },
          refl,
          refl,
        )
  take_frame (f ∷ fs) line later =
      let exists : ltb i k.hardware.num_pages ≡ true = ground arith in
      rw (entry_at_lem k table before e i exists, invalid, pop_some k f fs line)
        (rw (put_entry_lem (popped k fs) table before e i (rw_entry k.hardware f)) (
          Returns-weaken _ (After k table before (i ∷ pages))
            (allocate_pages table pages (with_page k table before i f fs)) (later f fs)
            λ done k' c.
              let (after, found, g, blocks, hw) = c in
              (after, found, rw line (Grown-new k.hardware invalid inside g), blocks, hw)))

pub allocate_pages-After :
    (pages : List ℕ) (k : Kernel) (table : ℕ) (before : ℕ → Pte)
    → k.page_tables table ≡ some before
    → All (λ i. i < k.hardware.num_pages) pages
    → Returns (After k table before pages) (allocate_pages table pages k)
unfolding allocate_pages
allocate_pages-After [] k table before e inside = (
  before,
  e,
  record {
    conserved = Perm.refl _;
    kept = λ j valid. refl;
    mapped = λ d. tt;
    exhausted = λ d. absurd (let d' = d in cc);
  },
  refl,
  refl,
)
allocate_pages-After (i ∷ pages) k table before e inside = elim (Bool-cases (before i).valid) [
  | inl valid ↦
      let exists : ltb i k.hardware.num_pages ≡ true = ground arith in
      rw (entry_at_lem k table before e i exists, valid)
        (Returns-weaken _ (After k table before (i ∷ pages)) (allocate_pages table pages k)
          (allocate_pages-After pages k table before e (inside.1))
          λ done k' c.
            let (after, found, g, blocks, hw) = c in
            (after, found, Grown-mapped valid g, blocks, hw))
  | inr invalid ↦
      take_frame table i pages k before e (inside.0) invalid k.free_frame_queue.items refl λ f fs.
        allocate_pages-After pages (with_page k table before i f fs) table
          (update before i (rw_entry k.hardware f)) (rw (==_refl table) refl) (inside.1)
]
