-- ===== src/Vm/Fork/Copies.antt =====
-- The memory of a new process is a copy of its parent's, in frames of its own.
use cs58_yalnix.Base.{
  ℕ, zero, suc, ◌+◌, ◌-◌, ◌*◌, ◌≤◌, ◌<◌, ◌≡◌, refl, sym, subst, ap, ◌∙◌, ◌⊎◌, inl, inr, Bool, true,
  false, some, List, [], ◌∷◌, ◌++◌, if◌then◌else◌, ltb, ◌==◌, ==_refl, arith, Bool-cases,
}
use mathlib.Core.List.{Perm}
use mathlib.Core.List.Perm
use cs58_yalnix.Base.Int.{pos, ◌-ℤ◌}
use cs58_yalnix.Kernel.{Hardware, Kernel, Pte, ok, update}
use cs58_yalnix.Kernel.Ensures.{Returns, Returns-weaken}
use cs58_yalnix.Vm.{put_region_0, down_to_page}
use cs58_yalnix.Vm.UserMemory.Frames.{frames_of, entry_at_lem, put_entry_lem, pop_none, pop_some}
use cs58_yalnix.Vm.Fork.{copy_bytes, clear_window, copy_page, copy_pages}

frames_of-none :
    (entries : ℕ → Pte) (i n : ℕ)
    → ((j : ℕ) → i ≤ j → j < i + n → (entries j).valid ≡ false)
    → frames_of entries i n ≡ []
frames_of-none entries i zero h = refl
frames_of-none entries i (suc n) h = rw (
  h i (omega arith) (omega arith),
  frames_of-none entries (i + 1) n (λ j low high. h j (omega arith) (omega arith)),
)

-- The child's page at `j` is the parent's: mapped if that is, with the same protection and bytes.
abbrev pub SamePage : Hardware → (parent child : ℕ → Pte) → (from to : ℕ → ℕ) → ℕ → Type 0
SamePage hw parent child from to j =
    ((child j).valid ≡ (parent j).valid)
    × ((parent j).valid ≡ true
        → ((child j).prot ≡ (parent j).prot)
          × ((a : ℕ) → down_to_page hw a ≡ hw.num_pages + j → to a ≡ from a))

-- What the loop of `ForkHandler` over `n` pages from `i` on leaves, from a child's page table.
pub record Copied (hw : Hardware) (parent : ℕ → Pte) (from : ℕ → ℕ) (cur new src i n : ℕ)
    (start : ℕ → Pte) (bytes : ℕ → ℕ) (free : List ℕ) (done : Bool) (k' : Kernel) : Type 0 where
  pub child : ℕ → Pte
  pub found : k'.page_tables new ≡ some child
  pub parent_kept : k'.page_tables cur ≡ some parent
  pub bytes_kept : k'.user_mem src ≡ from
  pub earlier : (j : ℕ) → j < i → child j ≡ start j
  pub earlier_bytes : (a : ℕ) → down_to_page hw a < hw.num_pages + i → k'.user_mem new a ≡ bytes a
  pub same :
      done ≡ true → (j : ℕ) → i ≤ j → j < i + n → SamePage hw parent child from (k'.user_mem new) j
  pub conserved : Perm (frames_of child i n ++ k'.free_frame_queue.items) free
  pub exhausted : done ≡ false → k'.free_frame_queue.items ≡ []

module _ (hw : Hardware) (parent : ℕ → Pte) (from : ℕ → ℕ) (cur new src : ℕ)
    (tables_apart : (new == cur) ≡ false) (bytes_apart : (new == src) ≡ false) where
  -- The kernel before the round at `i`.
  pub record Ready (i n : ℕ) (k : Kernel) (start : ℕ → Pte) : Type 0 where
    pub machine : k.hardware ≡ hw
    pub maps : k.page_tables cur ≡ some parent
    pub table : k.page_tables new ≡ some start
    pub source : k.ptbr1 ≡ some src
    pub bytes : k.user_mem src ≡ from
    pub unmapped : (j : ℕ) → i ≤ j → j < i + n → (start j).valid ≡ false
    pub fits : i + n ≤ hw.num_pages

  abbrev Leaves : (i n : ℕ) → Kernel → (ℕ → Pte) → Bool → Kernel → Type 0
  Leaves i n k start =
      Copied hw parent from cur new src i n start (k.user_mem new) k.free_frame_queue.items

  abbrev child_entry : ℕ → ℕ → Pte
  child_entry i f = record { valid = true; prot = (parent i).prot; pfn = f }

  abbrev with_copy : Kernel → (ℕ → Pte) → ℕ → ℕ → List ℕ → Kernel
  with_copy k start i f fs = record k {
    free_frame_queue = record k.free_frame_queue {
      items = fs;
      count = k.free_frame_queue.count -ℤ pos 1;
    };
    page_tables = update k.page_tables new (some (update start i (child_entry i f)));
    user_mem = update k.user_mem new (λ a.
        if down_to_page k.hardware a == k.hardware.num_pages + i
        then k.user_mem src a
        else k.user_mem new a);
    region_0_pages =
        update k.region_0_pages (k.hardware.num_pages - 2 * k.hardware.num_kstack_frames + 0)
          (record { valid = false; prot = 0; pfn = 0 });
  }

  copy_page_lem :
      (k : Kernel) (start : ℕ → Pte) (i f : ℕ) (fs : List ℕ)
      → k.page_tables new ≡ some start
      → k.ptbr1 ≡ some src
      → copy_page new i (parent i) (some f) (record k {
        free_frame_queue = record k.free_frame_queue {
          items = fs;
          count = k.free_frame_queue.count -ℤ pos 1;
        };
      })
        ≡ ok true (with_copy k start i f fs)
  unfolding copy_page copy_bytes clear_window put_region_0
  copy_page_lem k start i f fs table source =
      rw
        (put_entry_lem
          (record k {
            free_frame_queue = record k.free_frame_queue {
              items = fs;
              count = k.free_frame_queue.count -ℤ pos 1;
            };
          })
          new start table i (child_entry i f))
        (rw source refl)

  Ready-copied :
      {i n : ℕ} {k : Kernel} {start : ℕ → Pte} (f : ℕ) (fs : List ℕ)
      → Ready i (suc n) k start
      → Ready (i + 1) n (with_copy k start i f fs) (update start i (child_entry i f))
  Ready-copied {i} {n} {k} {start} f fs r = record {
    machine = r.machine;
    maps = rw tables_apart (r.maps);
    table = rw (==_refl new) refl;
    source = r.source;
    bytes = rw bytes_apart (r.bytes);
    unmapped = λ j low high.
        let apart : (i == j) ≡ false = ground arith in
        rw apart (r.unmapped j (omega arith) (omega arith));
    fits = let h = r.fits in omega arith;
  }

  Ready-skipped :
      {i n : ℕ} {k : Kernel} {start : ℕ → Pte} → Ready i (suc n) k start → Ready (i + 1) n k start
  Ready-skipped r = record {
    machine = r.machine;
    maps = r.maps;
    table = r.table;
    source = r.source;
    bytes = r.bytes;
    unmapped = λ j low high. r.unmapped j (omega arith) (omega arith);
    fits = let h = r.fits in omega arith;
  }

  Leaves-copied :
      {i n f : ℕ} {fs : List ℕ} {k k' : Kernel} {start : ℕ → Pte} {done : Bool}
      → Ready i (suc n) k start
      → (parent i).valid ≡ true
      → k.free_frame_queue.items ≡ f ∷ fs
      → Leaves (i + 1) n (with_copy k start i f fs) (update start i (child_entry i f)) done k'
      → Leaves i (suc n) k start done k'
  Leaves-copied {i} {n} {f} {fs} {k} {k'} {start} {done} r valid line c =
      let here : c.child i ≡ child_entry i f = c.earlier i (omega arith) ∙ rw (==_refl i) refl in
      record {
        child = c.child;
        found = c.found;
        parent_kept = c.parent_kept;
        bytes_kept = c.bytes_kept;
        earlier = λ j low.
            let apart : (i == j) ≡ false = ground arith in
            c.earlier j (omega arith) ∙ rw apart refl;
        earlier_bytes = λ a low.
            let other : (down_to_page k.hardware a == k.hardware.num_pages + i) ≡ false =
              rw (r.machine) (ground arith) in
            c.earlier_bytes a (omega arith) ∙ rw (==_refl new, other) refl;
        same = λ d j low high. elim (Bool-cases (i == j)) [
          | inr later ↦ c.same d j (ground arith) (omega arith)
          | inl now ↦
              let e : i ≡ j = ground arith in
              subst (SamePage hw parent c.child from (k'.user_mem new)) e (
                ap (λ x. x.valid) here ∙ sym valid,
                λ mapped. (
                  ap (λ x. x.prot) here,
                  λ a page.
                      let same_page : (down_to_page k.hardware a == k.hardware.num_pages + i)
                          ≡ true =
                        rw (r.machine) (ground arith) in
                      c.earlier_bytes a (omega arith)
                      ∙ rw (==_refl new, same_page) refl
                      ∙ ap (λ m. m a) r.bytes,
                ),
              )
        ];
        conserved = rw (here, line) (Perm.cons f c.conserved);
        exhausted = c.exhausted;
      }

  Leaves-skipped :
      {i n : ℕ} {k k' : Kernel} {start : ℕ → Pte} {done : Bool}
      → Ready i (suc n) k start
      → (parent i).valid ≡ false
      → Leaves (i + 1) n k start done k'
      → Leaves i (suc n) k start done k'
  Leaves-skipped {i} {n} {k} {k'} {start} {done} r invalid c =
      let here : (c.child i).valid ≡ false =
        ap (λ x. x.valid) (c.earlier i (omega arith)) ∙ r.unmapped i (omega arith) (omega arith) in
      record {
        child = c.child;
        found = c.found;
        parent_kept = c.parent_kept;
        bytes_kept = c.bytes_kept;
        earlier = λ j low. c.earlier j (omega arith);
        earlier_bytes = λ a low. c.earlier_bytes a (omega arith);
        same = λ d j low high. elim (Bool-cases (i == j)) [
          | inr later ↦ c.same d j (ground arith) (omega arith)
          | inl now ↦
              let e : i ≡ j = ground arith in
              subst (SamePage hw parent c.child from (k'.user_mem new)) e
                (here ∙ sym invalid, λ mapped. absurd (let m = mapped in cc))
        ];
        conserved = rw here (c.conserved);
        exhausted = c.exhausted;
      }

  Leaves-stopped :
      {i n : ℕ} {k : Kernel} {start : ℕ → Pte} {done : Bool}
      → Ready i n k start
      → done ≡ false ⊎ n ≡ 0
      → (done ≡ false → k.free_frame_queue.items ≡ [])
      → Leaves i n k start done k
  Leaves-stopped {i} {n} {k} {start} {done} r why empty = record {
    child = start;
    found = r.table;
    parent_kept = r.maps;
    bytes_kept = r.bytes;
    earlier = λ j low. refl;
    earlier_bytes = λ a low. refl;
    same = λ d j low high. absurd (elim why [
      | inl stopped ↦ let s = stopped in let d' = d in cc
      | inr none_left ↦ omega arith
    ]);
    conserved = rw (frames_of-none start i n r.unmapped) (Perm.refl k.free_frame_queue.items);
    exhausted = empty;
  }

  module _ (i n : ℕ) (k : Kernel) (start : ℕ → Pte) (r : Ready i (suc n) k start)
      (exists : ltb i k.hardware.num_pages ≡ true) (valid : (parent i).valid ≡ true) where
    take_frame :
        (items : List ℕ)
        → k.free_frame_queue.items ≡ items
        → ((f : ℕ) (fs : List ℕ)
            → Returns
                (Leaves (i + 1) n (with_copy k start i f fs) (update start i (child_entry i f)))
                (copy_pages cur new (i + 1) n (with_copy k start i f fs)))
        → Returns (Leaves i (suc n) k start) (copy_pages cur new i (suc n) k)
    unfolding copy_pages copy_page
    take_frame [] line later =
        rw (entry_at_lem k cur parent r.maps i exists, valid, pop_none k line)
          (Leaves-stopped r (inl refl) (λ d. line))
    take_frame (f ∷ fs) line later =
        rw (entry_at_lem k cur parent r.maps i exists, valid, pop_some k f fs line)
          (rw (copy_page_lem k start i f fs r.table r.source) (
            Returns-weaken _ (Leaves i (suc n) k start)
              (copy_pages cur new (i + 1) n (with_copy k start i f fs)) (later f fs)
              λ done k' c. Leaves-copied r valid line c))

  -- The loop of `ForkHandler` over pages that the child does not map yet, where the parent's and the
  -- child's page tables and memory are apart, returns. Where it goes through, each of these pages of
  -- the child is mapped exactly if the parent's is, with the same protection and the same bytes. In
  -- any case the parent's page table and memory are as they were, the frames that the child got and
  -- those left on the free frame queue are together the frames that were free, each as often, and the
  -- loop gives up only when no free frame is left.
  pub copy_pages-Copied :
      (n i : ℕ) (k : Kernel) (start : ℕ → Pte)
      → Ready i n k start
      → Returns (Leaves i n k start) (copy_pages cur new i n k)
  unfolding copy_pages
  copy_pages-Copied zero i k start r = Leaves-stopped r (inr refl) (λ d. absurd (let d' = d in cc))
  copy_pages-Copied (suc n) i k start r =
      let exists : ltb i k.hardware.num_pages ≡ true =
        rw (r.machine) (let h = r.fits in ground arith) in
      elim (Bool-cases (parent i).valid) [
        | inl valid ↦ take_frame i n k start r exists valid k.free_frame_queue.items refl λ f fs.
            copy_pages-Copied n (i + 1) (with_copy k start i f fs)
              (update start i (child_entry i f)) (Ready-copied f fs r)
        | inr invalid ↦
            rw (entry_at_lem k cur parent r.maps i exists, invalid)
              (Returns-weaken _ (Leaves i (suc n) k start) (copy_pages cur new (i + 1) n k)
                (copy_pages-Copied n (i + 1) k start (Ready-skipped r))
                λ done k' c. Leaves-skipped r invalid c)
      ]
