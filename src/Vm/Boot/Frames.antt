-- ===== src/Vm/Boot/Frames.antt =====
-- The free frames that the machine boots with.
use cs58_yalnix.Base.{
  ℕ, zero, suc, ◌+◌, ◌%◌, ◌^◌, ◌≤◌, ◌<◌, ◌≡◌, ◌≢◌, refl, sym, ap, ◌∙◌, true, List, [], ◌∷◌, ◌++◌,
  append-nil, append_assoc, All, All-mono, arith, Bool-cases, inl, inr,
}
use cs58_yalnix.Base.Alloc.{Mem, rest}
use cs58_yalnix.Kernel.{Hardware, Kernel, Pte, malloc, push_free_frame}
use cs58_yalnix.Kernel.Ensures.{Returns, Returns-weaken}
use cs58_yalnix.Queue
use cs58_yalnix.Queue.{Queue}
use cs58_yalnix.Base.Int.{pos, ◌+ℤ◌}
use cs58_yalnix.Vm.Boot.{is_free, free_frames, init_free_frame_queue}
use cs58_yalnix.Vm.Boot.Layout.{IsLaidOut}

-- A rising list of numbers from `low` to below `high`.
abbrev pub Rising : (low high : ℕ) → List ℕ → Type 0
Rising low high [] = Unit
Rising low high (f ∷ fs) = (low ≤ f) × (f < high) × Rising (f + 1) high fs

Rising-weaken :
    (low low' high : ℕ) (fs : List ℕ) → low' ≤ low → Rising low high fs → Rising low' high fs
Rising-weaken low low' high [] le r = tt
Rising-weaken low low' high (f ∷ fs) le r = (omega arith, r.1, r.2)

-- What a loop over `n` frames from `frame` on adds to the queue.
abbrev Added : Kernel → (frame n : ℕ) → Kernel → Type 0
Added k frame n k' =
    (fs : List ℕ) × (k'.free_frame_queue.items ≡ k.free_frame_queue.items ++ fs)
    × Rising frame (frame + n) fs
    × All (λ f. is_free k.hardware k.kernel_brk_offset f ≡ true) fs
    × (k'.region_0_pages ≡ k.region_0_pages)

abbrev longer : Kernel → ℕ → Queue ℕ
longer k frame = record {
  items = k.free_frame_queue.items ++ frame ∷ [];
  next_key = (k.free_frame_queue.next_key + 1) % 2 ^ 32;
  count = k.free_frame_queue.count +ℤ pos 1;
}

abbrev with_frame : Kernel → ℕ → Kernel
with_frame k frame = record k { free_frame_queue = longer k frame; mem = rest (rest k.mem) }

-- Rounds that come after a frame was passed over, and after it was added.
passed :
    (k : Kernel) (frame n : ℕ) (m : Mem) (k' : Kernel)
    → Added (record k { mem = m }) (frame + 1) n k'
    → Added k frame (suc n) k'
passed k frame n m k' c =
    let (fs, items, rising, free, pages) = c in
    let e : frame + 1 + n ≡ frame + suc n = omega arith in
    (fs, items, Rising-weaken (frame + 1) frame _ fs (omega arith) (rw e at rising), free, pages)

added :
    (k : Kernel) (frame n : ℕ) (m : Mem) (q : Queue ℕ) (k' : Kernel)
    → is_free k.hardware k.kernel_brk_offset frame ≡ true
    → q.items ≡ k.free_frame_queue.items ++ frame ∷ []
    → Added (record k { free_frame_queue = q; mem = m }) (frame + 1) n k'
    → Added k frame (suc n) k'
added k frame n m q k' here line c =
    let (fs, items, rising, free, pages) = c in
    let e : frame + 1 + n ≡ frame + suc n = omega arith in
    (
      frame ∷ fs,
      items ∙ ap (λ l. l ++ fs) line ∙ append_assoc k.free_frame_queue.items (frame ∷ []) fs,
      (omega arith, omega arith, rw e at rising),
      (here, free),
      pages,
    )

free_frames-Added :
    (k : Kernel) (frame n : ℕ) → Returns (λ _. Added k frame n) (free_frames frame n k)
unfolding free_frames malloc push_free_frame Queue.push
free_frames-Added k frame zero = ([], sym (append-nil _), tt, tt, refl)
free_frames-Added k frame (suc n) =
    elim (Bool-cases (is_free k.hardware k.kernel_brk_offset frame)) [
      | inr taken ↦ rw taken (
          Returns-weaken _ _ (free_frames (frame + 1) n k) (free_frames-Added k (frame + 1) n)
            (λ _ k' c. passed k frame n k.mem k' c))
      | inl here ↦ rw here (elim (Bool-cases (k.mem 0)) [
        | inr fails ↦ rw fails ([], sym (append-nil _), tt, tt, refl)
        | inl got ↦ rw got (elim (Bool-cases (k.mem 1)) [
          | inr lost ↦ rw lost (
              Returns-weaken _ _ (free_frames (frame + 1) n (record k { mem = rest (rest k.mem) }))
                (free_frames-Added (record k { mem = rest (rest k.mem) }) (frame + 1) n)
                (λ _ k' c. passed k frame n (rest (rest k.mem)) k' c))
          | inl got' ↦ rw got' (
              Returns-weaken _ _ (free_frames (frame + 1) n (with_frame k frame))
                (free_frames-Added (with_frame k frame) (frame + 1) n)
                (λ _ k' c. added k frame n (rest (rest k.mem)) (longer k frame) k' here refl c))
        ])
      ])
    ]

-- A free frame is behind no mapped page of the layout.
free_unmapped :
    (hw : Hardware) (offset frame page : ℕ) (entry : Pte)
    → hw.first_kernel_text_page ≤ hw.first_kernel_data_page
    → page < hw.num_pages
    → IsLaidOut hw offset page entry
    → is_free hw offset frame ≡ true
    → entry.valid ≡ true
    → entry.pfn ≢ frame
free_unmapped hw offset frame page entry text inside laid free valid same =
    let e : page ≡ frame = sym ((laid.1 valid).0) ∙ same in
    let how = sym (laid.0) ∙ valid in ground arith

-- `init_free_frame_queue`, run on a region 0 page table that is laid out as `init_page_tables` leaves
-- it, returns, also where memory runs out, in a run in which no `malloc` of the loop raises the
-- kernel's break (by a call of `SetKernelBrk`, which this does not cover). It leaves the page table alone and adds to the queue frame
-- numbers that are below the number of frames, all different, and none of them mapped in region 0.
pub init_free_frame_queue-unmapped :
    (k : Kernel) (num_frames : ℕ)
    → k.hardware.first_kernel_text_page ≤ k.hardware.first_kernel_data_page
    → ((page : ℕ)
        → page < k.hardware.num_pages
        → IsLaidOut k.hardware k.kernel_brk_offset page (k.region_0_pages page))
    → Returns
        (λ _ k'.
          (k'.region_0_pages ≡ k.region_0_pages)
          × ((fs : List ℕ) × (k'.free_frame_queue.items ≡ k.free_frame_queue.items ++ fs)
              × Rising 0 num_frames fs
              × All
                  (λ f.
                    (page : ℕ)
                    → page < k.hardware.num_pages
                    → (k.region_0_pages page).valid ≡ true
                    → (k.region_0_pages page).pfn ≢ f)
                  fs))
        (init_free_frame_queue num_frames k)
unfolding init_free_frame_queue
init_free_frame_queue-unmapped k num_frames text laid =
    Returns-weaken _ _ (free_frames 0 num_frames k) (free_frames-Added k 0 num_frames) λ _ k' c.
      let (fs, items, rising, free, pages) = c in
      let e : 0 + num_frames ≡ num_frames = omega arith in
      (
        pages,
        (
          fs,
          items,
          rw e at rising,
          All-mono _ _
              (λ f h page inside valid.
                free_unmapped k.hardware k.kernel_brk_offset f page (k.region_0_pages page) text
                  inside (laid page inside) h valid)
              fs free,
        ),
      )
