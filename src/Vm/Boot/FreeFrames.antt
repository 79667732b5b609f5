-- ===== src/Vm/Boot/FreeFrames.antt =====
-- The frames that `KernelStart` finds free, where memory does not run out.
use cs58_yalnix.Base.{
  ℕ, zero, suc, ◌+◌, ◌%◌, ◌^◌, ◌≤◌, ◌≡◌, refl, sym, ◌∙◌, true, List, [], ◌∷◌, ◌++◌, length,
  append-nil, append_assoc, if◌then◌else◌, leb, arith, Bool-cases, inl, inr,
}
use cs58_yalnix.Base.Int.{pos, ◌+ℤ◌}
use cs58_yalnix.Kernel.{Hardware, Kernel, ok, malloc, push_free_frame}
use cs58_yalnix.Queue
use cs58_yalnix.Queue.{Queue}
use cs58_yalnix.Vm.Boot.{is_free, free_frames, init_free_frame_queue}

-- The free ones of `n` frames from `frame` on.
abbrev pub free_from : Hardware → (offset frame n : ℕ) → List ℕ
free_from hw offset frame zero = []
free_from hw offset frame (suc n) =
    let later = free_from hw offset (frame + 1) n in
    if is_free hw offset frame then frame ∷ later else later

module _ (hw : Hardware) (offset : ℕ) (heap : hw.orig_kernel_brk_page + offset + 2 ≤ hw.num_pages)
    (text : hw.first_kernel_text_page ≤ hw.num_pages)
    (below : hw.first_kernel_data_page ≤ hw.num_pages) where
  high_frame : (frame : ℕ) → hw.num_pages ≤ frame → is_free hw offset frame ≡ true
  high_frame frame high = ground arith

  high_frames : (n frame : ℕ) → hw.num_pages ≤ frame → n ≤ length (free_from hw offset frame n)
  high_frames zero frame high = omega arith
  high_frames (suc n) frame high =
      let later = high_frames n (frame + 1) (omega arith) in
      rw (high_frame frame high) (omega arith)

  pub free_from-length :
      (n frame : ℕ)
      → frame ≤ hw.num_pages
      → frame + n ≤ length (free_from hw offset frame n) + hw.num_pages
  free_from-length zero frame low = omega arith
  free_from-length (suc n) frame low =
      let later = free_from hw offset (frame + 1) n in
      elim (Bool-cases (leb hw.num_pages frame)) [
        | inl high ↦
            let rest = high_frames n (frame + 1) (ground arith) in
            rw (high_frame frame (ground arith)) (ground arith)
        | inr below ↦
            let rest = free_from-length n (frame + 1) (ground arith) in
            elim (Bool-cases (is_free hw offset frame)) [
              | inl free ↦ rw free (omega arith)
              | inr taken ↦ rw taken (omega arith)
            ]
      ]

-- The loop, with memory for every frame.
free_frames_lem :
    (n frame : ℕ) (k : Kernel)
    → (q : Queue ℕ) × (free_frames frame n (record k { mem = λ _. true })
        ≡ ok tt (record k { mem = λ _. true; free_frame_queue = q }))
      × (q.items ≡ k.free_frame_queue.items ++ free_from k.hardware k.kernel_brk_offset frame n)
unfolding free_frames malloc push_free_frame Queue.push
free_frames_lem zero frame k = (k.free_frame_queue, refl, sym (append-nil _))
free_frames_lem (suc n) frame k =
    let longer : Queue ℕ = record {
      items = k.free_frame_queue.items ++ frame ∷ [];
      next_key = (k.free_frame_queue.next_key + 1) % 2 ^ 32;
      count = k.free_frame_queue.count +ℤ pos 1;
    } in
    elim (Bool-cases (is_free k.hardware k.kernel_brk_offset frame)) [
      | inr taken ↦
          let (q, run, items) = free_frames_lem n (frame + 1) k in (q, rw taken run, rw taken items)
      | inl free ↦
          let (q, run, items) =
            free_frames_lem n (frame + 1) (record k { free_frame_queue = longer }) in
          let later = free_from k.hardware k.kernel_brk_offset (frame + 1) n in
          (
            q,
            rw free run,
            rw free (items ∙ append_assoc k.free_frame_queue.items (frame ∷ []) later),
          )
    ]

pub init_free_frame_queue_lem :
    (num_frames : ℕ) (k : Kernel)
    → (q : Queue ℕ) × (init_free_frame_queue num_frames (record k { mem = λ _. true })
        ≡ ok tt (record k { mem = λ _. true; free_frame_queue = q }))
      × (q.items
          ≡ k.free_frame_queue.items ++ free_from k.hardware k.kernel_brk_offset 0 num_frames)
unfolding init_free_frame_queue
init_free_frame_queue_lem num_frames k = free_frames_lem num_frames 0 k
