-- ===== src/Vm/Fork/Keeps.antt =====
-- What the copy of the pages leaves alone.
use cs58_yalnix.Base.{ℕ, zero, suc, ◌+◌, ◌-◌, ◌*◌, ◌≡◌, ◌≤◌, ◌<◌, false, Option, none, some, arith}
use cs58_yalnix.Kernel.{Kernel, Pte}
use cs58_yalnix.Kernel.Preserves.{
  Preserves, Preserves-bind, Preserves-if, Preserves-pure, structure,
}
use cs58_yalnix.Vm.{pop_free_frame, put_region_0}
use cs58_yalnix.Vm.UserMemory.{entry_at, put_entry}
use cs58_yalnix.Vm.Fork.{copy_bytes, clear_window, copy_page, copy_pages}
use cs58_yalnix.Vm.Fork.Windows.{AllLaidOut, unmapped-AllLaidOut}

module _ (k0 : Kernel)
    (room : k0.hardware.orig_kernel_brk_page
        + k0.kernel_brk_offset
        + 2 * k0.hardware.num_kstack_frames
      ≤ k0.hardware.num_pages)
    (stack : 0 < k0.hardware.num_kstack_frames) where
  -- The same machine and processes, and region 0 as it was laid out.
  abbrev pub Copying : Kernel → Type 0
  Copying k =
      (k.hardware ≡ k0.hardware)
      × (k.kernel_brk_offset ≡ k0.kernel_brk_offset)
      × (k.mem ≡ k0.mem)
      × (k.pcbs ≡ k0.pcbs)
      × (k.current_process ≡ k0.current_process)
      × (k.process_ready_queue ≡ k0.process_ready_queue)
      × AllLaidOut k0.hardware k0.kernel_brk_offset k.region_0_pages

  clear_window-Copying : Preserves Copying (clear_window 0)
  unfolding clear_window put_region_0
  clear_window-Copying = record {
    keeps = λ k (hw, brk, mem, pcbs, cur, ready, laid).
        let page = k0.hardware.num_pages - 2 * k0.hardware.num_kstack_frames + 0 in
        let cleared =
          unmapped-AllLaidOut k0.hardware k0.kernel_brk_offset page k.region_0_pages
            (omega (arith, room)) (omega (arith, room, stack)) laid in
        (hw, brk, mem, pcbs, cur, ready, rw hw cleared);
  }

  pop_free_frame-Copying : Preserves Copying pop_free_frame
  unfolding pop_free_frame
  pop_free_frame-Copying = record { keeps = λ k c. c }

  entry_at-Copying : (table i : ℕ) → Preserves Copying (entry_at table i)
  unfolding entry_at
  entry_at-Copying table i = search structure depth 20

  put_entry-Copying : (table i : ℕ) (e : Pte) → Preserves Copying (put_entry table i e)
  unfolding put_entry
  put_entry-Copying table i e = search structure depth 20

  copy_bytes-Copying : (new i : ℕ) → Preserves Copying (copy_bytes new i)
  unfolding copy_bytes
  copy_bytes-Copying new i = search structure depth 20

  copy_page-Copying : (new i : ℕ) (e : Pte) (f : Option ℕ) → Preserves Copying (copy_page new i e f)
  unfolding copy_page
  copy_page-Copying new i e none = search structure
  copy_page-Copying new i e (some f) =
      search (structure, put_entry-Copying, copy_bytes-Copying, clear_window-Copying) depth 20

  pub copy_pages-Copying : (cur new n i : ℕ) → Preserves Copying (copy_pages cur new i n)
  unfolding copy_pages
  copy_pages-Copying cur new zero i = search structure
  copy_pages-Copying cur new (suc n) i =
      let later = copy_pages-Copying cur new n (i + 1) in
      Preserves-bind Copying (entry_at cur i) _ (entry_at-Copying cur i) λ e.
        Preserves-if Copying e.valid _ _
          (Preserves-bind Copying pop_free_frame _ pop_free_frame-Copying λ f.
            Preserves-bind Copying (copy_page new i e f) _ (copy_page-Copying new i e f)
              λ done. Preserves-if Copying done _ _ later (Preserves-pure Copying false))
          later
