-- ===== src/Kernel/Memory/Reads.antt =====
-- `check_memory_validity` changes nothing.
use cs58_yalnix.Base.{ℕ, ◌-◌, ◌/◌}
use cs58_yalnix.Kernel.{Kernel}
use cs58_yalnix.Kernel.Ensures.{Ensures-if}
use cs58_yalnix.Kernel.Preserves.{Preserves, structure}
use cs58_yalnix.Kernel.Memory.{check_memory_validity, region_1_validity}

module _ (P : Kernel → Type 0) where
  region_1_validity-reads : (page : ℕ) → Preserves P (region_1_validity page)
  unfolding region_1_validity
  region_1_validity-reads page = search structure

  pub check_memory_validity-reads : (addr : ℕ) → Preserves P (check_memory_validity addr)
  unfolding check_memory_validity
  check_memory_validity-reads addr = record {
    keeps = λ k v.
        let inner =
          (region_1_validity-reads (addr / k.hardware.page_size - k.hardware.num_pages)).keeps k
            v in
        search (Ensures-if, inner, v);
  }
