-- ===== src/Vm.antt =====
-- Page tables and frames: src/kernel.c, and the system calls and traps that change the memory of a
-- process. The TLB is the machine's and is not modelled.
pub mod Boot
pub mod KernelBrk
pub mod UserMemory
pub mod Fork
use cs58_yalnix.Base.{ℕ, ◌+◌, ◌-◌, ◌*◌, ◌/◌, ◌%◌, ◌^◌, Option, if◌then◌else◌, ltb}
use cs58_yalnix.Kernel.{Hardware, Kernel, Pte, M, ok, fault, update}
use cs58_yalnix.Queue

-- `queue_pop` on the free frame queue, and the number behind the pointer. The block that held it is
-- freed.
unfoldable pub pop_free_frame : M (Option ℕ)
pop_free_frame k =
    let (f, q) = Queue.pop k.free_frame_queue in ok f (record k { free_frame_queue = q })

-- `UP_TO_PAGE` and `DOWN_TO_PAGE` of hardware.h, divided by PAGESIZE, on 32-bit addresses.
abbrev pub up_to_page : Hardware → ℕ → ℕ
up_to_page hw addr = (addr + hw.page_size - 1) % 2 ^ 32 / hw.page_size

abbrev pub down_to_page : Hardware → ℕ → ℕ
down_to_page hw addr = addr / hw.page_size

-- `region_0_pages[i]`, read and written.
unfoldable pub region_0_at : ℕ → M Pte
region_0_at i k = if ltb i k.hardware.num_pages then ok (k.region_0_pages i) k else fault

unfoldable pub put_region_0 : ℕ → Pte → M (Unit {0})
put_region_0 i e k = ok tt (record k { region_0_pages = update k.region_0_pages i e })
