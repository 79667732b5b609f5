-- ===== src/Process.antt =====
-- Process control blocks and their life: src/datastructures/pcb.c and the handlers of
-- src/syscall_handlers/process_coordination.c.
pub mod Pcb
pub mod Exit
pub mod Wait
pub mod Create
pub mod Delay
