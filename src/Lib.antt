-- ===== src/Lib.antt =====
-- Verification library of the Yalnix kernel: processes, the scheduler, locks, condition variables,
-- pipes, terminals, page tables, trap dispatch, program loading and the start of the kernel.
--
-- The program. User programs trap into the kernel (src/traps.c), whose system calls stand in
-- src/syscall_handlers. They work on process control blocks (src/datastructures/pcb.c), which the
-- ready queue and the sets of blocked, delayed and dead processes share by pointer
-- (src/datastructures/queue.c and set.c), on the objects in the wrapper of
-- src/datastructures/ipc_wrapper.c, on the terminals of src/datastructures/tty_state.c, and on the
-- page tables and the queue of free frames of src/kernel.c. A handler that has to wait calls
-- ScheduleNextProcess of src/kernel.c, which puts the current process where its state says and
-- switches to the next. The clock, a terminal's line and the end of a transmission come as traps,
-- which make waiting processes ready again. KernelStart of src/kernel.c sets all of this up and
-- loads the first program with LoadProgram, which ExecHandler calls later.
--
-- The files.
-- Base: names passed on, tests on numbers, lists, the int of C (ℤ), and the outcomes of malloc.
-- Set, Queue: set.c and queue.c, as the lists that their clients see; Set/Laws, Set/Invariant
--   and Queue/Laws their properties.
-- Kernel: the globals and structs as the record Kernel, and the monad M in which kernel
--   functions are written: a result and a new state, or fault for what C leaves undefined, or
--   halt. Kernel/Memory is check_memory_validity, Kernel/Scheduler is KCSwitch,
--   enqueue_current_process and ScheduleNextProcess, Kernel/Scheduler/Turns many calls of it;
--   Kernel/Ensures and Kernel/Preserves read runs as predicates, with the rules by which a run of
--   a handler is taken apart.
-- Ipc: ipc_wrapper_init; Ipc/Locks, Ipc/Cvars, Ipc/Pipes and Ipc/Reclaim the operations of
--   ipc_wrapper.c; Ipc/Invariant, Ipc/Preserve and Ipc/Calls the invariant of the wrapper;
--   Ipc/Locks/Laws and Ipc/Locks/Fairness the abstract lock; Ipc/Pipes/Stream, Ipc/Pipes/Transfer,
--   Ipc/Pipes/Serving and Ipc/Pipes/Delivery the stream of bytes of a pipe.
-- Process: pcb.c (Process/Pcb and Process/Create), ExitHandler, WaitHandler, DelayHandler,
--   GetPidHandler and TrapClockHandler; Process/Delay/Countdown is what the clock counts,
--   Process/Delay/Clock many clock traps.
-- Sync: the handlers of synchronization.c and ipc.c; Sync/Blocking, Sync/Wakeup, Sync/Waiting
--   and Sync/Signal what they do to the processes involved.
-- Tty: the terminals of tty_state.c and their buffers; Tty/Receive is the line that arrives,
--   Tty/Read and Tty/Write are TtyReadHandler and TtyWriteHandler of input_output.c, Tty/Traps the
--   two terminal traps of traps.c; Tty/Write/Rounds the rounds of a write; Tty/Calls any order of
--   these operations; Tty/Frame and Tty/Reading the lemmas that they share.
-- Vm: entries of page tables and the queue of free frames; Vm/Boot what KernelStart does for
--   them, Vm/KernelBrk is SetKernelBrk, Vm/KernelBrk/Heap what it does to the kernel's heap,
--   Vm/UserMemory is BrkHandler and the growth of the user stack in TrapMemoryHandler, Vm/Fork is
--   ForkHandler and KCCopy: Vm/Fork/Copies the copy of the memory, Vm/Fork/Keeps what it leaves
--   alone, Vm/Fork/Windows the pages that KCCopy goes through, Vm/Fork/Child and Vm/Fork/Forks the
--   whole.
-- Traps: TrapKernelHandler's choice of a handler, with its checks of pointers, ExecHandler, and
--   the traps that end a process; Traps/Guards what it does with a bad pointer, Traps/Exec is
--   ExecHandler together with LoadProgram.
-- Loader: LoadProgram and free_page_frame. Loader/Memory what they do to the memory of a process,
--   Loader/Program the function itself, Loader/Program/Loads its success and
--   Loader/Program/Commit how far it gets in a process that has a program;
--   Loader/Pages and Loader/Fit the lemmas on its page table and its sizes.
-- Start: KernelStart and RegisterTrapHandlers; Start/Memory and Start/Processes its parts,
--   Start/Machine what it needs and what it makes, Start/Boots the whole.
-- Tests: the code on a small machine.
--
-- Choices. A pointer to a block is an address in the store of blocks; NULL is none. A function of
-- the source that tests its argument and goes on is a definition with a helper by clauses. A call
-- of KernelContextSwitch has the effect of KCSwitch on the kernel's state; a handler that calls
-- the scheduler from a loop returns a point, and the definition for the loop is what goes on
-- there. An int is a ℤ: the ids of objects and the counts wrap only where the code increments the
-- next id (int_suc), a queue's next key is the bit pattern of the int. The outcomes of malloc are
-- an oracle, of which each call takes one, with no other effect: the calls of SetKernelBrk by
-- which the kernel's malloc gets more heap are not part of it. They take frames from the queue,
-- or, before virtual memory is on, map pages to the frames of the same numbers, so the runs are
-- those in which the heap has room already. SetKernelBrk by itself is modelled. The loops run over
-- lists or over the number of rounds left, and the loop of cvar_broadcast on fuel above the length
-- of the queue, which it pops once in each round. An index outside of an array is a fault. The
-- sizes and addresses of the machine are the record Hardware, whose values stay open. What
-- TtyTransmit is given is recorded in order; the line that TtyReceive stores, the pid that
-- helper_new_pid gives, the numbers of the system calls, what LoadProgram does for ExecHandler and
-- KernelStart, and what open, LoadInfo and read give to LoadProgram itself are arguments. What
-- LoadProgram stores in region 1 is a change of the memory behind the page table in REG_PTBR1,
-- whose entries it is not checked against. A NULL that KernelStart gets for one of its queues and
-- sets is a fault. Only the first page of a user's buffer is checked, as in the code.
--
-- Not modelled: the vector of addresses that RegisterTrapHandlers fills; the contents of kernel
-- contexts and of kernel stacks, and the flushes of the TLB, which are the machine's; the file
-- descriptors of the host; traces, which only print; and the user programs (init.c, idle.c, the
-- tests). Memory that is freed without a pointer left to it leaves no trace in the state.
pub mod Base
pub mod Set
pub mod Queue
pub mod Kernel
pub mod Ipc
pub mod Process
pub mod Sync
pub mod Traps
pub mod Tty
pub mod Vm
pub mod Loader
pub mod Start
pub mod Tests
