-- ===== src/Ipc/Pipes.antt =====
-- Pipes: `pipe_new` of src/datastructures/ipc_wrapper.c, and what reading and writing share. The
-- pipe that a blocked call comes back to is looked up by its id, which is never used twice; if it
-- was reclaimed, the code holds a dangling pointer.
pub mod Write
pub mod Read
pub mod Preserve
pub mod Stream
pub mod Transfer
pub mod Serving
pub mod Delivery
use cs58_yalnix.Base.{
  ℕ, ◌+◌, ◌-◌, ◌*◌, Bool, true, false, not, ◌&&◌, ◌||◌, Option, none, some, List, [], ◌∷◌,
  if◌then◌else◌, ltb, leb, ◌==◌,
}
use cs58_yalnix.Base.Int.{ℤ, pos, negsuc, ◌==ℤ◌, leb_ℤ, ltb_ℤ, ◌+ℤ◌, ◌-ℤ◌, int_suc}
use cs58_yalnix.Kernel.{
  Kernel, IpcWrapper, Pipe, M, ok, pure, crash, ◌>>=◌, ◌>>◌, gets, deref, load, current,
  current_pid, malloc, bind_res, Outcome, returned, paused, pipe_write_loop, pipe_read_loop,
  blocked, set_state, wake, pop_blocked, insert_blocked, update, fault,
}
use cs58_yalnix.Kernel.Memory.{check_memory_validity, get_raw_page_no}
use cs58_yalnix.Kernel.Scheduler.{schedule_next_process}
use cs58_yalnix.Queue
use cs58_yalnix.Queue.{Queue}
use cs58_yalnix.Set
use cs58_yalnix.Set.{Set}
use cs58_yalnix.Ipc.{error, max_objects, with_wrapper, put_wrapper, put_pipe, new_queue, new_set}

insert_pipe : Queue ℕ → Set ℕ → IpcWrapper → M ℤ
insert_pipe readers writers w k =
    let id = w.next_ipc_id in
    let pipe : Pipe = record {
      pipe_id = id;
      buffer = k.junk;
      num_bytes_available = pos 0;
      readers = readers;
      writers = writers;
    } in
    let (rc, s, m) = Set.insert w.pipes id (some pipe) k.mem in
    ok (if rc ==ℤ error then error else id)
      (record k { ipc_wrapper = some (record w { next_ipc_id = int_suc id; pipes = s }); mem = m })

-- The allocations of `pipe_new` in order, each with its early return.
allocate_buffer : IpcWrapper → Queue ℕ → Option (Set ℕ) → M ℤ
unfolding insert_pipe
allocate_buffer w readers none = pure error
allocate_buffer w readers (some writers) = do
  got ← malloc
  if got then insert_pipe readers writers w else pure error

allocate_writers : IpcWrapper → Option (Queue ℕ) → M ℤ
unfolding allocate_buffer
allocate_writers w none = pure error
allocate_writers w (some readers) = do writers ← new_set; allocate_buffer w readers writers

allocate_pipe : IpcWrapper → M ℤ
unfolding allocate_writers
allocate_pipe w = do
  got ← malloc
  if got then (do readers ← new_queue; allocate_writers w readers) else pure error

-- `pipe_new`.
unfoldable pub pipe_new : M ℤ
unfolding allocate_pipe
pipe_new =
    with_wrapper error
      λ w. if leb_ℤ max_objects w.pipes.node_count then pure error else allocate_pipe w

-- The wrapper and the pipe behind a pointer that is still held.
unfoldable pub live_pipe : ℤ → M (IpcWrapper × Pipe)
live_pipe id = do
  wrapper ← gets (λ k. k.ipc_wrapper)
  w ← deref wrapper
  pipe ← deref (Set.find w.pipes id)
  pure (w, pipe)

-- The bytes of region 1 through the page table in REG_PTBR1.
unfoldable pub user_bytes : M (ℕ → ℕ)
user_bytes = do table ← gets (λ k. k.ptbr1); at ← deref table; gets (λ k. k.user_mem at)

-- A reader that was taken off the queue.
wake_reader : Option ℕ → M (Unit {0})
wake_reader none = pure tt
wake_reader (some p) = wake p

unfoldable pub pop_reader : ℤ → M (Unit {0})
unfolding live_pipe wake_reader
pop_reader id = do
  (w, pipe) ← live_pipe id
  let popped = Queue.pop pipe.readers
  put_pipe w id (record pipe { readers = popped.1 })
  wake_reader popped.0

-- `!check_memory_validity(buf) || get_raw_page_no(buf) < 128`.
unfoldable pub bad_buffer : ℕ → M Bool
bad_buffer buf = do
  valid ← check_memory_validity buf
  gets (λ k. not valid || ltb (get_raw_page_no k.hardware buf) 128)
