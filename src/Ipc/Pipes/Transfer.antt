-- ===== src/Ipc/Pipes/Transfer.antt =====
-- What `pipe_write` does to the stream of bytes that a pipe carries, where it need not wait.
use cs58_yalnix.Base.{
  ℕ, ◌+◌, ◌≤◌, ◌≡◌, refl, true, false, ltb, Option, none, some, List, ◌++◌, arith, ==_refl, All,
  ◌∙◌,
}
use cs58_yalnix.Base.Int.{ℤ, pos, ◌+ℤ◌, ltb_ℤ, ==ℤ_refl}
use cs58_yalnix.Kernel.{
  Kernel, IpcWrapper, Pipe, Pcb, ok, wake, set_state, pop_blocked, push_ready, returned,
}
use cs58_yalnix.Kernel.Ensures.{
  Returns, Returns-bind, Returns-weaken, Runs, IsLive, current_pid_lem,
}
use cs58_yalnix.Queue
use cs58_yalnix.Queue.{Queue}
use cs58_yalnix.Queue.Laws.{pop-All}
use cs58_yalnix.Set
use cs58_yalnix.Set.Laws.{find-assign}
use cs58_yalnix.Ipc.{with_wrapper-some}
use cs58_yalnix.Kernel.Memory.{check_memory_validity, get_raw_page_no}
use cs58_yalnix.Ipc.Pipes.{live_pipe, user_bytes, pop_reader, wake_reader, bad_buffer}
use cs58_yalnix.Ipc.Pipes.Stream.{bytes, bytes-copied_in}
use cs58_yalnix.Ipc.Pipes.Write.{
  copied_in, append_bytes, finish_write, write_loop, is_full, note_writer, write_found, pipe_write,
}

-- The pipe with this id holds exactly these bytes, in this order.
pub record Carries (id : ℤ) (content : List ℕ) (k : Kernel) : Type 0 where
  pub wrapper : IpcWrapper
  pub kept : k.ipc_wrapper ≡ some wrapper
  pub pipe : Pipe
  pub found : Set.find wrapper.pipes id ≡ some pipe
  pub size : ℕ
  pub counted : pipe.num_bytes_available ≡ pos size
  pub holds : bytes pipe.buffer size ≡ content

pub live_pipe_lem :
    (id : ℤ) (k : Kernel) (w : IpcWrapper) (pipe : Pipe)
    → k.ipc_wrapper ≡ some w
    → Set.find w.pipes id ≡ some pipe
    → live_pipe id k ≡ ok (w, pipe) k
unfolding live_pipe
live_pipe_lem id k w pipe e found = rw (e, found)

Carries-kept :
    {id : ℤ} {content : List ℕ} {k k' : Kernel}
    → k'.ipc_wrapper ≡ k.ipc_wrapper
    → Carries id content k
    → Carries id content k'
Carries-kept e c = record {
  wrapper = c.wrapper;
  kept = e ∙ c.kept;
  pipe = c.pipe;
  found = c.found;
  size = c.size;
  counted = c.counted;
  holds = c.holds;
}

pub wake_wrapper :
    (p : ℕ) (k : Kernel) → IsLive k p → Returns (λ _ k'. k'.ipc_wrapper ≡ k.ipc_wrapper) (wake p k)
unfolding wake set_state pop_blocked push_ready
wake_wrapper p k live = rw (live.1, ==_refl p) refl

module _ (id : ℤ) (content : List ℕ) where
  wake_reader-Carries :
      (o : Option ℕ) (k : Kernel)
      → Carries id content k
      → ((p : ℕ) → o ≡ some p → IsLive k p)
      → Returns (λ _. Carries id content) (wake_reader o k)
  unfolding wake_reader
  wake_reader-Carries none k c live = c
  wake_reader-Carries (some p) k c live =
      Returns-weaken _ (λ _. Carries id content) (wake p k) (wake_wrapper p k (live p refl))
        (λ _ k' e. Carries-kept e c)

  put_pipe-Carries :
      (w : IpcWrapper) (old new : Pipe) (k : Kernel) (n : ℕ)
      → Set.find w.pipes id ≡ some old
      → k.ipc_wrapper ≡ some (record w { pipes = Set.assign w.pipes id new })
      → new.num_bytes_available ≡ pos n
      → bytes new.buffer n ≡ content
      → Carries id content k
  put_pipe-Carries w old new k n found kept counted holds = record {
    wrapper = record w { pipes = Set.assign w.pipes id new };
    kept = kept;
    pipe = new;
    found = rw (find-assign w.pipes id id new, ==ℤ_refl id, found);
    size = n;
    counted = counted;
    holds = holds;
  }

  pop_reader-Carries :
      (k : Kernel) (w : IpcWrapper) (pipe : Pipe) (n : ℕ)
      → k.ipc_wrapper ≡ some w
      → Set.find w.pipes id ≡ some pipe
      → pipe.num_bytes_available ≡ pos n
      → bytes pipe.buffer n ≡ content
      → All (IsLive k) pipe.readers.items
      → Returns (λ _. Carries id content) (pop_reader id k)
  unfolding pop_reader
  pop_reader-Carries k w pipe n kept found counted holds live =
      let popped : Option ℕ × Queue ℕ = Queue.pop pipe.readers in
      let k' : Kernel = record k {
        ipc_wrapper =
            some (record w { pipes = Set.assign w.pipes id (record pipe { readers = popped.1 }) });
      } in
      rw (live_pipe_lem id k w pipe kept found) (
        wake_reader-Carries popped.0 k'
          (put_pipe-Carries w pipe (record pipe { readers = popped.1 }) k' n found refl counted
            holds)
          (pop-All (IsLive k) pipe.readers live))

pub bad_buffer_lem :
    (k : Kernel) (buf : ℕ)
    → check_memory_validity buf k ≡ ok true k
    → ltb (get_raw_page_no k.hardware buf) 128 ≡ false
    → bad_buffer buf k ≡ ok false k
unfolding bad_buffer
bad_buffer_lem k buf valid user = rw (valid, user)

user_bytes_lem :
    (k : Kernel) (table : ℕ) → k.ptbr1 ≡ some table → user_bytes k ≡ ok (k.user_mem table) k
unfolding user_bytes
user_bytes_lem k table space = rw space

-- A pipe that was written back is what the id finds.
pub find_assigned :
    (id : ℤ) (w : IpcWrapper) (old new : Pipe)
    → Set.find w.pipes id ≡ some old
    → Set.find (Set.assign w.pipes id new) id ≡ some new
find_assigned id w old new found = rw (find-assign w.pipes id id new, ==ℤ_refl id, found)

fits_lem : (size at n : ℕ) → at + n ≤ size → ltb_ℤ (pos size) (pos n +ℤ pos at) ≡ false
fits_lem size at n h = ground arith

length_ok : (size at n : ℕ) → at + n ≤ size → ltb_ℤ (pos size) (pos n) ≡ false
length_ok size at n h = ground arith

is_full_lem :
    (k : Kernel) (pipe : Pipe) (at n : ℕ)
    → pipe.num_bytes_available ≡ pos at
    → at + n ≤ k.hardware.pipe_buffer_len
    → is_full k pipe (pos n) ≡ false
is_full_lem k pipe at n counted fits = rw counted (fits_lem k.hardware.pipe_buffer_len at n fits)

module _ (k : Kernel) (p : ℕ) (v : Pcb) (r : Runs k p v) (w : IpcWrapper) (id : ℤ) (pipe : Pipe)
    (at n buf table : ℕ) (e : k.ipc_wrapper ≡ some w) (found : Set.find w.pipes id ≡ some pipe)
    (counted : pipe.num_bytes_available ≡ pos at) (live : All (IsLive k) pipe.readers.items)
    (space : k.ptbr1 ≡ some table) where
  -- The pipe once the bytes are in it.
  abbrev filled : Pipe
  filled = record pipe {
    writers = (Set.pop pipe.writers v.pid).1;
    buffer = copied_in pipe.buffer at n (k.user_mem table) buf;
    num_bytes_available = pos (at + n);
  }

  -- The loop ends at once, and appends the bytes of the caller's buffer.
  pub write_loop-appends :
      at + n ≤ k.hardware.pipe_buffer_len
      → Returns
          (λ rc k'.
            (rc ≡ returned (pos 0))
            × Carries id (bytes pipe.buffer at ++ bytes (λ i. k.user_mem table (buf + i)) n) k')
          (write_loop id buf (pos n) k)
  unfolding write_loop finish_write append_bytes
  write_loop-appends fits =
      let k' : Kernel = record k {
        ipc_wrapper = some (record w { pipes = Set.assign w.pipes id filled });
      } in
      rw
        (
          live_pipe_lem id k w pipe e found,
          is_full_lem k pipe at n counted fits,
          current_pid_lem r,
          live_pipe_lem id k w pipe e found,
          counted,
          user_bytes_lem k table space,
        )
        (Returns-bind (λ _. Carries id _) _ (pop_reader id k') _
          (pop_reader-Carries id _ k' (record w { pipes = Set.assign w.pipes id filled }) filled
            (at + n) refl (find_assigned id w pipe filled found) refl
            (bytes-copied_in pipe.buffer (k.user_mem table) at n buf) live)
          (λ _ k'' c. (refl, c)))

  note_writer_lem : at + n ≤ k.hardware.pipe_buffer_len → note_writer id (pos n) w pipe k ≡ ok tt k
  unfolding note_writer
  note_writer_lem fits = rw (is_full_lem k pipe at n counted fits)

  -- A write by a running process, from a valid buffer of region 1, of bytes that fit into what is
  -- left of the pipe's capacity returns without blocking, with 0 and not with their number, and the pipe then holds what it held
  -- before, followed by the bytes of the caller's buffer, in order, if no block in the queue of
  -- readers has been freed.
  pub pipe_write-appends :
      at + n ≤ k.hardware.pipe_buffer_len
      → check_memory_validity buf k ≡ ok true k
      → ltb (get_raw_page_no k.hardware buf) 128 ≡ false
      → Returns
          (λ rc k'.
            (rc ≡ returned (pos 0))
            × Carries id (bytes pipe.buffer at ++ bytes (λ i. k.user_mem table (buf + i)) n) k')
          (pipe_write id buf (pos n) k)
  unfolding pipe_write write_found
  pipe_write-appends fits valid user =
      rw
        (
          with_wrapper-some _ _ k e,
          found,
          bad_buffer_lem k buf valid user,
          length_ok k.hardware.pipe_buffer_len at n fits,
          note_writer_lem fits,
        )
        (write_loop-appends fits)
