-- ===== src/Ipc/Pipes/Read.antt =====
-- `pipe_read` and `leftshift_buffer` of src/datastructures/ipc_wrapper.c.
use cs58_yalnix.Base.{
  ℕ, ◌+◌, ◌-◌, Bool, ◌&&◌, Option, none, some, List, [], ◌∷◌, if◌then◌else◌, ltb, leb, ◌==◌,
}
use cs58_yalnix.Base.Int.{ℤ, pos, negsuc, leb_ℤ, ltb_ℤ}
use cs58_yalnix.Kernel.{
  IpcWrapper, Pipe, M, ok, pure, crash, ◌>>=◌, ◌>>◌, gets, deref, current, current_pid, malloc,
  Outcome, returned, paused, pipe_read_loop, blocked, set_state, wake, pop_blocked, insert_blocked,
  update,
}
use cs58_yalnix.Kernel.Scheduler.{schedule_next_process}
use cs58_yalnix.Queue
use cs58_yalnix.Queue.{Queue}
use cs58_yalnix.Set
use cs58_yalnix.Set.{Set}
use cs58_yalnix.Ipc.{error, with_wrapper, put_pipe}
use cs58_yalnix.Ipc.Pipes.{live_pipe, pop_reader, bad_buffer}

-- `memcpy(buf, pipe->buffer, n)`, in region 1.
abbrev pub copied_out : (ℕ → ℕ) → (n : ℕ) → (ℕ → ℕ) → ℕ → ℕ → ℕ
copied_out user n buffer buf a = if leb buf a && ltb a (buf + n) then buffer (a - buf) else user a

-- `leftshift_buffer`, for a distance within the size.
abbrev pub shifted : (ℕ → ℕ) → (size dist : ℕ) → ℕ → ℕ
shifted buffer size dist i =
    if ltb i (size - dist) then buffer (i + dist) else if ltb i size then 0 else buffer i

-- The copy and the shift of `pipe_read`; where `malloc` fails in `leftshift_buffer`, nothing moves.
unfoldable pub take_bytes : ℤ → ℕ → IpcWrapper → Pipe → ℤ → ℤ → M (Unit {0})
take_bytes id buf w pipe (pos avail) (pos n) = do
  table ← gets (λ k. k.ptbr1)
  at ← deref table
  (λ k.
      ok tt (record k {
        user_mem = update k.user_mem at (copied_out (k.user_mem at) n pipe.buffer buf);
      }))
  got ← malloc
  size ← gets (λ k. k.hardware.pipe_buffer_len)
  put_pipe w id (record pipe {
    buffer = if got then shifted pipe.buffer size n else pipe.buffer;
    num_bytes_available = pos (avail - n);
  })
take_bytes id buf w pipe (pos avail) (negsuc n) = crash
take_bytes id buf w pipe (negsuc avail) n = crash

-- The last loop of `pipe_read`. `&(pcb->state)` is the address of the block.
unfoldable pub wake_writers : List (ℤ × ℕ) → M (Unit {0})
wake_writers [] = pure tt
wake_writers ((_, p) ∷ nodes) = do wake p; wake_writers nodes

-- `MIN`.
abbrev pub min_ℤ : ℤ → ℤ → ℤ
min_ℤ a b = if ltb_ℤ a b then a else b

unfoldable pub wake_next_reader : ℤ → M (Unit {0})
unfolding live_pipe pop_reader
wake_next_reader id = do
  (w, pipe) ← live_pipe id
  if leb_ℤ pipe.num_bytes_available (pos 0) then pure tt else pop_reader id

unfoldable pub finish_read : ℤ → ℕ → ℤ → M Outcome
unfolding live_pipe take_bytes wake_next_reader wake_writers
finish_read id buf len = do
  pid ← current_pid
  pop_blocked pid
  (w, pipe) ← live_pipe id
  take_bytes id buf w pipe pipe.num_bytes_available (min_ℤ len pipe.num_bytes_available)
  wake_next_reader id
  (w', pipe') ← live_pipe id
  wake_writers pipe'.writers.nodes
  pure (returned (pos 0))

abbrev pub is_empty : Pipe → Bool
is_empty pipe = ltb_ℤ pipe.num_bytes_available (pos 1)

-- The loop of `pipe_read`, also where the blocked process comes back to.
unfoldable pub read_loop : ℤ → ℕ → ℤ → M Outcome
unfolding live_pipe finish_read
read_loop id buf len = do
  (w, pipe) ← live_pipe id
  if is_empty pipe
      then (do
        p ← current
        set_state p blocked
        schedule_next_process
        pure (paused (pipe_read_loop id buf len)))
      else finish_read id buf len

-- A reader of an empty pipe queues up before it blocks; both results are ignored.
unfoldable pub note_reader : ℤ → IpcWrapper → Pipe → M (Unit {0})
note_reader id w pipe =
    if is_empty pipe
    then (do
      p ← current
      pid ← current_pid
      (λ k.
          let (_, q, m) = Queue.push pipe.readers (some p) k.mem in
          ok tt (record k {
            ipc_wrapper =
                some (record w { pipes = Set.assign w.pipes id (record pipe { readers = q }) });
            mem = m;
          }))
      insert_blocked pid (some p)
      pure tt)
    else pure tt

unfoldable pub read_found : ℤ → ℕ → ℤ → IpcWrapper → Option Pipe → M Outcome
unfolding note_reader read_loop
read_found id buf len w none = pure (returned error)
read_found id buf len w (some pipe) = if buf == 0 then pure (returned error) else do
  bad ← bad_buffer buf
  if bad then pure (returned error) else (do note_reader id w pipe; read_loop id buf len)

-- `pipe_read`.
unfoldable pub pipe_read : ℤ → ℕ → ℤ → M Outcome
unfolding read_found
pipe_read id buf len =
    with_wrapper (returned error) λ w. read_found id buf len w (Set.find w.pipes id)
