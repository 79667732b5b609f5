-- ===== src/Ipc/Pipes/Write.antt =====
-- `pipe_write` of src/datastructures/ipc_wrapper.c.
use cs58_yalnix.Base.{ℕ, ◌+◌, ◌-◌, Bool, ◌&&◌, ◌||◌, Option, none, some, if◌then◌else◌, ltb, leb}
use cs58_yalnix.Base.Int.{ℤ, pos, negsuc, ltb_ℤ, ◌+ℤ◌}
use cs58_yalnix.Kernel.{
  Kernel, IpcWrapper, Pipe, M, ok, pure, crash, ◌>>=◌, ◌>>◌, gets, current, current_pid, Outcome,
  returned, paused, pipe_write_loop, blocked, set_state,
}
use cs58_yalnix.Kernel.Scheduler.{schedule_next_process}
use cs58_yalnix.Set
use cs58_yalnix.Set.{Set}
use cs58_yalnix.Ipc.{error, with_wrapper, put_pipe}
use cs58_yalnix.Ipc.Pipes.{live_pipe, user_bytes, pop_reader, bad_buffer}

-- `memcpy(pipe->buffer + at, buf, n)`.
abbrev pub copied_in : (ℕ → ℕ) → (at n : ℕ) → (ℕ → ℕ) → ℕ → ℕ → ℕ
copied_in buffer at n user buf i =
    if leb at i && ltb i (at + n) then user (buf + (i - at)) else buffer i

-- The end of `pipe_write`. A negative length or offset makes `memcpy` leave its arrays.
unfoldable pub append_bytes : ℤ → ℕ → IpcWrapper → Pipe → ℤ → ℤ → M (Unit {0})
append_bytes id buf w pipe (pos at) (pos n) = do
  user ← user_bytes
  put_pipe w id (record pipe {
    buffer = copied_in pipe.buffer at n user buf;
    num_bytes_available = pos (at + n);
  })
append_bytes id buf w pipe (pos at) (negsuc n) = crash
append_bytes id buf w pipe (negsuc at) n = crash

unfoldable pub finish_write : ℤ → ℕ → ℤ → M Outcome
unfolding live_pipe append_bytes user_bytes pop_reader
finish_write id buf len = do
  pid ← current_pid
  (w, pipe) ← live_pipe id
  append_bytes id buf w (record pipe { writers = (Set.pop pipe.writers pid).1 })
      pipe.num_bytes_available len
  pop_reader id
  pure (returned (pos 0))

abbrev pub is_full : Kernel → Pipe → ℤ → Bool
is_full k pipe len = ltb_ℤ (pos k.hardware.pipe_buffer_len) (len +ℤ pipe.num_bytes_available)

-- The loop of `pipe_write`, also where the blocked process comes back to.
unfoldable pub write_loop : ℤ → ℕ → ℤ → M Outcome
unfolding live_pipe finish_write
write_loop id buf len = do
  (w, pipe) ← live_pipe id
  full ← gets (λ k. is_full k pipe len)
  if full
      then (do
        p ← current
        set_state p blocked
        schedule_next_process
        pure (paused (pipe_write_loop id buf len)))
      else finish_write id buf len

-- Before the loop a writer that has to wait is noted; the result is ignored.
unfoldable pub note_writer : ℤ → ℤ → IpcWrapper → Pipe → M (Unit {0})
note_writer id len w pipe k =
    if is_full k pipe len
    then (do
      p ← current
      pid ← current_pid
      (λ k'.
          let (_, s, m) = Set.insert pipe.writers pid (some p) k'.mem in
          ok tt (record k' {
            ipc_wrapper =
                some (record w { pipes = Set.assign w.pipes id (record pipe { writers = s }) });
            mem = m;
          })))
        k
    else ok tt k

unfoldable pub write_found : ℤ → ℕ → ℤ → IpcWrapper → Option Pipe → M Outcome
unfolding note_writer write_loop
write_found id buf len w none = pure (returned error)
write_found id buf len w (some pipe) = do
  bad ← bad_buffer buf
  size ← gets (λ k. k.hardware.pipe_buffer_len)
  if bad || ltb_ℤ (pos size) len
      then pure (returned error)
      else (do note_writer id len w pipe; write_loop id buf len)

-- `pipe_write`.
unfoldable pub pipe_write : ℤ → ℕ → ℤ → M Outcome
unfolding write_found
pipe_write id buf len =
    with_wrapper (returned error) λ w. write_found id buf len w (Set.find w.pipes id)
