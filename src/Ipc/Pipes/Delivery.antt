-- ===== src/Ipc/Pipes/Delivery.antt =====
-- What `pipe_read` does to the stream of bytes that a pipe carries, where it need not wait.
use cs58_yalnix.Base.{
  ℕ, ◌+◌, ◌-◌, ◌≤◌, ◌<◌, ◌≡◌, refl, ap, true, false, if◌then◌else◌, ltb, ◌==◌, some, List, ◌++◌,
  arith, ==_refl, All,
}
use cs58_yalnix.Base.Int.{ℤ, pos, ltb_ℤ}
use cs58_yalnix.Base.Alloc
use cs58_yalnix.Kernel.{
  Kernel, IpcWrapper, Pipe, Pcb, ok, pop_blocked, returned, Outcome, malloc, update,
}
use cs58_yalnix.Kernel.Ensures.{Returns, Returns-bind, Runs, IsLive, current_pid_lem}
use cs58_yalnix.Set
use cs58_yalnix.Ipc.Pipes.Stream.{bytes, bytes-taken}
use cs58_yalnix.Ipc.Pipes.Transfer.{live_pipe_lem, find_assigned, Carries, bad_buffer_lem}
use cs58_yalnix.Kernel.Memory.{check_memory_validity, get_raw_page_no}
use cs58_yalnix.Ipc.{with_wrapper-some}
use cs58_yalnix.Ipc.Pipes.Read.{
  copied_out, shifted, take_bytes, wake_writers, wake_next_reader, finish_read, is_empty, read_loop,
  min_ℤ, note_reader, read_found, pipe_read,
}
use cs58_yalnix.Ipc.Pipes.Serving.{Serving, wake_writers-Serving, wake_next_reader-Serving}

min_lem :
    (n t rest : ℕ)
    → t ≡ (if ltb n (t + rest) then n else t + rest)
    → min_ℤ (pos n) (pos (t + rest)) ≡ pos t
min_lem n t rest h = ground arith

left_lem : (t rest : ℕ) → pos (t + rest - t) ≡ pos rest
left_lem t rest = ap pos (omega arith)

not_empty : (t rest : ℕ) → 0 < t + rest → ltb_ℤ (pos (t + rest)) (pos 1) ≡ false
not_empty t rest h = ground arith

user_at : (mem : ℕ → ℕ → ℕ) (table : ℕ) (f : ℕ → ℕ) → update mem table f table ≡ f
user_at mem table f = rw (==_refl table) refl

module _ (k : Kernel) (w : IpcWrapper) (id : ℤ) (pipe : Pipe) (t rest buf table : ℕ) where
  -- The pipe once the bytes are out.
  abbrev drained : Pipe
  drained = record pipe {
    buffer = shifted pipe.buffer k.hardware.pipe_buffer_len t;
    num_bytes_available = pos rest;
  }

  abbrev delivered : ℕ → ℕ → ℕ
  delivered = update k.user_mem table (copied_out (k.user_mem table) t pipe.buffer buf)

  abbrev after_take : Kernel
  after_take = record k {
    user_mem = delivered;
    mem = Alloc.rest k.mem;
    ipc_wrapper = some (record w { pipes = Set.assign w.pipes id drained });
  }

  take_bytes_lem :
      k.ptbr1 ≡ some table
      → k.mem 0 ≡ true
      → take_bytes id buf w pipe (pos (t + rest)) (pos t) k ≡ ok tt after_take
  unfolding take_bytes malloc
  take_bytes_lem space room = rw (space, room, left_lem t rest)

  after_take-Serving :
      Set.find w.pipes id ≡ some pipe
      → All (IsLive k) pipe.readers.items
      → All (λ node. IsLive k node.1) pipe.writers.nodes
      → Serving id
          (bytes (shifted pipe.buffer k.hardware.pipe_buffer_len t) rest)
          delivered
          after_take
  after_take-Serving found readers writers = record {
    wrapper = record w { pipes = Set.assign w.pipes id drained };
    kept = refl;
    pipe = drained;
    found = find_assigned id w pipe drained found;
    size = rest;
    counted = refl;
    holds = refl;
    users = refl;
    readers = readers;
    writers = writers;
  }

-- The bytes that the caller got, followed by what the pipe still carries, are the old contents.
abbrev pub Delivers : (id : ℤ) (old : List ℕ) (table buf t : ℕ) → Outcome → Kernel → Type 0
Delivers id old table buf t rc k' =
    (rc ≡ returned (pos 0))
    × ((left : List ℕ) × Carries id left k'
        × (old ≡ bytes (λ i. k'.user_mem table (buf + i)) t ++ left))

Serving-Carries :
    {id : ℤ} {content : List ℕ} {user : ℕ → ℕ → ℕ} {k : Kernel}
    → Serving id content user k
    → Carries id content k
Serving-Carries c = record {
  wrapper = c.wrapper;
  kept = c.kept;
  pipe = c.pipe;
  found = c.found;
  size = c.size;
  counted = c.counted;
  holds = c.holds;
}

module _ (k : Kernel) (p : ℕ) (v : Pcb) (r : Runs k p v) (w : IpcWrapper) (id : ℤ) (pipe : Pipe)
    (n t rest buf table : ℕ) (e : k.ipc_wrapper ≡ some w) (found : Set.find w.pipes id ≡ some pipe)
    (counted : pipe.num_bytes_available ≡ pos (t + rest))
    (share : t ≡ (if ltb n (t + rest) then n else t + rest))
    (fits : t + rest ≤ k.hardware.pipe_buffer_len) (readers : All (IsLive k) pipe.readers.items)
    (writers : All (λ node. IsLive k node.1) pipe.writers.nodes) (space : k.ptbr1 ≡ some table)
    (room : k.mem 0 ≡ true) where
  abbrev unblocked : Kernel
  unblocked = record k { blocked_pcbs = (Set.pop k.blocked_pcbs v.pid).1 }

  Serving-Delivers :
      (k' : Kernel)
      → Serving id
          (bytes (shifted pipe.buffer k.hardware.pipe_buffer_len t) rest)
          (delivered unblocked w id pipe t rest buf table)
          k'
      → Delivers id (bytes pipe.buffer (t + rest)) table buf t (returned (pos 0)) k'
  Serving-Delivers k' c = (
    refl,
    (
      _,
      Serving-Carries c,
      rw (c.users, user_at k.user_mem table (copied_out (k.user_mem table) t pipe.buffer buf))
          (bytes-taken pipe.buffer (k.user_mem table) k.hardware.pipe_buffer_len t buf rest fits),
    ),
  )

  finish_read-Delivers :
      Returns
        (Delivers id (bytes pipe.buffer (t + rest)) table buf t)
        (finish_read id buf (pos n) k)
  unfolding finish_read pop_blocked
  finish_read-Delivers =
      rw
        (
          current_pid_lem r,
          live_pipe_lem id unblocked w pipe e found,
          counted,
          min_lem n t rest share,
          take_bytes_lem unblocked w id pipe t rest buf table space room,
        )
        (Returns-bind (λ _. Serving id _ (delivered unblocked w id pipe t rest buf table)) _
          (wake_next_reader id (after_take unblocked w id pipe t rest buf table)) _
          (wake_next_reader-Serving id _ _ _
            (after_take-Serving unblocked w id pipe t rest buf table found readers writers))
          (λ _ k' c. rw (live_pipe_lem id k' c.wrapper c.pipe c.kept c.found) (
            Returns-bind (λ _. Serving id _ _) _ (wake_writers c.pipe.writers.nodes k') _
              (wake_writers-Serving id _ _ c.pipe.writers.nodes k' c c.writers)
              (λ _ k'' d. Serving-Delivers k'' d))))

  not_empty_lem : 0 < t + rest → is_empty pipe ≡ false
  not_empty_lem some_bytes = rw counted (not_empty t rest some_bytes)

  -- A read by a running process into a valid buffer of region 1, from a pipe that holds bytes,
  -- returns without blocking, with 0 and not with the number of bytes, where there is memory and
  -- nobody that waits has been freed. It
  -- moves as many bytes as asked for, or all that there are if these are fewer: the caller's buffer
  -- then holds the first of them, in order, and the pipe carries the others.
  pub pipe_read-Delivers :
      0 < t + rest
      → (buf == 0) ≡ false
      → check_memory_validity buf k ≡ ok true k
      → ltb (get_raw_page_no k.hardware buf) 128 ≡ false
      → Returns
          (Delivers id (bytes pipe.buffer (t + rest)) table buf t)
          (pipe_read id buf (pos n) k)
  unfolding pipe_read read_found note_reader read_loop
  pipe_read-Delivers some_bytes given valid user =
      rw
        (
          with_wrapper-some _ _ k e,
          found,
          given,
          bad_buffer_lem k buf valid user,
          not_empty_lem some_bytes,
          live_pipe_lem id k w pipe e found,
          not_empty_lem some_bytes,
        )
        finish_read-Delivers
