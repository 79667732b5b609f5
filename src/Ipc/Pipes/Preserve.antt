-- ===== src/Ipc/Pipes/Preserve.antt =====
-- `pipe_new` against the invariant of the wrapper.
use cs58_yalnix.Base.{ℕ, ◌≡◌, true, false, Option, none, some, inl, inr, Bool-cases}
use cs58_yalnix.Base.Int.{pos, ltb_ℤ, leb_ℤ, int_max}
use cs58_yalnix.Base.Alloc.{rest}
use cs58_yalnix.Kernel.{Kernel, malloc, IpcWrapper}
use cs58_yalnix.Kernel.Ensures.{Ensures}
use cs58_yalnix.Queue
use cs58_yalnix.Queue.{Queue}
use cs58_yalnix.Set
use cs58_yalnix.Set.{Set}
use cs58_yalnix.Ipc.{max_objects, new_queue, new_set, with_wrapper-some}
use cs58_yalnix.Ipc.Invariant.{IsValid, inserted, pipe_step-IsValid}
use cs58_yalnix.Ipc.Preserve.{After, valid_at}
use cs58_yalnix.Ipc.Pipes.{pipe_new, allocate_pipe, allocate_writers, allocate_buffer, insert_pipe}

module _ (w : IpcWrapper) (v : IsValid w) (room : ltb_ℤ w.next_ipc_id (pos int_max) ≡ true)
    (few : leb_ℤ max_objects w.pipes.node_count ≡ false) where
  allocate_buffer-IsValid :
      (readers : Queue ℕ) (writers : Option (Set ℕ)) (k : Kernel)
      → k.ipc_wrapper ≡ some w
      → Ensures After (allocate_buffer w readers writers k)
  unfolding allocate_buffer insert_pipe malloc
  allocate_buffer-IsValid readers none k e = valid_at e v
  allocate_buffer-IsValid readers (some writers) k e = elim (Bool-cases (k.mem 0)) [
    | inl got ↦ rw got (pipe_step-IsValid v room (inserted _ _ few))
    | inr fails ↦ rw fails (valid_at e v)
  ]

  allocate_writers-IsValid :
      (readers : Option (Queue ℕ)) (k : Kernel)
      → k.ipc_wrapper ≡ some w
      → Ensures After (allocate_writers w readers k)
  unfolding allocate_writers new_set
  allocate_writers-IsValid none k e = valid_at e v
  allocate_writers-IsValid (some readers) k e =
      allocate_buffer-IsValid readers (Set.new k.mem).0
        (record k { mem = (Set.new {A = ℕ} k.mem).1 }) e

  allocate_pipe-IsValid : (k : Kernel) → k.ipc_wrapper ≡ some w → Ensures After (allocate_pipe w k)
  unfolding allocate_pipe malloc new_queue
  allocate_pipe-IsValid k e = elim (Bool-cases (k.mem 0)) [
    | inl got ↦ rw got (
        allocate_writers-IsValid (Queue.new (rest k.mem)).0
          (record k { mem = (Queue.new {A = ℕ} (rest k.mem)).1 }) e)
    | inr fails ↦ rw fails (valid_at e v)
  ]

pub pipe_new-IsValid :
    (w : IpcWrapper)
    → IsValid w
    → ltb_ℤ w.next_ipc_id (pos int_max) ≡ true
    → (k : Kernel) → k.ipc_wrapper ≡ some w
    → Ensures After (pipe_new k)
unfolding pipe_new
pipe_new-IsValid w v room k e =
    rw (with_wrapper-some _ _ k e) (elim (Bool-cases (leb_ℤ max_objects w.pipes.node_count)) [
      | inl full ↦ rw full (valid_at e v)
      | inr few ↦ rw few (allocate_pipe-IsValid w v room few k e)
    ])
