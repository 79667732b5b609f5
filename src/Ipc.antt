-- ===== src/Ipc.antt =====
-- src/datastructures/ipc_wrapper.c: what its operations share. A lock, condition variable or pipe
-- is owned by the set that holds it, so a write through its pointer overwrites it in the set.
pub mod Locks
pub mod Cvars
pub mod Pipes
pub mod Reclaim
pub mod Invariant
pub mod Preserve
pub mod Calls
use cs58_yalnix.Base.{ℕ, Bool, Option, none, some, ◌≡◌, ◌∙◌, ap, arith, if◌then◌else◌}
use cs58_yalnix.Base.Int.{ℤ, pos, negsuc}
use cs58_yalnix.Kernel.{
  Kernel, IpcWrapper, Lock, Cvar, Pipe, M, Res, ok, pure, crash, ◌>>=◌, bind_res, malloc,
}
use cs58_yalnix.Set
use cs58_yalnix.Set.{Set}
use cs58_yalnix.Queue
use cs58_yalnix.Queue.{Queue}

abbrev pub error : ℤ
error = negsuc 0

-- MAX_LOCKS, MAX_CVARS and MAX_PIPES.
abbrev pub max_objects : ℤ
max_objects = pos 16

-- The guard `ipc_wrapper == NULL` of every operation.
abbrev pub with_wrapper : {A : Type 0} → A → (IpcWrapper → M A) → M A
with_wrapper a f k = elim k.ipc_wrapper [ none ↦ ok a k | some w ↦ f w k ]

abbrev pub put_wrapper : IpcWrapper → M (Unit {0})
put_wrapper w k = ok tt (record k { ipc_wrapper = some w })

-- Assignments to the object with this id.
abbrev pub put_lock : IpcWrapper → ℤ → Lock → M (Unit {0})
put_lock w id l = put_wrapper (record w { locks = Set.assign w.locks id l })

abbrev pub put_cvar : IpcWrapper → ℤ → Cvar → M (Unit {0})
put_cvar w id c = put_wrapper (record w { cvars = Set.assign w.cvars id c })

abbrev pub put_pipe : IpcWrapper → ℤ → Pipe → M (Unit {0})
put_pipe w id p = put_wrapper (record w { pipes = Set.assign w.pipes id p })

unfoldable pub new_queue : M (Option (Queue ℕ))
new_queue k = let (q, m) = Queue.new k.mem in ok q (record k { mem = m })

unfoldable pub new_set : {A : Type 0} → M (Option (Set A))
new_set k = let (s, m) = Set.new k.mem in ok s (record k { mem = m })

init_pipes : Set Lock → Set Cvar → Option (Set Pipe) → Option IpcWrapper
init_pipes locks cvars none = none
init_pipes locks cvars (some pipes) =
    some (record { next_ipc_id = pos 0; locks = locks; cvars = cvars; pipes = pipes })

init_cvars : Set Lock → Option (Set Cvar) → M (Option IpcWrapper)
unfolding init_pipes
init_cvars locks none = pure none
init_cvars locks (some cvars) = do pipes ← new_set; pure (init_pipes locks cvars pipes)

init_locks : Option (Set Lock) → M (Option IpcWrapper)
unfolding init_cvars
init_locks none = pure none
init_locks (some locks) = do cvars ← new_set; init_cvars locks cvars

-- `ipc_wrapper_init`: four allocations, each with its early return.
unfoldable pub ipc_wrapper_init : M (Option IpcWrapper)
unfolding init_locks
ipc_wrapper_init = do
  got ← malloc
  if got then (do locks ← new_set; init_locks locks) else pure none

module _ {A : Type 0} (a : A) (f : IpcWrapper → M A) (k : Kernel) where
  abbrev wrapper_case : Option IpcWrapper → Res A
  wrapper_case none = ok a k
  wrapper_case (some w) = f w k

  with_wrapper-case : with_wrapper a f k ≡ wrapper_case k.ipc_wrapper
  with_wrapper-case = ground arith

  -- An operation goes on with the wrapper, or returns its error where there is none.
  pub with_wrapper-some : {w : IpcWrapper} → k.ipc_wrapper ≡ some w → with_wrapper a f k ≡ f w k
  with_wrapper-some e = with_wrapper-case ∙ ap wrapper_case e

  pub with_wrapper-none : k.ipc_wrapper ≡ none → with_wrapper a f k ≡ ok a k
  with_wrapper-none e = with_wrapper-case ∙ ap wrapper_case e
