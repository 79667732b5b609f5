-- ===== src/Ipc/Calls.antt =====
-- The calls on locks and condition variables, `pipe_new` and `ipc_wrapper_init` against the
-- invariant of the wrapper.
use cs58_yalnix.Base.{◌&&◌, ◌↔◌, ◌≡◌, refl, true, false, none, some, arith, inl, inr, Bool-cases}
use cs58_yalnix.Base.Int.{ℤ, pos, ltb_ℤ, int_max}
use cs58_yalnix.Kernel.{Kernel, Res, M, bind_res, ◌>>◌, pure, malloc, IpcWrapper}
use cs58_yalnix.Kernel.Ensures.{Returns, Ensures, Ensures-bind}
use cs58_yalnix.Set
use cs58_yalnix.Set.{Set}
use cs58_yalnix.Ipc.{new_set}
use cs58_yalnix.Ipc.Invariant.{IsValid}
use cs58_yalnix.Ipc.Preserve.{IsValidIpc, After}
use cs58_yalnix.Set.Invariant.{empty-IsWf}
use cs58_yalnix.Ipc.{ipc_wrapper_init, init_locks}
use cs58_yalnix.Ipc.Invariant.{Holds}
use cs58_yalnix.Ipc.Locks.{lock_new, lock_acquire, lock_release}
use cs58_yalnix.Ipc.Locks.Preserve.{lock_new-IsValid, lock_acquire-IsUsable, lock_release-IsUsable}
use cs58_yalnix.Ipc.Cvars.{cvar_new, cvar_signal, cvar_broadcast, cvar_wait}
use cs58_yalnix.Ipc.Cvars.Preserve.{
  cvar_new-IsValid, cvar_signal-IsUsable, cvar_broadcast-IsUsable, cvar_wait-IsUsable,
}
use cs58_yalnix.Ipc.Pipes.{pipe_new}
use cs58_yalnix.Ipc.Pipes.Preserve.{pipe_new-IsValid}
use cs58_yalnix.Ipc.Preserve.{Still-After}

-- The calls, with the ids that they are given.
pub data Call : Type 0 where
  lock_init cvar_init pipe_init : Call
  acquire release signal broadcast : (id : ℤ) → Call
  wait : (id lock_id : ℤ) → Call

-- A call's kernel afterwards, without its result.
unfoldable pub run : Call → M (Unit {0})
run lock_init = lock_new >> pure tt
run cvar_init = cvar_new >> pure tt
run pipe_init = pipe_new >> pure tt
run (acquire id) = lock_acquire id >> pure tt
run (release id) = lock_release id >> pure tt
run (signal id) = cvar_signal id >> pure tt
run (broadcast id) = cvar_broadcast id >> pure tt
run (wait id lock_id) = cvar_wait id lock_id >> pure tt

forget :
    {A : Type 0} (r : Res A) → Ensures (After {A = A}) r → Ensures After (bind_res r (λ _. pure tt))
forget r h = Ensures-bind After After r (λ _. pure tt) h (λ a k u. u)

run_with-IsValid :
    (w : IpcWrapper)
    → IsValid w
    → ltb_ℤ w.next_ipc_id (pos int_max) ≡ true
    → (c : Call) (k : Kernel) → k.ipc_wrapper ≡ some w
    → Ensures After (run c k)
unfolding run
run_with-IsValid w v room lock_init k e = forget (lock_new k) (lock_new-IsValid w v room k e)
run_with-IsValid w v room cvar_init k e = forget (cvar_new k) (cvar_new-IsValid w v room k e)
run_with-IsValid w v room pipe_init k e = forget (pipe_new k) (pipe_new-IsValid w v room k e)
run_with-IsValid w v room (acquire id) k e =
    forget (lock_acquire id k) (Still-After _ (lock_acquire-IsUsable w v room id k e))
run_with-IsValid w v room (release id) k e =
    forget (lock_release id k) (Still-After _ (lock_release-IsUsable w v room id k e))
run_with-IsValid w v room (signal id) k e =
    forget (cvar_signal id k) (Still-After _ (cvar_signal-IsUsable w v room id k e))
run_with-IsValid w v room (broadcast id) k e =
    forget (cvar_broadcast id k) (Still-After _ (cvar_broadcast-IsUsable w v room id k e))
run_with-IsValid w v room (wait id lock_id) k e =
    forget (cvar_wait id lock_id k) (Still-After _ (cvar_wait-IsUsable w v room id lock_id k e))

-- Every call on a lock or a condition variable, and every `pipe_new`, leaves a well-formed wrapper
-- well-formed while ids are left, with whatever result it returns: at most 16 objects of each kind,
-- counted right, with ids below the next one that no two objects share, of one kind or of two. A
-- call that reads through a NULL pointer or a freed block does not return.
pub run-IsValid :
    (c : Call) (k : Kernel) (w : IpcWrapper)
    → k.ipc_wrapper ≡ some w
    → IsValid w
    → ltb_ℤ w.next_ipc_id (pos int_max) ≡ true
    → Ensures After (run c k)
run-IsValid c k w e v room = run_with-IsValid w v room c k e

empty-Holds : {A : Type 0} → Holds {A = A} (pos 0) Set.empty
empty-Holds = record { wf = empty-IsWf; bounded = omega arith; below = λ id h. cc }

abbrev pub fresh_wrapper : IpcWrapper
fresh_wrapper = record {
  next_ipc_id = pos 0;
  locks = Set.empty;
  cvars = Set.empty;
  pipes = Set.empty;
}

pub fresh_wrapper-IsValid : IsValid fresh_wrapper
fresh_wrapper-IsValid = record {
  next = refl;
  locks = empty-Holds;
  cvars = empty-Holds;
  pipes = empty-Holds;
  locks_cvars = λ id. refl;
  locks_pipes = λ id. refl;
  cvars_pipes = λ id. refl;
}

-- `ipc_wrapper_init` always returns. It returns a well-formed wrapper where its four allocations
-- succeed, and NULL where one fails.
pub ipc_wrapper_init-IsValid :
    (k : Kernel)
    → Returns
        (λ o _. IsValidIpc o × ((o ≡ none) ↔ ((k.mem 0 && k.mem 1 && k.mem 2 && k.mem 3) ≡ false)))
        (ipc_wrapper_init k)
unfolding ipc_wrapper_init init_locks malloc new_set Set.new
ipc_wrapper_init-IsValid k = elim (Bool-cases (k.mem 0)) [
  | inr fails ↦ rw fails (tt, ((λ e. refl), λ e. refl))
  | inl m ↦ rw m (elim (Bool-cases (k.mem 1)) [
    | inr fails ↦ rw fails (tt, ((λ e. refl), λ e. refl))
    | inl m' ↦ rw m' (elim (Bool-cases (k.mem 2)) [
      | inr fails ↦ rw fails (tt, ((λ e. refl), λ e. refl))
      | inl m'' ↦ rw m'' (elim (Bool-cases (k.mem 3)) [
        | inr fails ↦ rw fails (tt, ((λ e. refl), λ e. refl))
        | inl m''' ↦ rw m''' (fresh_wrapper-IsValid, ((λ e. cc), λ e. cc))
      ])
    ])
  ])
]
