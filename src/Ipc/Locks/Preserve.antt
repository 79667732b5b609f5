-- ===== src/Ipc/Locks/Preserve.antt =====
-- `lock_new`, `lock_acquire` and `lock_release` against the invariant of the wrapper.
use cs58_yalnix.Base.{ℕ, ◌≡◌, refl, true, false, Option, none, some, inl, inr, Bool-cases}
use cs58_yalnix.Base.Int.{ℤ, pos, ◌==ℤ◌, ltb_ℤ, leb_ℤ, int_suc, int_max}
use cs58_yalnix.Kernel.{Kernel, load, current, current_pid, malloc, IpcWrapper, Lock}
use cs58_yalnix.Kernel.Ensures.{Ensures}
use cs58_yalnix.Queue.{Queue}
use cs58_yalnix.Set
use cs58_yalnix.Set.{Set}
use cs58_yalnix.Ipc.{max_objects, new_queue, with_wrapper-some}
use cs58_yalnix.Ipc.Invariant.{IsValid, assigned, bumped, inserted, lock_step-IsValid}
use cs58_yalnix.Ipc.Locks.{
  lock_new, allocate_lock, insert_lock, lock_acquire, acquire_found, wait_for_lock, lock_release,
  release_found, hand_over, unlocked,
}
use cs58_yalnix.Ipc.Preserve.{
  After, deref-Reads, current_pid-Reads, after_read, valid_at, IsUsable, Still, IsUsable-at,
}

module _ (w : IpcWrapper) (v : IsValid w) (room : ltb_ℤ w.next_ipc_id (pos int_max) ≡ true) where
  insert_lock-IsValid :
      (q : Option (Queue ℕ)) (k : Kernel)
      → leb_ℤ max_objects w.locks.node_count ≡ false
      → k.ipc_wrapper ≡ some (record w { next_ipc_id = int_suc w.next_ipc_id })
      → Ensures After
          (insert_lock (record w { next_ipc_id = int_suc w.next_ipc_id }) w.next_ipc_id q k)
  unfolding insert_lock
  insert_lock-IsValid none k few e = valid_at e (lock_step-IsValid v room bumped)
  insert_lock-IsValid (some q) k few e = lock_step-IsValid v room (inserted _ _ few)

  pub lock_new-IsValid : (k : Kernel) → k.ipc_wrapper ≡ some w → Ensures After (lock_new k)
  unfolding lock_new allocate_lock malloc new_queue
  lock_new-IsValid k e =
      rw (with_wrapper-some _ _ k e) (elim (Bool-cases (leb_ℤ max_objects w.locks.node_count)) [
        | inl full ↦ rw full (valid_at e v)
        | inr few ↦ rw few (elim (Bool-cases (k.mem 0)) [
          | inl got ↦ rw got (insert_lock-IsValid _ _ few refl)
          | inr fails ↦ rw fails (valid_at e v)
        ])
      ])

  assign_lock-IsUsable :
      (id : ℤ) (lock : Lock) → IsUsable (some (record w { locks = Set.assign w.locks id lock }))
  assign_lock-IsUsable id lock = (lock_step-IsValid v room (assigned id lock), room)

  wait_for_lock-IsUsable :
      (id : ℤ) (lock : Lock) (k : Kernel) → Ensures Still (wait_for_lock w id lock k)
  unfolding wait_for_lock
  wait_for_lock-IsUsable id lock k =
      after_read Still current _ k (deref-Reads k.current_process k) λ p. assign_lock-IsUsable id _

  acquire_found-IsUsable :
      (id : ℤ) (found : Option Lock) (k : Kernel)
      → k.ipc_wrapper ≡ some w
      → Ensures Still (acquire_found w id found k)
  unfolding acquire_found
  acquire_found-IsUsable id none k e = IsUsable-at e v room
  acquire_found-IsUsable id (some lock) k e =
      after_read Still current_pid _ k (current_pid-Reads k) λ pid.
        elim (Bool-cases (lock.owner ==ℤ unlocked)) [
          | inl open_lock ↦ rw open_lock (assign_lock-IsUsable id _)
          | inr held ↦ rw held (elim (Bool-cases (lock.owner ==ℤ pid)) [
            | inl own ↦ rw own (IsUsable-at e v room)
            | inr other ↦ rw other (wait_for_lock-IsUsable id lock k)
          ])
        ]

  pub lock_acquire-IsUsable :
      (id : ℤ) (k : Kernel) → k.ipc_wrapper ≡ some w → Ensures Still (lock_acquire id k)
  unfolding lock_acquire
  lock_acquire-IsUsable id k e =
      rw (with_wrapper-some _ _ k e) (acquire_found-IsUsable id (Set.find w.locks id) k e)

  hand_over-IsUsable :
      (id : ℤ) (lock : Lock) (popped : Option ℕ × Queue ℕ) (k : Kernel)
      → Ensures Still (hand_over w id lock popped k)
  unfolding hand_over
  hand_over-IsUsable id lock (none, q) k = assign_lock-IsUsable id _
  hand_over-IsUsable id lock (some p, q) k =
      after_read Still (load p) _ k (deref-Reads (k.pcbs p) k) λ u. assign_lock-IsUsable id _

  release_found-IsUsable :
      (id : ℤ) (found : Option Lock) (k : Kernel)
      → k.ipc_wrapper ≡ some w
      → Ensures Still (release_found w id found k)
  unfolding release_found
  release_found-IsUsable id none k e = IsUsable-at e v room
  release_found-IsUsable id (some lock) k e =
      after_read Still current_pid _ k (current_pid-Reads k) λ pid.
        elim (Bool-cases (pid ==ℤ lock.owner)) [
          | inl own ↦ rw own (hand_over-IsUsable id lock _ k)
          | inr other ↦ rw other (IsUsable-at e v room)
        ]

  pub lock_release-IsUsable :
      (id : ℤ) (k : Kernel) → k.ipc_wrapper ≡ some w → Ensures Still (lock_release id k)
  unfolding lock_release
  lock_release-IsUsable id k e =
      rw (with_wrapper-some _ _ k e) (release_found-IsUsable id (Set.find w.locks id) k e)
