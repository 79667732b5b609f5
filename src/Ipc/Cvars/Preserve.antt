-- ===== src/Ipc/Cvars/Preserve.antt =====
-- `cvar_new`, `cvar_signal`, `cvar_broadcast` and `cvar_wait` against the invariant of the wrapper.
use cs58_yalnix.Base.{
  ℕ, zero, suc, ◌+◌, ◌≡◌, refl, true, false, Option, none, some, List, [], inl, inr, Bool-cases,
  length, subst, sym,
}
use cs58_yalnix.Base.Int.{ℤ, pos, ◌==ℤ◌, ltb_ℤ, leb_ℤ, int_suc, int_max}
use cs58_yalnix.Base.Alloc.{rest}
use cs58_yalnix.Kernel.{Kernel, ◌>>◌, pure, load, current, malloc, IpcWrapper, Cvar}
use cs58_yalnix.Kernel.Ensures.{Ensures, Ensures-bind}
use cs58_yalnix.Queue
use cs58_yalnix.Queue.{Queue}
use cs58_yalnix.Set
use cs58_yalnix.Set.{Set}
use cs58_yalnix.Ipc.{
  error, max_objects, with_wrapper, new_queue, put_cvar, with_wrapper-none, with_wrapper-some,
}
use cs58_yalnix.Ipc.Invariant.{IsValid, assigned, bumped, inserted, cvar_step-IsValid}
use cs58_yalnix.Ipc.Preserve.{
  After, Reads, deref-Reads, after_read, valid_at, IsUsable, Still, IsUsable-at,
}
use cs58_yalnix.Ipc.Locks.{lock_release}
use cs58_yalnix.Ipc.Locks.Preserve.{lock_release-IsUsable}
use cs58_yalnix.Ipc.Cvars.{
  cvar_new, allocate_cvar, insert_cvar, cvar_signal, signal_found, signal_popped, broadcast_loop,
  broadcast_popped, broadcast_found, cvar_broadcast, join_found, join_cvar, wait_found, cvar_wait,
}

module _ (w : IpcWrapper) (v : IsValid w) (room : ltb_ℤ w.next_ipc_id (pos int_max) ≡ true) where
  insert_cvar-IsValid :
      (q : Option (Queue ℕ)) (k : Kernel)
      → leb_ℤ max_objects w.cvars.node_count ≡ false
      → k.ipc_wrapper ≡ some (record w { next_ipc_id = int_suc w.next_ipc_id })
      → Ensures After
          (insert_cvar (record w { next_ipc_id = int_suc w.next_ipc_id }) w.next_ipc_id q k)
  unfolding insert_cvar
  insert_cvar-IsValid none k few e = valid_at e (cvar_step-IsValid v room bumped)
  insert_cvar-IsValid (some q) k few e = cvar_step-IsValid v room (inserted _ _ few)

  pub cvar_new-IsValid : (k : Kernel) → k.ipc_wrapper ≡ some w → Ensures After (cvar_new k)
  unfolding cvar_new allocate_cvar malloc new_queue
  cvar_new-IsValid k e =
      rw (with_wrapper-some _ _ k e) (elim (Bool-cases (leb_ℤ max_objects w.cvars.node_count)) [
        | inl full ↦ rw full (valid_at e v)
        | inr few ↦ rw few (elim (Bool-cases (k.mem 0)) [
          | inl got ↦ rw got (insert_cvar-IsValid _ _ few refl)
          | inr fails ↦ rw fails (valid_at e v)
        ])
      ])

  assign_cvar-IsUsable :
      (id : ℤ) (cvar : Cvar) → IsUsable (some (record w { cvars = Set.assign w.cvars id cvar }))
  assign_cvar-IsUsable id cvar = (cvar_step-IsValid v room (assigned id cvar), room)

  signal_popped-IsUsable :
      (id : ℤ) (cvar : Cvar) (popped : Option ℕ × Queue ℕ) (k : Kernel)
      → k.ipc_wrapper ≡ some w
      → Ensures Still (signal_popped w id cvar popped k)
  unfolding signal_popped
  signal_popped-IsUsable id cvar (none, q) k e = IsUsable-at e v room
  signal_popped-IsUsable id cvar (some p, q) k e =
      let w' = record w { cvars = Set.assign w.cvars id (record cvar { waiters = q }) } in
      after_read Still (load p) (λ u. pure u.pid) (record k { ipc_wrapper = some w' })
        (deref-Reads (k.pcbs p) (record k { ipc_wrapper = some w' }))
        λ u. assign_cvar-IsUsable id (record cvar { waiters = q })

  signal_found-IsUsable :
      (id : ℤ) (found : Option Cvar) (k : Kernel)
      → k.ipc_wrapper ≡ some w
      → Ensures Still (signal_found w id found k)
  unfolding signal_found
  signal_found-IsUsable id none k e = IsUsable-at e v room
  signal_found-IsUsable id (some cvar) k e = signal_popped-IsUsable id cvar _ k e

  pub cvar_signal-IsUsable :
      (id : ℤ) (k : Kernel) → k.ipc_wrapper ≡ some w → Ensures Still (cvar_signal id k)
  unfolding cvar_signal
  cvar_signal-IsUsable id k e =
      rw (with_wrapper-some _ _ k e) (signal_found-IsUsable id (Set.find w.cvars id) k e)

  broadcast_loop-Reads :
      (fuel i : ℕ) (pids : List ℤ) (popped : Option ℕ × Queue ℕ)
      → Reads (broadcast_loop fuel i pids popped)
  unfolding broadcast_loop
  broadcast_loop-Reads zero i pids (none, q) k = refl
  broadcast_loop-Reads (suc fuel) i pids (none, q) k = refl
  broadcast_loop-Reads zero i pids (some p, q) k = tt
  broadcast_loop-Reads (suc fuel) i pids (some p, q) k = elim (Bool-cases (leb_ℤ q.count (pos i))) [
    | inl stop ↦ rw stop refl
    | inr go ↦ rw go (
        after_read (λ _ k'. k' ≡ k) (load p) _ k (deref-Reads (k.pcbs p) k)
          λ u. broadcast_loop-Reads fuel (i + 1) _ _ k)
  ]

  broadcast_popped-IsUsable :
      (id : ℤ) (cvar : Cvar) (popped : Option ℕ × Queue ℕ) (k : Kernel)
      → k.ipc_wrapper ≡ some w
      → Ensures Still (broadcast_popped w id cvar popped k)
  unfolding broadcast_popped
  broadcast_popped-IsUsable id cvar (none, q) k e = IsUsable-at e v room
  broadcast_popped-IsUsable id cvar (some p, q) k e =
      after_read Still (broadcast_loop (length q.items + 1) 0 [] (some p, q))
        (λ (pids, q'). put_cvar w id (record cvar { waiters = q' }) >> pure pids) k
        (broadcast_loop-Reads (length q.items + 1) 0 [] (some p, q) k)
        λ (pids, q'). assign_cvar-IsUsable id (record cvar { waiters = q' })

  broadcast_found-IsUsable :
      (id : ℤ) (found : Option Cvar) (k : Kernel)
      → k.ipc_wrapper ≡ some w
      → Ensures Still (broadcast_found w id found k)
  unfolding broadcast_found malloc
  broadcast_found-IsUsable id none k e = IsUsable-at e v room
  broadcast_found-IsUsable id (some cvar) k e = elim (Bool-cases (k.mem 0)) [
    | inl got ↦ rw got (
        broadcast_popped-IsUsable id cvar (Queue.pop cvar.waiters) (record k { mem = rest k.mem })
          e)
    | inr fails ↦ rw fails (IsUsable-at e v room)
  ]

  pub cvar_broadcast-IsUsable :
      (id : ℤ) (k : Kernel) → k.ipc_wrapper ≡ some w → Ensures Still (cvar_broadcast id k)
  unfolding cvar_broadcast
  cvar_broadcast-IsUsable id k e =
      rw (with_wrapper-some _ _ k e) (broadcast_found-IsUsable id (Set.find w.cvars id) k e)

  join_found-IsUsable :
      (id status : ℤ) (p : ℕ) (found : Option Cvar) (k : Kernel)
      → Ensures Still (join_found id status p w found k)
  unfolding join_found
  join_found-IsUsable id status p none k = tt
  join_found-IsUsable id status p (some cvar) k = assign_cvar-IsUsable id _

-- Joining the queue after `lock_release`, which keeps the wrapper usable.
join_at-IsUsable :
    (o : Option IpcWrapper) (id status : ℤ) (p : ℕ) (k : Kernel)
    → k.ipc_wrapper ≡ o
    → IsUsable o
    → Ensures Still (with_wrapper error (λ w. join_found id status p w (Set.find w.cvars id)) k)
join_at-IsUsable none id status p k e u = rw (with_wrapper-none _ _ k e) (subst IsUsable (sym e) tt)
join_at-IsUsable (some w) id status p k e u =
    rw (with_wrapper-some _ _ k e)
      (join_found-IsUsable w u.0 u.1 id status p (Set.find w.cvars id) k)

join_cvar-IsUsable :
    (id status : ℤ) (k : Kernel) → IsUsable k.ipc_wrapper → Ensures Still (join_cvar id status k)
unfolding join_cvar
join_cvar-IsUsable id status k u =
    after_read Still current _ k (deref-Reads k.current_process k)
      λ p. join_at-IsUsable k.ipc_wrapper id status p k refl u

module _ (w : IpcWrapper) (v : IsValid w) (room : ltb_ℤ w.next_ipc_id (pos int_max) ≡ true) where
  wait_found-IsUsable :
      (id lock_id : ℤ) (found : Option Cvar) (k : Kernel)
      → k.ipc_wrapper ≡ some w
      → Ensures Still (wait_found id lock_id found k)
  unfolding wait_found
  wait_found-IsUsable id lock_id none k e = IsUsable-at e v room
  wait_found-IsUsable id lock_id (some cvar) k e =
      Ensures-bind Still Still (lock_release lock_id k) _
        (lock_release-IsUsable w v room lock_id k e)
        λ status k' u. elim (Bool-cases (status ==ℤ error)) [
          | inl failed ↦ rw failed u
          | inr done ↦ rw done (join_cvar-IsUsable id status k' u)
        ]

  pub cvar_wait-IsUsable :
      (id lock_id : ℤ) (k : Kernel)
      → k.ipc_wrapper ≡ some w
      → Ensures Still (cvar_wait id lock_id k)
  unfolding cvar_wait
  cvar_wait-IsUsable id lock_id k e =
      rw (with_wrapper-some _ _ k e) (wait_found-IsUsable id lock_id (Set.find w.cvars id) k e)
