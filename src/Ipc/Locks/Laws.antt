-- ===== src/Ipc/Locks/Laws.antt =====
-- `lock_acquire` and `lock_release` against the abstract lock: an owner and a line of processes.
use cs58_yalnix.Base.{
  ℕ, ◌≡◌, refl, ◌≢◌, All, sym, Bool, true, false, Option, none, some, List, [], ◌∷◌, ◌++◌, arith,
  Bool-cases, inl, inr,
}
use cs58_yalnix.Base.Int.{ℤ, pos, ◌==ℤ◌, ==ℤ_iff, ==ℤ_refl, ==ℤ_ne}
use cs58_yalnix.Kernel.{Kernel, Pcb, Lock, IpcWrapper}
use cs58_yalnix.Kernel.Ensures.{IsLive, Returns, Runs, current_lem, current_pid_lem}
use cs58_yalnix.Queue
use cs58_yalnix.Queue.{Queue}
use cs58_yalnix.Set
use cs58_yalnix.Set.{Set}
use cs58_yalnix.Set.Laws.{find-assign}
use cs58_yalnix.Ipc.{error, with_wrapper-some}
use cs58_yalnix.Ipc.Locks.{
  unlocked, acquire_success, acquire_blocked, release_queue_empty, release_new_owner, acquire_found,
  wait_for_lock, lock_acquire, release_found, hand_over, lock_release,
}

-- The abstract lock: the pid of its owner, or `unlocked`, and the processes in line.
abbrev pub View : Type 0
View = ℤ × List ℕ

abbrev pub view : Lock → View
view lock = (lock.owner, lock.waiters.items)

-- What an acquire by process `p` with this pid may do. `room` says whether there is memory left for
-- a place in line.
pub data Acquires (p : ℕ) (pid : ℤ) (room : Bool) : View → ℤ → View → Type 0 where
  take :
      {o : ℤ} {ps : List ℕ} → o ≡ unlocked → Acquires p pid room (o, ps) acquire_success (pid, ps)
  again : {o : ℤ} {ps : List ℕ} → o ≢ unlocked → o ≡ pid → Acquires p pid room (o, ps) error (o, ps)
  line_up :
      {o : ℤ} {ps : List ℕ}
      → o ≢ unlocked
      → o ≢ pid
      → room ≡ true
      → Acquires p pid room (o, ps) acquire_blocked (o, ps ++ p ∷ [])
  no_room :
      {o : ℤ} {ps : List ℕ}
      → o ≢ unlocked
      → o ≢ pid
      → room ≡ false
      → Acquires p pid room (o, ps) error (o, ps)

-- The wrapper still holds every other lock as it was, and this one in its new form.
pub record Updated (w : IpcWrapper) (id : ℤ) (new : View) (k' : Kernel) : Type 0 where
  pub wrapper : IpcWrapper
  pub kept : k'.ipc_wrapper ≡ some wrapper
  pub lock : Lock
  pub found : Set.find wrapper.locks id ≡ some lock
  pub seen : view lock ≡ new
  pub others :
      (other : ℤ) → (id ==ℤ other) ≡ false → Set.find wrapper.locks other ≡ Set.find w.locks other

module _ {w : IpcWrapper} {id : ℤ} {lock : Lock} (found : Set.find w.locks id ≡ some lock) where
  Updated-same : {k' : Kernel} → k'.ipc_wrapper ≡ some w → Updated w id (view lock) k'
  Updated-same kept = record {
    wrapper = w;
    kept = kept;
    lock = lock;
    found = found;
    seen = refl;
    others = λ other h. refl;
  }

  pub Updated-assign :
      {k' : Kernel} (lock' : Lock)
      → k'.ipc_wrapper ≡ some (record w { locks = Set.assign w.locks id lock' })
      → Updated w id (view lock') k'
  Updated-assign lock' kept = record {
    wrapper = record w { locks = Set.assign w.locks id lock' };
    kept = kept;
    lock = lock';
    found = rw (find-assign w.locks id id lock', ==ℤ_refl id, found);
    seen = refl;
    others = λ other h. rw (find-assign w.locks id other lock', h);
  }

-- The effect of an operation on one lock: a move of the abstract lock, and nothing else but memory.
abbrev pub Moves :
    (Move : View → ℤ → View → Type 0) → Kernel → IpcWrapper → ℤ → Lock → ℤ → Kernel → Type 0
Moves Move k w id lock rc k' =
    (n : View) × Move (view lock) rc n
    × Updated w id n k'
    × (k'.pcbs ≡ k.pcbs)
    × (k'.process_ready_queue ≡ k.process_ready_queue)
    × (k'.blocked_pcbs ≡ k.blocked_pcbs)

module _ {k : Kernel} {p : ℕ} {v : Pcb} (r : Runs k p v) (w : IpcWrapper) (id : ℤ) (lock : Lock)
    (e : k.ipc_wrapper ≡ some w) (found : Set.find w.locks id ≡ some lock) where
  wait_for_lock-Moves :
      lock.owner ≢ unlocked
      → lock.owner ≢ v.pid
      → Returns (Moves (Acquires p v.pid (k.mem 0)) k w id lock) (wait_for_lock w id lock k)
  unfolding wait_for_lock Queue.push
  wait_for_lock-Moves held other = rw (current_lem r) (elim (Bool-cases (k.mem 0)) [
    | inl room ↦ rw room (_, line_up held other refl, Updated-assign found _ refl, refl, refl, refl)
    | inr full ↦ rw full (_, no_room held other refl, Updated-assign found _ refl, refl, refl, refl)
  ])

  acquire_found-Moves :
      Returns (Moves (Acquires p v.pid (k.mem 0)) k w id lock) (acquire_found w id (some lock) k)
  unfolding acquire_found
  acquire_found-Moves = rw (current_pid_lem r) (elim (Bool-cases (lock.owner ==ℤ unlocked)) [
    | inl free ↦
        rw free (_, take ((==ℤ_iff _ _).0 free), Updated-assign found _ refl, refl, refl, refl)
    | inr held ↦ rw held (elim (Bool-cases (lock.owner ==ℤ v.pid)) [
      | inl own ↦
          rw own (
            _,
            again (==ℤ_ne _ _ held) ((==ℤ_iff _ _).0 own),
            Updated-same found e,
            refl,
            refl,
            refl,
          )
      | inr other ↦ rw other (wait_for_lock-Moves (==ℤ_ne _ _ held) (==ℤ_ne _ _ other))
    ])
  ])

  -- `lock_acquire`, called on a lock that exists by a process that runs, makes the move of the
  -- abstract lock that its result says: it takes a free lock, refuses the owner, and puts any
  -- other process at the end of the line, or returns ERROR if there is no memory for that. All
  -- other locks, the blocks, the ready queue and the blocked processes stay as they were.
  pub lock_acquire-Moves :
      Returns (Moves (Acquires p v.pid (k.mem 0)) k w id lock) (lock_acquire id k)
  unfolding lock_acquire
  lock_acquire-Moves = rw (with_wrapper-some _ _ k e, found) acquire_found-Moves

-- What a release by the process with this pid may do. The lock goes to the first process in line;
-- `pid_of` reads the pid in a block.
pub data Releases (pid : ℤ) (pid_of : ℕ → ℤ) : View → ℤ → View → Type 0 where
  free : {o : ℤ} → o ≡ pid → Releases pid pid_of (o, []) release_queue_empty (unlocked, [])
  pass :
      {o : ℤ} {q : ℕ} {ps : List ℕ}
      → o ≡ pid
      → Releases pid pid_of (o, q ∷ ps) release_new_owner (pid_of q, ps)
  refused : {o : ℤ} {ps : List ℕ} → o ≢ pid → Releases pid pid_of (o, ps) error (o, ps)

-- The pid in the block at an address; 0 where there is none.
abbrev pub pid_in : (ℕ → Option Pcb) → ℕ → ℤ
pid_in pcbs p = elim (pcbs p) [ none ↦ pos 0 | some v ↦ v.pid ]

abbrev pub pid_of : Kernel → ℕ → ℤ
pid_of k = pid_in k.pcbs

pub pid_of_lem : (k : Kernel) (p : ℕ) {v : Pcb} → k.pcbs p ≡ some v → v.pid ≡ pid_of k p
pid_of_lem k p e = ground arith

module _ {k : Kernel} {p : ℕ} {v : Pcb} (r : Runs k p v) (w : IpcWrapper) (id : ℤ)
    (e : k.ipc_wrapper ≡ some w) where
  hand_over-Moves :
      (o : ℤ) (ps : List ℕ) (key : ℕ) (c lid : ℤ)
      → let lock : Lock = record {
        lock_id = lid;
        owner = o;
        waiters = record { items = ps; next_key = key; count = c };
      } in
        Set.find w.locks id ≡ some lock
        → o ≡ v.pid
        → All (IsLive k) ps
        → Returns
            (Moves (Releases v.pid (pid_of k)) k w id lock)
            (hand_over w id lock (Queue.pop lock.waiters) k)
  unfolding hand_over Queue.pop
  hand_over-Moves o [] key c lid found own live =
      (_, free own, Updated-assign found _ refl, refl, refl, refl)
  hand_over-Moves o (q ∷ ps) key c lid found own live =
      rw (live.0.1, pid_of_lem k q live.0.1)
        (_, pass own, Updated-assign found _ refl, refl, refl, refl)

  release_found-Moves :
      (lock : Lock)
      → Set.find w.locks id ≡ some lock
      → All (IsLive k) lock.waiters.items
      → Returns (Moves (Releases v.pid (pid_of k)) k w id lock) (release_found w id (some lock) k)
  unfolding release_found
  release_found-Moves lock found live =
      rw (current_pid_lem r) (elim (Bool-cases (v.pid ==ℤ lock.owner)) [
        | inl own ↦ rw own (
            hand_over-Moves lock.owner lock.waiters.items lock.waiters.next_key lock.waiters.count
              lock.lock_id found (sym ((==ℤ_iff _ _).0 own)) live)
        | inr other ↦
            rw other
              (_, refused (λ h. ==ℤ_ne _ _ other (sym h)), Updated-same found e, refl, refl, refl)
      ])

  -- `lock_release`, called on a lock that exists by a process that runs, where no block in the
  -- line has been freed, refuses anyone but the owner, gives the lock to the process that has
  -- waited longest, and frees it where nobody waits. All other locks, the blocks, the ready queue
  -- and the blocked processes stay as they were.
  pub lock_release-Moves :
      (lock : Lock)
      → Set.find w.locks id ≡ some lock
      → All (IsLive k) lock.waiters.items
      → Returns (Moves (Releases v.pid (pid_of k)) k w id lock) (lock_release id k)
  unfolding lock_release
  lock_release-Moves lock found live =
      rw (with_wrapper-some _ _ k e, found) (release_found-Moves lock found live)
