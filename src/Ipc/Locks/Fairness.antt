-- ===== src/Ipc/Locks/Fairness.antt =====
-- The histories of a lock: interleavings of the calls of `lock_acquire` and `lock_release` on it.
use cs58_yalnix.Base.{
  ℕ, ◌≡◌, refl, sym, subst, ap, fun_ext, ◌∙◌, ◌≢◌, All, Bool, Option, none, some, List, [], ◌∷◌,
  ◌++◌, map, append-nil, append_assoc, appends, if◌then◌else◌,
}
use cs58_yalnix.Base.Int.{ℤ, ◌==ℤ◌}
use cs58_yalnix.Kernel.{Kernel, Pcb, Lock, IpcWrapper, Res, ok}
use cs58_yalnix.Kernel.Ensures.{IsLive, Returns, Runs}
use cs58_yalnix.Set
use cs58_yalnix.Ipc.{error}
use cs58_yalnix.Ipc.Locks.{unlocked, acquire_success, release_new_owner, lock_acquire, lock_release}
use cs58_yalnix.Ipc.Locks.Laws.{
  View, view, Acquires, take, again, line_up, no_room, Releases, free, pass, refused, pid_in,
  pid_of, pid_of_lem, Updated, lock_acquire-Moves, lock_release-Moves,
}

-- `arrived` lists the pid of each process that took the lock or a place in line, and `served` that
-- of each that was given the lock: the latter is the former without the line.
abbrev pub Serves : (ℕ → ℤ) → View → List ℤ → List ℤ → Type 0
Serves f m arrived served = (arrived ≡ served ++ map f m.1) × (m.0 ≡ unlocked → m.1 ≡ [])

abbrev pub one_if : Bool → ℤ → List ℤ
one_if b pid = if b then pid ∷ [] else []

-- Did the call put its process in line, or give it the lock?
abbrev pub arrives : ℤ → ℤ → List ℤ
arrives rc pid = if rc ==ℤ error then [] else pid ∷ []

acquire-Serves :
    (f : ℕ → ℤ) (p : ℕ) {pid : ℤ} {room : Bool} {m n : View} {rc : ℤ} (ar ss : List ℤ)
    → Acquires p pid room m rc n
    → pid ≡ f p
    → pid ≢ unlocked
    → Serves f m ar ss
    → Serves f n (ar ++ arrives rc pid) (ss ++ one_if (rc ==ℤ acquire_success) pid)
acquire-Serves f p ar ss (take e) same valid s =
    (rw (s.0, s.1 e) (simp appends), λ h. absurd (valid h))
acquire-Serves f p ar ss (again ne own) same valid s = (simp appends (s.0), s.1)
acquire-Serves f p ar ss (line_up ne other room) same valid s =
    (rw (s.0) (simp (appends, same)), λ h. absurd (ne h))
acquire-Serves f p ar ss (no_room ne other full) same valid s = (simp appends (s.0), s.1)

release-Serves :
    (f : ℕ → ℤ) {pid : ℤ} {m n : View} {rc : ℤ} (ar ss : List ℤ)
    → Releases pid f m rc n
    → ((q : ℕ) → f q ≢ unlocked)
    → Serves f m ar ss
    → Serves f n ar (ss ++ one_if (rc ==ℤ release_new_owner) n.0)
release-Serves f ar ss (free own) valid s = (rw append-nil (s.0), λ h. refl)
release-Serves f ar ss (pass {q} own) valid s =
    (s.0 ∙ sym (append_assoc ss (f q ∷ []) _), λ h. absurd (valid q h))
release-Serves f ar ss (refused other) valid s = (simp appends (s.0), s.1)

abbrev view? : Option Lock → Option View
view? none = none
view? (some lock) = some (view lock)

-- The lock that the wrapper holds under the id, in the abstract view.
abbrev pub lock_view : Option IpcWrapper → ℤ → Option View
lock_view none id = none
lock_view (some w) id = view? (Set.find w.locks id)

abbrev pub owner_at : Kernel → ℤ → ℤ
owner_at k id = elim (lock_view k.ipc_wrapper id) [ none ↦ unlocked | some v ↦ v.0 ]

abbrev pub line_at : Kernel → ℤ → List ℕ
line_at k id = elim (lock_view k.ipc_wrapper id) [ none ↦ [] | some v ↦ v.1 ]

-- A history of one lock, from free on: calls of `lock_acquire` and `lock_release` by whichever
-- processes run, and between them anything that touches neither the lock nor a pid.
pub data History (id : ℤ) : Kernel → List ℤ → List ℤ → Type 0 where
  start :
      {k : Kernel}
      → lock_view k.ipc_wrapper id ≡ some (unlocked, [])
      → ((q : ℕ) → pid_of k q ≢ unlocked)
      → History id k [] []
  elsewhere :
      {k k' : Kernel} {arrived served : List ℤ}
      → History id k arrived served
      → lock_view k'.ipc_wrapper id ≡ lock_view k.ipc_wrapper id
      → ((q : ℕ) → pid_of k' q ≡ pid_of k q)
      → History id k' arrived served
  acquire :
      {k k' : Kernel} {arrived served : List ℤ} {p : ℕ} {v : Pcb} {rc : ℤ}
      → History id k arrived served
      → Runs k p v
      → lock_acquire id k ≡ ok rc k'
      → History id k'
          (arrived ++ arrives rc v.pid)
          (served ++ one_if (rc ==ℤ acquire_success) v.pid)
  release :
      {k k' : Kernel} {arrived served : List ℤ} {p : ℕ} {v : Pcb} {rc : ℤ}
      → History id k arrived served
      → Runs k p v
      → All (IsLive k) (line_at k id)
      → lock_release id k ≡ ok rc k'
      → History id k' arrived (served ++ one_if (rc ==ℤ release_new_owner) (owner_at k' id))

record Fair (id : ℤ) (k : Kernel) (arrived served : List ℤ) : Type 0 where
  seen : View
  here : lock_view k.ipc_wrapper id ≡ some seen
  serves : Serves (pid_of k) seen arrived served
  pids : (q : ℕ) → pid_of k q ≢ unlocked

view?_inv :
    (found : Option Lock) {m : View}
    → view? found ≡ some m
    → (lock : Lock) × (found ≡ some lock) × (view lock ≡ m)
view?_inv none h = cc
view?_inv (some lock) h = (lock, refl, cc)

-- The wrapper and the lock behind a view.
view_inv :
    (wrapper : Option IpcWrapper) (id : ℤ) {m : View}
    → lock_view wrapper id ≡ some m
    → (w : IpcWrapper) × (lock : Lock) × (wrapper ≡ some w)
      × (Set.find w.locks id ≡ some lock)
      × (view lock ≡ m)
view_inv none id h = cc
view_inv (some w) id h =
    let (lock, found, seen) = view?_inv (Set.find w.locks id) h in (w, lock, refl, found, seen)

Updated-view :
    {w : IpcWrapper} {id : ℤ} {n : View} {k' : Kernel}
    → Updated w id n k'
    → lock_view k'.ipc_wrapper id ≡ some n
Updated-view {id} u = ap (λ o. lock_view o id) u.kept ∙ ap view? u.found ∙ ap some u.seen

-- A call that leaves the blocks alone keeps the lock fair if its move does.
Fair-Updated :
    (k : Kernel) {k' : Kernel} {w : IpcWrapper} {id : ℤ} {n : View} {arrived served : List ℤ}
    → ((q : ℕ) → pid_of k q ≢ unlocked)
    → Updated w id n k'
    → k'.pcbs ≡ k.pcbs
    → Serves (pid_of k) n arrived served
    → Fair id k' arrived served
Fair-Updated k {n} {arrived} {served} pids u same s = record {
  seen = n;
  here = Updated-view u;
  serves = subst (λ b. Serves (pid_in b) n arrived served) (sym same) s;
  pids = subst (λ b. (q : ℕ) → pid_in b q ≢ unlocked) (sym same) pids;
}

returned_at :
    {A : Type 0} (Q : A → Kernel → Type 0) {r : Res A} {a : A} {k : Kernel}
    → r ≡ ok a k
    → Returns Q r
    → Q a k
returned_at Q e h = subst (Returns Q) e h

-- With the block of `p` in sight, its pid is a valid one.
pid-valid :
    {k : Kernel} {p : ℕ} {v : Pcb}
    → Runs k p v
    → ((q : ℕ) → pid_of k q ≢ unlocked)
    → v.pid ≢ unlocked
pid-valid {k} {p} r pids = rw (pid_of_lem k p r.block) (pids p)

acquire-Fair :
    {id rc : ℤ} {k k' : Kernel} {arrived served : List ℤ} {p : ℕ} {v : Pcb}
    → Fair id k arrived served
    → Runs k p v
    → lock_acquire id k ≡ ok rc k'
    → Fair id k' (arrived ++ arrives rc v.pid) (served ++ one_if (rc ==ℤ acquire_success) v.pid)
acquire-Fair {id} {rc} {k} {k'} {arrived} {served} {p} {v} f r e =
    let (w, lock, ew, el, ev) = view_inv k.ipc_wrapper id f.here in
    let (n, move, u, same, _, _) = returned_at _ e (lock_acquire-Moves r w id lock ew el) in
    Fair-Updated k f.pids u same (
      acquire-Serves (pid_of k) p arrived served move (pid_of_lem k p r.block) (pid-valid r f.pids)
        (subst (λ m. Serves (pid_of k) m arrived served) (sym ev) f.serves))

release-Fair :
    {id rc : ℤ} {k k' : Kernel} {arrived served : List ℤ} {p : ℕ} {v : Pcb}
    → Fair id k arrived served
    → Runs k p v
    → All (IsLive k) (line_at k id)
    → lock_release id k ≡ ok rc k'
    → Fair id k' arrived (served ++ one_if (rc ==ℤ release_new_owner) (owner_at k' id))
release-Fair {id} {rc} {k} {k'} {arrived} {served} {p} {v} f r live e =
    let (w, lock, ew, el, ev) = view_inv k.ipc_wrapper id f.here in
    let waiting : All (IsLive k) lock.waiters.items =
      subst (λ (o : Option View). All (IsLive k) (elim o [ none ↦ [] | some m ↦ m.1 ]))
        (f.here ∙ ap some (sym ev)) live in
    let (n, move, u, same, _, _) = returned_at _ e (lock_release-Moves r w id ew lock el waiting) in
    let owner : owner_at k' id ≡ n.0 =
      ap (λ (o : Option View). elim o [ none ↦ unlocked | some m ↦ m.0 ]) (Updated-view u) in
    Fair-Updated k f.pids u same (
      rw owner (
        release-Serves (pid_of k) arrived served move f.pids
          (subst (λ m. Serves (pid_of k) m arrived served) (sym ev) f.serves)))

History-Fair :
    {id : ℤ} {k : Kernel} {arrived served : List ℤ}
    → History id k arrived served
    → Fair id k arrived served
History-Fair (start open_lock pids) = record {
  seen = (unlocked, []);
  here = open_lock;
  serves = (refl, λ h. refl);
  pids = pids;
}
History-Fair {arrived} {served} (elsewhere h same pids) =
    let f = History-Fair h in
    record {
      seen = f.seen;
      here = same ∙ f.here;
      serves = subst (λ g. Serves g f.seen arrived served) (fun_ext (λ q. sym (pids q))) f.serves;
      pids = λ q e. f.pids q (sym (pids q) ∙ e);
    }
History-Fair (acquire h r e) = acquire-Fair (History-Fair h) r e
History-Fair (release h r live e) = release-Fair (History-Fair h) r live e

-- After any history of a lock, the processes given it so far, followed by those still in line, are
-- the processes that came for it, in the order in which they came; and a free lock has no line.
pub lock_first_come_first_served :
    {id : ℤ} {k : Kernel} {arrived served : List ℤ}
    → History id k arrived served
    → (arrived ≡ served ++ map (pid_of k) (line_at k id))
      × (owner_at k id ≡ unlocked → line_at k id ≡ [])
lock_first_come_first_served {k} {arrived} {served} h =
    let f = History-Fair h in
    let at : (o : Option View) → Type 0 = λ o.
      (arrived ≡ served ++ map (pid_of k) (elim o [ none ↦ [] | some m ↦ m.1 ]))
      × (elim o [ none ↦ unlocked | some m ↦ m.0 ] ≡ unlocked
          → elim o [ none ↦ [] | some m ↦ m.1 ] ≡ []) in
    subst at (sym f.here) f.serves
