-- ===== src/Ipc/Preserve.antt =====
-- What it takes for an operation of ipc_wrapper.c to keep the wrapper well-formed.
use cs58_yalnix.Base.{◌≡◌, refl, true, Option, none, some, subst, sym}
use cs58_yalnix.Base.Int.{pos, ltb_ℤ, int_max}
use cs58_yalnix.Kernel.{
  Kernel, Res, ok, fault, halt, M, ◌>>=◌, deref, load, current, current_pid, IpcWrapper,
}
use cs58_yalnix.Kernel.Ensures.{Ensures, Ensures-bind}
use cs58_yalnix.Ipc.Invariant.{IsValid}

-- The wrapper is well-formed if there is one.
abbrev pub IsValidIpc : Option IpcWrapper → Type 0
IsValidIpc none = Unit
IsValidIpc (some w) = IsValid w

-- What every operation has to establish.
abbrev pub After : {A : Type 0} → A → Kernel → Type 0
After a k = IsValidIpc k.ipc_wrapper

-- A part of an operation that leaves the kernel as it is.
abbrev pub Reads : {A : Type 0} → M A → Type 0
Reads m = (k : Kernel) → Ensures (λ _ k'. k' ≡ k) (m k)

pub deref-Reads : {A : Type 0} (o : Option A) → Reads (deref o)
deref-Reads none k = tt
deref-Reads (some a) k = refl

pub current_pid-Reads : Reads current_pid
unfolding current_pid
current_pid-Reads k =
    Ensures-bind (λ _ k'. k' ≡ k) (λ _ k'. k' ≡ k) (current k) _ (deref-Reads k.current_process k)
      λ p k' e.
        Ensures-bind (λ _ k''. k'' ≡ k) (λ _ k''. k'' ≡ k) (load p k') _
          (rw e (deref-Reads (k.pcbs p) k)) (λ v k'' e'. e')

pub after_read :
    {A B : Type 0} (Q : B → Kernel → Type 0) (m : M A) (f : A → M B) (k : Kernel)
    → Ensures (λ _ k'. k' ≡ k) (m k)
    → ((a : A) → Ensures Q (f a k))
    → Ensures Q ((m >>= f) k)
after_read Q m f k reads next =
    Ensures-bind (λ _ k'. k' ≡ k) Q (m k) f reads (λ a k' e. rw e (next a))

pub valid_at : {w : IpcWrapper} {o : Option IpcWrapper} → o ≡ some w → IsValid w → IsValidIpc o
valid_at e v = subst IsValidIpc (sym e) v

-- Well-formed, and with ids left: what an operation that gives out no id keeps.
abbrev pub IsUsable : Option IpcWrapper → Type 0
IsUsable none = Unit
IsUsable (some w) = IsValid w × (ltb_ℤ w.next_ipc_id (pos int_max) ≡ true)

abbrev pub Still : {A : Type 0} → A → Kernel → Type 0
Still a k = IsUsable k.ipc_wrapper

pub IsUsable-at :
    {w : IpcWrapper} {o : Option IpcWrapper}
    → o ≡ some w
    → IsValid w
    → ltb_ℤ w.next_ipc_id (pos int_max) ≡ true
    → IsUsable o
IsUsable-at e v room = subst IsUsable (sym e) (v, room)

pub IsUsable-valid : (o : Option IpcWrapper) → IsUsable o → IsValidIpc o
IsUsable-valid none u = tt
IsUsable-valid (some w) u = u.0

pub Still-After : {A : Type 0} (r : Res A) → Ensures (Still {A = A}) r → Ensures (After {A = A}) r
Still-After (ok a k) u = IsUsable-valid k.ipc_wrapper u
Still-After fault u = tt
Still-After halt u = tt
