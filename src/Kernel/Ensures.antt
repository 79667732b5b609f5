-- ===== src/Kernel/Ensures.antt =====
-- Two readings of a run: `Ensures`, what holds if it returns, and `Returns`, that it returns and
-- what holds then.
use cs58_yalnix.Base.{ℕ, ◌≡◌, refl, ap, Bool, true, false, some, if◌then◌else◌}
use cs58_yalnix.Kernel.{
  Kernel, Pcb, Res, ok, fault, halt, M, bind_res, current, load, deref, current_pid,
}

module _ {A : Type 0} (Q : A → Kernel → Type 0) where
  abbrev pub Ensures : Res A → Type 0
  Ensures (ok a k) = Q a k
  Ensures fault = Unit
  Ensures halt = Unit

  abbrev pub Returns : Res A → Type 0
  Returns (ok a k) = Q a k
  Returns fault = ⊥
  Returns halt = ⊥

pub Ensures-weaken :
    {A : Type 0} (P Q : A → Kernel → Type 0) (r : Res A)
    → Ensures P r
    → ((a : A) (k : Kernel) → P a k → Q a k)
    → Ensures Q r
Ensures-weaken P Q (ok a k) h next = next a k h
Ensures-weaken P Q fault h next = tt
Ensures-weaken P Q halt h next = tt

pub Ensures-if :
    {A : Type 0} (Q : A → Kernel → Type 0) (b : Bool) (r s : Res A)
    → Ensures Q r
    → Ensures Q s
    → Ensures Q (if b then r else s)
Ensures-if Q true r s h h' = h
Ensures-if Q false r s h h' = h'

module _ {A B : Type 0} where
  pub Ensures-bind :
      (P : A → Kernel → Type 0) (Q : B → Kernel → Type 0) (r : Res A) (f : A → M B)
      → Ensures P r
      → ((a : A) (k : Kernel) → P a k → Ensures Q (f a k))
      → Ensures Q (bind_res r f)
  Ensures-bind P Q (ok a k) f h next = next a k h
  Ensures-bind P Q fault f h next = tt
  Ensures-bind P Q halt f h next = tt

  pub Returns-bind :
      (P : A → Kernel → Type 0) (Q : B → Kernel → Type 0) (r : Res A) (f : A → M B)
      → Returns P r
      → ((a : A) (k : Kernel) → P a k → Returns Q (f a k))
      → Returns Q (bind_res r f)
  Returns-bind P Q (ok a k) f h next = next a k h
  Returns-bind P Q fault f h next = absurd h
  Returns-bind P Q halt f h next = absurd h

pub Returns-weaken :
    {A : Type 0} (P Q : A → Kernel → Type 0) (r : Res A)
    → Returns P r
    → ((a : A) (k : Kernel) → P a k → Q a k)
    → Returns Q r
Returns-weaken P Q (ok a k) h next = next a k h
Returns-weaken P Q fault h next = absurd h
Returns-weaken P Q halt h next = absurd h

pub Returns-Ensures :
    {A : Type 0} (P Q : A → Kernel → Type 0) (r : Res A)
    → Returns P r
    → Ensures Q r
    → Returns (λ a k. P a k × Q a k) r
Returns-Ensures P Q (ok a k) h h' = (h, h')
Returns-Ensures P Q fault h h' = absurd h
Returns-Ensures P Q halt h h' = absurd h

pub Returns-result :
    {A : Type 0} (Q : A → Kernel → Type 0) (r : Res A)
    → Returns Q r
    → (a : A) × (k : Kernel) × (r ≡ ok a k) × Q a k
Returns-result Q (ok a k) h = (a, k, refl, h)
Returns-result Q fault h = absurd h
Returns-result Q halt h = absurd h

-- The process at `p` runs, and `v` is its block.
pub record Runs (k : Kernel) (p : ℕ) (v : Pcb) : Type 0 where
  pub current : k.current_process ≡ some p
  pub block : k.pcbs p ≡ some v

module _ {k : Kernel} {p : ℕ} {v : Pcb} (r : Runs k p v) where
  pub current_lem : current k ≡ ok p k
  current_lem = ap (λ o. deref o k) r.current

  pub load_lem : load p k ≡ ok v k
  load_lem = ap (λ o. deref o k) r.block

  pub current_pid_lem : current_pid k ≡ ok v.pid k
  unfolding current_pid
  current_pid_lem = rw (current_lem, load_lem)

-- The block at this address has not been freed.
abbrev pub IsLive : Kernel → ℕ → Type 0
IsLive k p = (v : Pcb) × (k.pcbs p ≡ some v)
