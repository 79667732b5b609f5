-- ===== src/Kernel/Preserves.antt =====
-- What a program keeps, whatever it does, read off its structure.
use cs58_yalnix.Base.{ℕ, ◌≡◌, refl, Bool, true, false, Option, none, some, if◌then◌else◌}
use cs58_yalnix.Kernel.{Kernel, M, pure, crash, gets, deref, load, current, ◌>>=◌, ◌>>◌}
use cs58_yalnix.Kernel.Ensures.{Ensures, Ensures-bind}

-- Where `P` holds and the program returns, `P` holds again.
pub record Preserves (P : Kernel → Type 0) {A : Type 0} (m : M A) : Type 0 where
  pub keeps : (k : Kernel) → P k → Ensures (λ _. P) (m k)

module _ (P : Kernel → Type 0) where
  module _ {A B : Type 0} where
    pub Preserves-bind :
        (m : M A) (f : A → M B)
        → Preserves P m
        → ((a : A) → Preserves P (f a))
        → Preserves P (m >>= f)
    Preserves-bind m f h next = record {
      keeps = λ k v.
          Ensures-bind (λ _. P) (λ _. P) (m k) f (h.keeps k v) (λ a k' v'. (next a).keeps k' v');
    }

    pub Preserves-then : (m : M A) (n : M B) → Preserves P m → Preserves P n → Preserves P (m >> n)
    Preserves-then m n h next = record {
      keeps = λ k v.
          Ensures-bind (λ _. P) (λ _. P) (m k) (λ _. n) (h.keeps k v) (λ _ k' v'. next.keeps k' v');
    }

  module _ {A : Type 0} where
    pub Preserves-if :
        (b : Bool) (m n : M A) → Preserves P m → Preserves P n → Preserves P (if b then m else n)
    Preserves-if true m n h h' = h
    Preserves-if false m n h h' = h'

    -- The same where a branch needs the outcome of the test.
    pub Preserves-test :
        (b : Bool) (m n : M A)
        → (b ≡ true → Preserves P m)
        → (b ≡ false → Preserves P n)
        → Preserves P (if b then m else n)
    Preserves-test true m n h h' = h refl
    Preserves-test false m n h h' = h' refl

    pub Preserves-pure : (a : A) → Preserves P (pure a)
    Preserves-pure a = record { keeps = λ k v. v }

    pub Preserves-gets : (f : Kernel → A) → Preserves P (gets f)
    Preserves-gets f = record { keeps = λ k v. v }

    pub Preserves-deref : (o : Option A) → Preserves P (deref o)
    Preserves-deref none = record { keeps = λ k v. tt }
    Preserves-deref (some a) = record { keeps = λ k v. v }

    pub Preserves-crash : Preserves P (crash {A = A})
    Preserves-crash = record { keeps = λ k v. tt }

  pub Preserves-load : (p : ℕ) → Preserves P (load p)
  Preserves-load p = record { keeps = λ k v. (Preserves-deref (k.pcbs p)).keeps k v }

  pub Preserves-current : Preserves P current
  Preserves-current = record { keeps = λ k v. (Preserves-deref k.current_process).keeps k v }

-- The structure of a program, for search.
pub ruleset structure = (
  Preserves-bind, Preserves-then, Preserves-if, Preserves-pure, Preserves-gets, Preserves-deref,
  Preserves-crash, Preserves-load, Preserves-current,
)
