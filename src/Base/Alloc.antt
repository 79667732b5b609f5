-- ===== src/Base/Alloc.antt =====
-- `malloc` as an oracle. A component that allocates is given the outcomes of the calls still to
-- come (`true` for success) and returns those that it left over.
use Prim.Native.Nat.{ℕ, suc}
use mathlib.Core.Bool.{Bool}

abbrev pub Mem : Type 0
Mem = ℕ → Bool

abbrev pub rest : Mem → Mem
rest m = λ n. m (suc n)
