-- ===== src/Prelude/Flags.antt =====
-- Vectors of flags (`std::vector<bool>`): how many are still false, and what a write does to that.
use Prim.Native.Nat.{ℕ, zero, suc, ◌<◌, ◌≤◌}
use mathlib.Core.Path.{◌≡◌, ap}
use mathlib.Core.Bool.{Bool, true, false}
use mathlib.Core.List.{List, [], ◌∷◌}
use native.Mathlib.Omega.{arith}
use ran_tan_plan.Prelude.Lists.{length, get_or, set}

-- The flags that are still false.
abbrev pub unset : List Bool → ℕ
unset [] = 0
unset (false ∷ bs) = suc (unset bs)
unset (true ∷ bs) = unset bs

pub unset-le-length : (bs : List Bool) → unset bs ≤ length bs
unset-le-length [] = omega arith
unset-le-length (false ∷ bs) = omega (arith, unset-le-length bs)
unset-le-length (true ∷ bs) = omega (arith, unset-le-length bs)

pub unset-set :
    (bs : List Bool) (i : ℕ)
    → i < length bs
    → get_or bs i false ≡ false
    → suc (unset (set bs i true)) ≡ unset bs
unset-set [] i h e = absurd (omega arith)
unset-set (b ∷ bs) zero h e = rw e
unset-set (false ∷ bs) (suc i) h e = ap suc (unset-set bs i (omega arith) e)
unset-set (true ∷ bs) (suc i) h e = unset-set bs i (omega arith) e
