-- ===== src/Prelude/Float.antt =====
-- Go's float64, as an abstract type with the operations that the source uses. No law is assumed:
-- what is proved holds for the IEEE operations, whatever they round and wherever a NaN stands.
use Prim.Native.Nat.{ℕ}
use mathlib.Core.Bool.{Bool, not, ◌&&◌, ◌||◌}

pub record Floats : Type 1 where
  pub F : Type 0
  pub zero : F
  pub add : F → F → F
  -- a / float64(n)
  pub div_nat : F → ℕ → F
  -- a == b, a < b, and a <= b
  pub eq : F → F → Bool
  pub less : F → F → Bool
  pub le : F → F → Bool

module _ (fl : Floats) where
  -- x != x
  abbrev pub is_nan : fl.F → Bool
  is_nan x = not (fl.eq x x)

  -- The order of `sort.Float64s`, in which a NaN comes before every other value.
  abbrev pub nan_first : fl.F → fl.F → Bool
  nan_first a b = fl.less a b || (is_nan a && not (is_nan b))
