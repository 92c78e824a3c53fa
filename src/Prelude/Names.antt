-- ===== src/Prelude/Names.antt =====
-- Lists of ids, which the source compares as strings.
use mathlib.Core.Path.{◌≡◌, refl}
use mathlib.Core.Bool.{Bool, true, false, ◌||◌}
use mathlib.Core.Option.{Option, none, some}
use mathlib.Core.List.{List, [], ◌∷◌, ◌++◌}
use native.Mathlib.Omega.{arith}
use text.Mathlib.TextEquality.{eq_iff}
use Prim.Native.String.{String}
use text.Mathlib.Text.{◌==◌ as str_eq}
use casper_prover.Prelude.Lists.{any}

abbrev pub among : List String → String → Bool
among ids id = any (str_eq id) ids

abbrev pub Distinct : List String → Type 0
Distinct [] = Unit
Distinct (x ∷ xs) = (any (str_eq x) xs ≡ false) × Distinct xs

abbrev pub held {ℓ} : {A : Type ℓ} → Option A → Bool
held none = false
held (some _) = true

pub among-append :
    (ids : List String) (y j : String) → among (ids ++ y ∷ []) j ≡ (among ids j || str_eq j y)
among-append [] y j = ground arith
among-append (x ∷ ids) y j = ground (arith, among-append ids y j)

pub Distinct-append :
    (ids : List String) (y : String) → Distinct ids → among ids y ≡ false → Distinct (ids ++ y ∷ [])
Distinct-append [] y d h = (refl, tt)
Distinct-append (x ∷ ids) y (n, d) h = (
  ground (arith, among-append ids y x, eq_iff x y, eq_iff y x),
  Distinct-append ids y d (ground arith),
)
