-- ===== src/Prelude/Assoc.antt =====
-- A Go map with string keys, as an association list with one entry for each key that was set.
-- Go iterates over a map in an unspecified order; the order of the entries stands for it.
use mathlib.Core.Path.{◌≡◌, refl}
use mathlib.Core.Option.{Option, none, some}
use mathlib.Core.List.{List, [], ◌∷◌, map}
use native.Mathlib.Omega.{arith}
use Prim.Native.String.{String}
use text.Mathlib.Text.{◌==◌}
use text.Mathlib.TextEquality.{eq_iff}
use casper_prover.Prelude.Tests.{if◌then◌else◌}

abbrev pub Assoc {ℓ} : Type ℓ → Type ℓ
Assoc V = List (String × V)

module _ {ℓ} {V : Type ℓ} where
  -- v, ok := m[k]
  unfoldable pub lookup : String → Assoc V → Option V
  lookup key [] = none
  lookup key ((other, value) ∷ rest_of) = if other == key then some value else lookup key rest_of

  -- m[k] = v
  unfoldable pub insert : String → V → Assoc V → Assoc V
  insert key value [] = (key, value) ∷ []
  insert key value ((other, kept) ∷ rest_of) =
      if other == key then (key, value) ∷ rest_of else (other, kept) ∷ insert key value rest_of

  -- delete(m, k)
  unfoldable pub delete : String → Assoc V → Assoc V
  delete key [] = []
  delete key ((other, value) ∷ rest_of) =
      let rest = delete key rest_of in if other == key then rest else (other, value) ∷ rest

  pub lookup-insert :
      (key other : String) (value : V) (rest_of : Assoc V)
      → lookup other (insert key value rest_of)
        ≡ (if key == other then some value else lookup other rest_of)
  unfolding lookup insert
  lookup-insert key other value [] = refl
  lookup-insert key other value ((head, kept) ∷ rest_of) = ground (
    arith,
    eq_iff key other,
    eq_iff head key,
    eq_iff head other,
    lookup-insert key other value rest_of,
  )

  pub lookup-delete :
      (key other : String) (rest_of : Assoc V)
      → lookup other (delete key rest_of) ≡ (if key == other then none else lookup other rest_of)
  unfolding lookup delete
  lookup-delete key other [] = ground arith
  lookup-delete key other ((head, kept) ∷ rest_of) =
      ground (
        arith,
        eq_iff key other,
        eq_iff head key,
        eq_iff head other,
        lookup-delete key other rest_of,
      )

pub lookup-nil {ℓ} : {V : Type ℓ} (key : String) → lookup {V = V} key [] ≡ none
unfolding lookup
lookup-nil key = refl

abbrev pub values {ℓ} : {V : Type ℓ} → Assoc V → List V
values rest_of = map (λ e. e.1) rest_of

abbrev pub keys {ℓ} : {V : Type ℓ} → Assoc V → List String
keys rest_of = map (λ e. e.0) rest_of

pub ruleset map_laws = (lookup-nil, lookup-insert, lookup-delete)
