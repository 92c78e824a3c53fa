-- ===== src/Prelude/Ascending.antt =====
-- `sort` by the order of Go's strings leaves no neighbours out of order.
use Prim.Native.String.{String}
use mathlib.Core.Path.{◌≡◌}
use mathlib.Core.Bool.{false}
use mathlib.Core.List.{List, [], ◌∷◌}
use mathlib.Core.Logic.{inl, inr}
use casper_prover.Prelude.Tests.{Bool-cases}
use casper_prover.Prelude.Sort.{sort, insert_sorted, str_ltb}
use casper_prover.Prelude.TextOrder.{str_ltb-asym}

-- No neighbours are out of order.
abbrev pub Ascending : List String → Type 0
Ascending [] = Unit
Ascending (x ∷ []) = Unit
Ascending (x ∷ y ∷ ys) = (str_ltb y x ≡ false) × Ascending (y ∷ ys)

insert_sorted-Ascending :
    (x : String) (ys : List String) → Ascending ys → Ascending (insert_sorted str_ltb x ys)
unfolding insert_sorted
insert_sorted-Ascending x [] h = tt
insert_sorted-Ascending x (y ∷ []) h = elim (Bool-cases (str_ltb y x)) [
  | inl e ↦ rw e (str_ltb-asym y x e, tt)
  | inr e ↦ rw e (e, tt)
]
insert_sorted-Ascending x (y ∷ z ∷ zs) (q, h) =
    let rest = insert_sorted-Ascending x (z ∷ zs) h in
    elim (Bool-cases (str_ltb y x)) [
      | inr e ↦ rw e (e, (q, h))
      | inl e ↦ rw e (elim (Bool-cases (str_ltb z x)) [
        | inl f ↦ rw f (q, rw f at rest)
        | inr f ↦ rw f (str_ltb-asym y x e, rw f at rest)
      ])
    ]

pub sort-Ascending : (xs : List String) → Ascending (sort str_ltb xs)
unfolding sort
sort-Ascending [] = tt
sort-Ascending (x ∷ xs) = insert_sorted-Ascending x (sort str_ltb xs) (sort-Ascending xs)
