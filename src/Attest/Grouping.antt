-- ===== src/Attest/Grouping.antt =====
-- engine/internal/decision/attest/byzantine.go: the voters of a kind, and the aggregate over kinds.
use mathlib.Core.Option
use mathlib.Core.List.{append_assoc, append-nil}
use casper_prover.Prelude.{
  ℕ, ◌+◌, ◌*◌, String, Bool, false, Option, none, some, List, [], ◌∷◌, ◌++◌, map, ◌≡◌, refl, sym,
  ap, ◌∙◌, arith, str_eq, if◌then◌else◌, select, Bool-cases, inl, inr, eq_iff, pos, any, among,
  Distinct, held, among-append, Distinct-append, ◌||◌,
}
use casper_prover.Prelude.Assoc.{Assoc, lookup, insert, lookup-insert, lookup-nil}
use casper_prover.Prelude.Float.{Floats}
use casper_prover.Attest.{FacetVerdict, Reason, AggregationPolicy, aggregate}
use casper_prover.Attest.Byzantine.{
  group_by_kind, reduce_all, reduce_per_kind, aggregate_byzantine_robust,
}

or_false : (b : Bool) → (b || false) ≡ b
or_false b = ground arith

or_or : (a b c : Bool) → ((a || b) || c) ≡ (a || (b || c))
or_or a b c = ground arith

held_if :
    {A : Type 0} (b : Bool) (x : A) (o : Option A) → held (if b then some x else o) ≡ (held o || b)
held_if b x o = ground arith

module _ (fl : Floats) (render : Reason → String) where
  open fl use {F}

  abbrev pub of_kind : String → List (FacetVerdict F) → List (FacetVerdict F)
  of_kind k vs = select (λ v. str_eq v.kind k) vs

  abbrev seen : String → Assoc (List (FacetVerdict F)) → List (FacetVerdict F)
  seen k by_kind = Option.get_or (lookup k by_kind) []

  seen-insert :
      (k j : String) (ws : List (FacetVerdict F)) (m : Assoc (List (FacetVerdict F)))
      → seen j (insert k ws m) ≡ (if str_eq k j then ws else seen j m)
  seen-insert k j ws m = elim (Bool-cases (str_eq k j)) [
    | inl e ↦ ap (λ o. Option.get_or o []) (lookup-insert k j ws m) ∙ rw e refl
    | inr e ↦ ap (λ o. Option.get_or o []) (lookup-insert k j ws m) ∙ rw e refl
  ]

  grouped :
      (by_kind : Assoc (List (FacetVerdict F))) (order : List String) (vs : List (FacetVerdict F))
      (k : String)
      → seen k (group_by_kind fl render by_kind order vs).0 ≡ seen k by_kind ++ of_kind k vs
  unfolding group_by_kind
  grouped by_kind order [] k = sym (append-nil _)
  grouped by_kind order (v ∷ vs) k =
      grouped (insert v.kind (seen v.kind by_kind ++ v ∷ []) by_kind)
        (elim (lookup v.kind by_kind) [ none ↦ order ++ v.kind ∷ [] | some _ ↦ order ]) vs k
      ∙ ap (λ ws. ws ++ of_kind k vs) (seen-insert v.kind k (seen v.kind by_kind ++ v ∷ []) by_kind)
      ∙ placed
    where
      placed :
          (if str_eq v.kind k then seen v.kind by_kind ++ v ∷ [] else seen k by_kind)
            ++ of_kind k vs
          ≡ seen k by_kind ++ of_kind k (v ∷ vs)
      placed = elim (Bool-cases (str_eq v.kind k)) [
        | inr e ↦ rw e refl
        | inl e ↦ rw e (
            ap (λ j. (seen j by_kind ++ v ∷ []) ++ of_kind k vs) ((eq_iff v.kind k).0 e)
            ∙ append_assoc (seen k by_kind) (v ∷ []) (of_kind k vs))
      ]

  -- The kinds of some verdicts, in the order in which they are first seen.
  abbrev pub kinds : List (FacetVerdict F) → List String
  kinds vs = (group_by_kind fl render [] [] vs).1

  -- What a kind reduces to, by all the verdicts on it.
  abbrev pub reduced_kind : ℕ → List (FacetVerdict F) → String → FacetVerdict F
  reduced_kind f vs k = reduce_per_kind fl render k (of_kind k vs) f (2 * f + 1)

  reductions :
      (f : ℕ) (vs : List (FacetVerdict F)) (order : List String)
      → reduce_all fl render (group_by_kind fl render [] [] vs).0 f order
        ≡ map (reduced_kind f vs) order
  unfolding reduce_all
  reductions f vs [] = refl
  reductions f vs (k ∷ order) =
      ap
        (λ (ws : List (FacetVerdict F)).
          reduce_per_kind fl render k ws f (2 * f + 1)
          ∷ reduce_all fl render (group_by_kind fl render [] [] vs).0 f order)
        (grouped [] [] vs k ∙ ap (λ o. Option.get_or o [] ++ of_kind k vs) (lookup-nil k))
      ∙ ap (λ rest. reduced_kind f vs k ∷ rest) (reductions f vs order)

  noted :
      {A : Type 0} (o : Option A) (order : List String) (kind : String)
      → held o ≡ among order kind
      → Distinct order
      → Distinct (elim o as (λ _. List String) [ none ↦ order ++ kind ∷ [] | some _ ↦ order ])
        × ((k : String)
            → among (elim o as (λ _. List String) [ none ↦ order ++ kind ∷ [] | some _ ↦ order ]) k
              ≡ (among order k || str_eq kind k))
  noted none order kind h d = (
    Distinct-append order kind d (sym h),
    λ k. ground (arith, among-append order kind k, eq_iff kind k, eq_iff k kind),
  )
  noted (some x) order kind h d = (
    d,
    λ k. elim (Bool-cases (str_eq kind k)) [
      | inl e ↦ rw (e, sym (ap (among order) ((eq_iff kind k).0 e)), sym h) refl
      | inr e ↦ rw e (sym (or_false (among order k)))
    ],
  )

  listed :
      (by_kind : Assoc (List (FacetVerdict F))) (order : List String) (vs : List (FacetVerdict F))
      → Distinct order
      → ((k : String) → held (lookup k by_kind) ≡ among order k)
      → Distinct (group_by_kind fl render by_kind order vs).1
        × ((k : String)
            → among (group_by_kind fl render by_kind order vs).1 k
              ≡ (among order k || any (λ v. str_eq v.kind k) vs))
  unfolding group_by_kind
  listed by_kind order [] d a = (d, λ k. ground arith)
  listed by_kind order (v ∷ vs) d a =
      let now = insert v.kind (seen v.kind by_kind ++ v ∷ []) by_kind in
      let (d', a') = noted (lookup v.kind by_kind) order v.kind (a v.kind) d in
      let (e, b) =
        listed now (elim (lookup v.kind by_kind) [ none ↦ order ++ v.kind ∷ [] | some _ ↦ order ])
          vs d'
          (λ k.
            ap held (lookup-insert v.kind k (seen v.kind by_kind ++ v ∷ []) by_kind)
            ∙ held_if (str_eq v.kind k) (seen v.kind by_kind ++ v ∷ []) (lookup k by_kind)
            ∙ rw (a k) refl
            ∙ sym (a' k)) in
      (
        e,
        λ k.
            b k
            ∙ rw (a' k) (or_or (among order k) (str_eq v.kind k) (any (λ w. str_eq w.kind k) vs)),
      )

  -- For a bound F that is not negative and a list of verdicts that is not empty,
  -- `AggregateByzantineRobust` aggregates one verdict for each kind, which is what the kind reduces
  -- to by all the verdicts on it, in their order; the kinds are distinct and those of the verdicts.
  pub byzantine_reduction :
      (f : ℕ) (policy : AggregationPolicy F) (v : FacetVerdict F) (vs : List (FacetVerdict F))
      → (aggregate_byzantine_robust fl render (pos f) policy (v ∷ vs) ≡ (
        aggregate fl policy (map (reduced_kind f (v ∷ vs)) (kinds (v ∷ vs))),
        map (reduced_kind f (v ∷ vs)) (kinds (v ∷ vs)),
      ))
        × Distinct (kinds (v ∷ vs))
        × ((k : String) → among (kinds (v ∷ vs)) k ≡ any (λ w. str_eq w.kind k) (v ∷ vs))
  unfolding aggregate_byzantine_robust
  byzantine_reduction f policy v vs =
      let (d, a) = listed [] [] (v ∷ vs) tt (λ k. ap held (lookup-nil k)) in
      (
        ap (λ reduced. (aggregate fl policy reduced, reduced))
            (reductions f (v ∷ vs) (kinds (v ∷ vs))),
        d,
        a,
      )
