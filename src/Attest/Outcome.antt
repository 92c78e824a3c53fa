-- ===== src/Attest/Outcome.antt =====
-- engine/internal/decision/attest/decision.go, `Aggregate`: when it approves, and when it rejects.
use casper_prover.Prelude.{
  ℕ, suc, ◌+◌, ◌≤◌, ◌≡◌, refl, ◌≢◌, ◌↔◌, ◌⊎◌, inl, inr, Bool, true, false, ◌&&◌, not, List, [], ◌∷◌,
  arith, ℤ, pos, negsuc, leb_int, if◌then◌else◌, any, count, find?, find?-none, find?-some,
  Bool-cases,
}
use native.Mathlib.Nat.{add-zero}
use casper_prover.Prelude.Float.{Floats}
use casper_prover.Attest.{
  Verdict, approve, abstain, reject, is_reject, is_critical, FacetVerdict, AggregationPolicy,
  vetoes, withholds, counts, finish_quorum, quorum_pass, judge, aggregate,
}

-- The count is at least the threshold; it is if the threshold is negative.
abbrev pub Reached : ℤ → ℕ → Type 0
Reached (pos t) n = t ≤ n
Reached (negsuc t) n = Unit

leb_int-Reached : (t : ℤ) (n : ℕ) → (leb_int t (pos n) ≡ true) ↔ Reached t n
leb_int-Reached (pos t) n = ground arith
leb_int-Reached (negsuc t) n = (λ h. tt, λ h. refl)

module _ (fl : Floats) (policy : AggregationPolicy fl.F) where
  -- A non-critical facet that rejects, and one whose approval counts.
  abbrev pub objects : FacetVerdict fl.F → Bool
  objects fv = not (is_critical fv.kind) && is_reject fv.verdict

  abbrev pub supports : FacetVerdict fl.F → Bool
  supports fv = not (is_critical fv.kind) && counts fl policy fv

  quorum_pass_objected :
      (n : ℕ) (vs : List (FacetVerdict fl.F))
      → any objects vs ≡ true
      → (quorum_pass fl policy n vs).verdict ≡ reject
  unfolding quorum_pass
  quorum_pass_objected n [] h = cc
  quorum_pass_objected n (fv ∷ vs) h =
      ground (arith, quorum_pass_objected n vs, quorum_pass_objected (suc n) vs)

  quorum_pass_counted :
      (n : ℕ) (vs : List (FacetVerdict fl.F))
      → any objects vs ≡ false
      → quorum_pass fl policy n vs ≡ finish_quorum fl policy (n + count supports vs)
  unfolding quorum_pass
  quorum_pass_counted n [] h = rw add-zero
  quorum_pass_counted n (fv ∷ vs) h =
      ground (arith, quorum_pass_counted n vs, quorum_pass_counted (suc n) vs)

  -- The verdict as one expression in the four questions that the passes ask.
  abbrev pub verdict_of : Bool → Bool → Bool → ℕ → Verdict
  verdict_of veto withheld objected supporters =
      if veto
      then reject
      else if withheld
      then abstain
      else if objected
      then reject
      else if leb_int policy.approve_threshold (pos supporters)
      then approve
      else abstain

  judge-verdict :
      (vs : List (FacetVerdict fl.F))
      → (judge fl policy (find? (vetoes fl) vs) (find? (withholds fl) vs) vs).verdict
        ≡ verdict_of
            (any (vetoes fl) vs)
            (any (withholds fl) vs)
            (any objects vs)
            (count supports vs)
  unfolding judge
  judge-verdict vs = elim (Bool-cases (any (vetoes fl) vs)) [
    | inl v ↦ let (x, p) = find?-some (vetoes fl) vs v in rw (v, p)
    | inr v ↦ elim (Bool-cases (any (withholds fl) vs)) [
      | inl w ↦
          let (x, p) = find?-some (withholds fl) vs w in rw (v, w, p, find?-none (vetoes fl) vs v)
      | inr w ↦ elim (Bool-cases (any objects vs)) [
        | inl o ↦
            rw (v, w, o, find?-none (vetoes fl) vs v, find?-none (withholds fl) vs w)
              (quorum_pass_objected 0 vs o)
        | inr o ↦
            rw
              (
                v,
                w,
                o,
                find?-none (vetoes fl) vs v,
                find?-none (withholds fl) vs w,
                quorum_pass_counted 0 vs o,
              )
              (ground arith)
      ]
    ]
  ]

  pub aggregate-verdict :
      (vs : List (FacetVerdict fl.F))
      → vs ≢ []
      → (aggregate fl policy vs).verdict
        ≡ verdict_of
            (any (vetoes fl) vs)
            (any (withholds fl) vs)
            (any objects vs)
            (count supports vs)
  unfolding aggregate
  aggregate-verdict [] h = absurd (h refl)
  aggregate-verdict (fv ∷ vs) h = judge-verdict (fv ∷ vs)

  veto_withholds :
      (vs : List (FacetVerdict fl.F)) → any (withholds fl) vs ≡ false → any (vetoes fl) vs ≡ false
  veto_withholds [] h = refl
  veto_withholds (fv ∷ vs) h = ground (arith, veto_withholds vs)

  -- `Aggregate` approves a non-empty list exactly when no critical facet failed to approve, no
  -- other facet rejects, and enough other facets approve with the confidence asked for.
  pub approve_exactly :
      (vs : List (FacetVerdict fl.F))
      → vs ≢ []
      → ((aggregate fl policy vs).verdict ≡ approve) ↔ (
          (any (withholds fl) vs ≡ false)
          × (any objects vs ≡ false)
          × Reached policy.approve_threshold (count supports vs))
  approve_exactly vs h = ground (
    arith,
    aggregate-verdict vs h,
    veto_withholds vs,
    leb_int-Reached policy.approve_threshold (count supports vs),
  )

  -- `Aggregate` rejects exactly when a critical facet rejects, or when every critical facet
  -- approves and another facet rejects.
  pub reject_exactly :
      (vs : List (FacetVerdict fl.F))
      → vs ≢ []
      → ((aggregate fl policy vs).verdict ≡ reject) ↔ (
          (any (vetoes fl) vs ≡ true) ⊎ ((any (withholds fl) vs ≡ false) × (any objects vs ≡ true)))
  reject_exactly vs h = ground (arith, aggregate-verdict vs h, veto_withholds vs)
