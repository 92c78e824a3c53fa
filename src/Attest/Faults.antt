-- ===== src/Attest/Faults.antt =====
-- engine/internal/decision/attest/byzantine.go, `reducePerKind`: what up to F faulty voters can do.
-- A voter is a pair of a mark, true for a faulty one, and its verdict.
use casper_prover.Prelude.{
  ℕ, ◌+◌, ◌-◌, ◌*◌, ◌≤◌, ◌≡◌, Bool, true, ◌&&◌, ◌||◌, not, List, [], ◌∷◌, map, String, arith, ltb,
  leb, if◌then◌else◌, length, any, all, count, length-map, length-select, any_of_count,
}
use casper_prover.Prelude.Float.{Floats}
use casper_prover.Attest.{
  Verdict, abstain, approve, reject, is_approve, is_reject, Reason, FacetVerdict,
}
use casper_prover.Attest.Byzantine.{votes_reject, votes_approve, reduce_per_kind}

module _ (fl : Floats) (render : Reason → String) where
  abbrev pub Voter : Type 0
  Voter = Bool × FacetVerdict fl.F

  abbrev pub votes : List Voter → List (FacetVerdict fl.F)
  votes = map (λ v. v.1)

  abbrev pub faulty : List Voter → ℕ
  faulty = count (λ v. v.0)

  abbrev pub honest_reject : Voter → Bool
  honest_reject v = not v.0 && is_reject v.1.verdict

  abbrev pub honest_approve : Voter → Bool
  honest_approve v = not v.0 && is_approve v.1.verdict

  pub reduced_verdict :
      (kind : String) (vs : List (FacetVerdict fl.F)) (f required : ℕ)
      → (reduce_per_kind fl render kind vs f required).verdict ≡ (
          if ltb (length vs) required
          then abstain
          else if leb (f + 1) (count (votes_reject fl render) vs)
          then reject
          else if leb (length vs - f) (count (votes_approve fl render) vs)
          then approve
          else abstain)
  unfolding reduce_per_kind
  reduced_verdict kind vs f required =
      ground (
        arith,
        length-select (votes_reject fl render) vs,
        length-select (votes_approve fl render) vs,
      )

  rejects_bounded :
      (vs : List Voter)
      → count (votes_reject fl render) (votes vs) ≤ faulty vs + count honest_reject vs
  rejects_bounded [] = omega arith
  rejects_bounded (v ∷ vs) = ground (arith, rejects_bounded vs)

  approves_bounded :
      (vs : List Voter)
      → count (votes_approve fl render) (votes vs) ≤ faulty vs + count honest_approve vs
  approves_bounded [] = omega arith
  approves_bounded (v ∷ vs) = ground (arith, approves_bounded vs)

  honest_approves :
      (vs : List Voter)
      → all (λ v. v.0 || is_approve v.1.verdict) vs ≡ true
      → (length vs ≤ count (votes_approve fl render) (votes vs) + faulty vs)
        × (count (votes_reject fl render) (votes vs) ≤ faulty vs)
  honest_approves [] h = omega arith
  honest_approves (v ∷ vs) h = ground (arith, honest_approves vs)

  honest_rejects :
      (vs : List Voter)
      → all (λ v. v.0 || is_reject v.1.verdict) vs ≡ true
      → length vs ≤ count (votes_reject fl render) (votes vs) + faulty vs
  honest_rejects [] h = omega arith
  honest_rejects (v ∷ vs) h = ground (arith, honest_rejects vs)

  module _ (kind : String) (vs : List Voter) (f : ℕ) (few : faulty vs ≤ f) where
    abbrev pub reduced : Verdict
    reduced = (reduce_per_kind fl render kind (votes vs) f (2 * f + 1)).verdict

    -- With at most F faulty voters, a kind that reduces to REJECT has an honest voter who
    -- rejected, and a kind that reduces to APPROVE has an honest voter who approved.
    pub reduction_has_honest_support :
        (reduced ≡ reject → any honest_reject vs ≡ true)
        × (reduced ≡ approve → any honest_approve vs ≡ true)
    reduction_has_honest_support = ground (
      arith,
      reduced_verdict kind (votes vs) f (2 * f + 1),
      rejects_bounded vs,
      approves_bounded vs,
      any_of_count honest_reject vs,
      any_of_count honest_approve vs,
      length-map (λ (v : Voter). v.1) vs,
    )

    -- With at least 2F + 1 voters of whom at most F are faulty, the honest voters prevail when
    -- they agree: all approving gives APPROVE, all rejecting gives REJECT.
    pub honest_agreement_prevails :
        2 * f + 1 ≤ length vs
        → (all (λ v. v.0 || is_approve v.1.verdict) vs ≡ true → reduced ≡ approve)
          × (all (λ v. v.0 || is_reject v.1.verdict) vs ≡ true → reduced ≡ reject)
    honest_agreement_prevails enough = ground (
      arith,
      reduced_verdict kind (votes vs) f (2 * f + 1),
      rejects_bounded vs,
      approves_bounded vs,
      any_of_count honest_reject vs,
      any_of_count honest_approve vs,
      length-map (λ (v : Voter). v.1) vs,
      honest_approves vs,
      honest_rejects vs,
    )
