-- ===== src/Attest/Unanimity.antt =====
-- engine/internal/decision/attest/byzantine.go, `reducePerKind`: what an APPROVE does not say.
use casper_prover.Prelude.{
  ℕ, ◌+◌, ◌*◌, ◌≡◌, Bool, true, false, List, [], ◌∷◌, ◌++◌, String, arith, length, count, replicate,
  length-append, length-replicate, length-map, count-append, count-replicate, map-append_replicate,
}
use casper_prover.Prelude.Float.{Floats}
use casper_prover.Attest.{Verdict, abstain, approve, Reason, empty, FacetVerdict}
use casper_prover.Attest.Byzantine.{votes_reject, votes_approve, reduce_per_kind}
use casper_prover.Attest.Faults.{Voter, votes, faulty, honest_approve, reduced_verdict}

module _ (fl : Floats) (render : Reason → String) (kind : String) where
  abbrev vote : Bool → Verdict → Voter fl render
  vote mark v = (mark, record { kind = kind; verdict = v; confidence = fl.zero; reason = empty })

  -- F faulty APPROVEs, F honest ABSTAINs, and one honest APPROVE.
  abbrev pub electorate : ℕ → List (Voter fl render)
  electorate f =
      replicate f (vote true approve)
      ++ (replicate f (vote false abstain) ++ vote false approve ∷ [])

  -- How a test counts over the electorate, group by group.
  count_electorate :
      (p : Voter fl render → Bool) (f : ℕ)
      → count p (electorate f)
        ≡ count p (replicate f (vote true approve))
          + (count p (replicate f (vote false abstain)) + count p (vote false approve ∷ []))
  count_electorate p f = rw (
    count-append p (replicate f (vote true approve))
        (replicate f (vote false abstain) ++ vote false approve ∷ []),
    count-append p (replicate f (vote false abstain)) (vote false approve ∷ []),
  )

  length-electorate : (f : ℕ) → length (electorate f) ≡ 2 * f + 1
  length-electorate f = omega (
    arith,
    length-append (replicate f (vote true approve))
        (replicate f (vote false abstain) ++ vote false approve ∷ []),
    length-append (replicate f (vote false abstain)) (vote false approve ∷ []),
    length-replicate f (vote true approve),
    length-replicate f (vote false abstain),
  )

  ballots :
      (f : ℕ)
      → votes fl render (electorate f)
        ≡ replicate f (vote true approve).1
          ++ (replicate f (vote false abstain).1 ++ (vote false approve).1 ∷ [])
  ballots f = rw (
    map-append_replicate (λ (v : Voter fl render). v.1) f (vote true approve)
        (replicate f (vote false abstain) ++ vote false approve ∷ []),
    map-append_replicate (λ (v : Voter fl render). v.1) f (vote false abstain)
        (vote false approve ∷ []),
  )

  count_ballots :
      (p : FacetVerdict fl.F → Bool) (f : ℕ)
      → count p (votes fl render (electorate f))
        ≡ count p (replicate f (vote true approve).1)
          + (count p (replicate f (vote false abstain).1) + count p ((vote false approve).1 ∷ []))
  count_ballots p f = rw (
    ballots f,
    count-append p (replicate f (vote true approve).1)
        (replicate f (vote false abstain).1 ++ (vote false approve).1 ∷ []),
    count-append p (replicate f (vote false abstain).1) ((vote false approve).1 ∷ []),
  )

  -- For every bound F there are 2F + 1 voters, F of them faulty, of whom only one honest voter
  -- approves, and the kind still reduces to APPROVE.
  pub approve_without_unanimity :
      (f : ℕ)
      → (length (electorate f) ≡ 2 * f + 1)
        × (faulty fl render (electorate f) ≡ f)
        × (count (honest_approve fl render) (electorate f) ≡ 1)
        × ((reduce_per_kind fl render kind (votes fl render (electorate f)) f (2 * f + 1)).verdict
            ≡ approve)
  approve_without_unanimity f = (
    length-electorate f,
    rw
        (
          count_electorate (λ v. v.0) f,
          count-replicate (λ (v : Voter fl render). v.0) f (vote true approve),
          count-replicate (λ (v : Voter fl render). v.0) f (vote false abstain),
        )
        (omega arith),
    rw
        (
          count_electorate (honest_approve fl render) f,
          count-replicate (honest_approve fl render) f (vote true approve),
          count-replicate (honest_approve fl render) f (vote false abstain),
        )
        (omega arith),
    ground (
      arith,
      reduced_verdict fl render kind (votes fl render (electorate f)) f (2 * f + 1),
      length-electorate f,
      length-map (λ (v : Voter fl render). v.1) (electorate f),
      count_ballots (votes_reject fl render) f,
      count_ballots (votes_approve fl render) f,
      count-replicate (votes_reject fl render) f (vote true approve).1,
      count-replicate (votes_reject fl render) f (vote false abstain).1,
      count-replicate (votes_approve fl render) f (vote true approve).1,
      count-replicate (votes_approve fl render) f (vote false abstain).1,
    ),
  )
