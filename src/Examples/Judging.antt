-- ===== src/Examples/Judging.antt =====
-- Runs of attest on small inputs.
use casper_prover.Prelude.{
  refl, pos, map, Distinct, among, str_eq, ℕ, ◌≤◌, ◌+◌, ◌*◌, ◌≡◌, ◌≢◌, ◌↔◌, ◌||◌, true, false, List,
  [], ◌∷◌, String, some, none, any, all, count, arith, length,
}
use casper_prover.Attest.{
  Verdict, approve, reject, is_approve, is_reject, FacetVerdict, empty, AggregationPolicy,
  DecisionCommit, withholds, aggregate, Reason,
}
use casper_prover.Attest.Outcome.{objects, supports, approve_exactly}
use casper_prover.Attest.Order.{aggregate-perm}
use casper_prover.Attest.Gate.{pending, allowed, ChallengeResult, evaluate}
use casper_prover.Attest.Window.{allowed_for_good}
use casper_prover.Attest.Byzantine.{reduce_per_kind}
use casper_prover.Attest.Byzantine.{aggregate_byzantine_robust}
use casper_prover.Attest.Grouping.{kinds, reduced_kind, byzantine_reduction}
use casper_prover.Attest.Faults.{
  Voter, votes, faulty, honest_reject, honest_approve, reduced, reduction_has_honest_support,
  honest_agreement_prevails,
}
use casper_prover.Attest.Unanimity.{electorate, approve_without_unanimity}
use casper_prover.Examples.{numbers}
use mathlib.Core.List.Perm

abbrev policy : AggregationPolicy ℕ
policy = record { approve_threshold = pos 1; min_confidence = 5 }

abbrev facet : String → Verdict → FacetVerdict ℕ
facet kind v = record { kind = kind; verdict = v; confidence = 7; reason = empty }

abbrev good_facets : List (FacetVerdict ℕ)
good_facets = facet "safety" approve ∷ facet "correctness" approve ∷ []

full : good_facets ≢ []
full h = cc

approve_exactly_example : ((aggregate numbers policy good_facets).verdict ≡ approve) ↔ (
    (any (withholds numbers) good_facets ≡ false)
    × (any (objects numbers policy) good_facets ≡ false)
    × (1 ≤ count (supports numbers policy) good_facets))
approve_exactly_example = approve_exactly numbers policy good_facets full

aggregate-perm_example :
    (aggregate numbers policy good_facets).verdict
    ≡ (aggregate numbers policy (facet "correctness" approve ∷ facet "safety" approve ∷ [])).verdict
aggregate-perm_example =
    aggregate-perm numbers policy full
      (Perm.swap (facet "correctness" approve) (facet "safety" approve) [])

abbrev commit : Verdict → DecisionCommit ℕ
commit v = record {
  decision = record { submitter = "a"; spec_id = "s"; payload = []; nonce = 0; submitted_at = 10 };
  decision_id = "d";
  facet_verdicts = good_facets;
  aggregate = v;
  vetoed_by = "";
  abstain_reason = empty;
}

abbrev challenge : ℕ → ChallengeResult
challenge at = record { successful = true; at = at }

allowed_first : (evaluate 5 20 (commit approve) none).0 ≡ allowed
unfolding evaluate
allowed_first = refl

allowed_for_good_example :
    (evaluate 5 30 (commit approve) none ≡ (allowed, none))
    × (evaluate 5 30 (commit approve) (some (challenge 21)) ≡ (allowed, none))
allowed_for_good_example =
    allowed_for_good 5 20 30 (commit approve) none (challenge 21) allowed_first (omega arith)
      (omega arith)

not_pending : (evaluate 5 15 (commit approve) none).0 ≢ pending
unfolding evaluate
not_pending h = cc

abbrev render : Reason → String
render _ = ""

-- Three voters, the first of them faulty.
abbrev voters : List (Voter numbers render)
voters =
    (true, facet "policy" reject)
    ∷ (false, facet "policy" approve)
    ∷ (false, facet "policy" approve)
    ∷ []

reduction_has_honest_support_example :
    (reduced numbers render "policy" voters 1 (omega arith) ≡ reject
      → any (honest_reject numbers render) voters ≡ true)
    × (reduced numbers render "policy" voters 1 (omega arith) ≡ approve
        → any (honest_approve numbers render) voters ≡ true)
reduction_has_honest_support_example =
    reduction_has_honest_support numbers render "policy" voters 1 (omega arith)

honest_agreement_prevails_example :
    (all (λ v. v.0 || is_approve v.1.verdict) voters ≡ true
      → reduced numbers render "policy" voters 1 (omega arith) ≡ approve)
    × (all (λ v. v.0 || is_reject v.1.verdict) voters ≡ true
        → reduced numbers render "policy" voters 1 (omega arith) ≡ reject)
honest_agreement_prevails_example =
    honest_agreement_prevails numbers render "policy" voters 1 (omega arith) (omega arith)

approve_without_unanimity_example :
    (length (electorate numbers render "policy" 3) ≡ 2 * 3 + 1)
    × (faulty numbers render (electorate numbers render "policy" 3) ≡ 3)
    × (count (honest_approve numbers render) (electorate numbers render "policy" 3) ≡ 1)
    × ((reduce_per_kind numbers render "policy"
          (votes numbers render (electorate numbers render "policy" 3))
          3
          (2 * 3 + 1)).verdict
        ≡ approve)
approve_without_unanimity_example = approve_without_unanimity numbers render "policy" 3

byzantine_reduction_example :
    (aggregate_byzantine_robust numbers render (pos 1) policy (facet "policy" reject ∷ good_facets)
      ≡ (
        aggregate numbers policy (
            map
              (reduced_kind numbers render 1 (facet "policy" reject ∷ good_facets))
              (kinds numbers render (facet "policy" reject ∷ good_facets))),
        map
            (reduced_kind numbers render 1 (facet "policy" reject ∷ good_facets))
            (kinds numbers render (facet "policy" reject ∷ good_facets)),
      ))
    × Distinct (kinds numbers render (facet "policy" reject ∷ good_facets))
    × ((k : String)
        → among (kinds numbers render (facet "policy" reject ∷ good_facets)) k
          ≡ any (λ w. str_eq w.kind k) (facet "policy" reject ∷ good_facets))
byzantine_reduction_example =
    byzantine_reduction numbers render 1 policy (facet "policy" reject) good_facets
