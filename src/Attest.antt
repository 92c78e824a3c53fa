-- ===== src/Attest.antt =====
-- engine/internal/decision/attest/decision.go: facet verdicts and their aggregation.
-- Confidences are `float64`, a parameter (Prelude/Float). A reason that the source formats into a
-- string is the data that it formats.
pub mod Gate
pub mod Byzantine
pub mod Outcome
pub mod Order
pub mod Faults
pub mod Unanimity
pub mod Window
pub mod Grouping
use casper_prover.Prelude.{
  ℕ, suc, String, Bool, true, false, ◌&&◌, ◌||◌, not, Option, none, some, List, [], ◌∷◌, ℤ, pos,
  leb_int, str_eq, if◌then◌else◌, find?,
}
use casper_prover.Prelude.Float.{Floats}

-- `Verdict`
pub data Verdict : Type 0 where
  unknown approve abstain reject : Verdict

abbrev pub is_reject : Verdict → Bool
is_reject reject = true
is_reject _ = false

abbrev pub is_approve : Verdict → Bool
is_approve approve = true
is_approve _ = false

-- `FacetKind.isCritical`; a kind is a string, and any string may come in.
abbrev pub is_critical : String → Bool
is_critical k = str_eq k "safety" || str_eq k "equivocation"

pub data Reason : Type 0 where
  empty : Reason
  text : String → Reason
  critical_veto : Reason → Reason
  critical_not_approved : String → Verdict → Reason
  non_critical_reject : Reason → Reason
  quorum_not_reached : ℕ → ℤ → Reason
  insufficient_redundancy : ℕ → ℕ → ℕ → Reason
  byzantine_reject : ℕ → ℕ → ℕ → Reason → Reason
  byzantine_approve : ℕ → ℕ → ℕ → Reason
  no_honest_quorum : ℕ → ℕ → ℕ → ℕ → ℕ → Reason

pub record FacetVerdict (F : Type 0) : Type 0 where
  pub kind : String
  pub verdict : Verdict
  pub confidence : F
  pub reason : Reason

-- `Decision`; a `time.Time` is a number of nanoseconds, and a `[]byte` a list of byte values.
pub record Decision : Type 0 where
  pub submitter : String
  pub spec_id : String
  pub payload : List ℕ
  pub nonce : ℕ
  pub submitted_at : ℕ

-- `DecisionCommit`; an empty `VetoedBy` is the empty string.
pub record DecisionCommit (F : Type 0) : Type 0 where
  pub decision : Decision
  pub decision_id : String
  pub facet_verdicts : List (FacetVerdict F)
  pub aggregate : Verdict
  pub vetoed_by : String
  pub abstain_reason : Reason

pub record AggregationPolicy (F : Type 0) : Type 0 where
  pub approve_threshold : ℤ
  pub min_confidence : F

pub data AggregateError : Type 0 where
  no_facet_verdicts : AggregateError
  empty_byzantine_input : AggregateError
  -- a bound F below 0, with its absolute value
  negative_bound : ℕ → AggregateError

-- The four results of `Aggregate`.
pub record AggregateResult : Type 0 where
  pub verdict : Verdict
  pub vetoed_by : String
  pub reason : Reason
  pub error : Option AggregateError

module _ (fl : Floats) where
  open fl use {F, le}

  -- The test of the veto pass, and of the pass over critical facets that did not approve.
  abbrev pub vetoes : FacetVerdict F → Bool
  vetoes fv = is_critical fv.kind && is_reject fv.verdict

  abbrev pub withholds : FacetVerdict F → Bool
  withholds fv = is_critical fv.kind && not (is_approve fv.verdict)

  -- The quorum pass: an early return on a non-critical REJECT, or the number of approvals.
  abbrev pub finish_quorum : AggregationPolicy F → ℕ → AggregateResult
  finish_quorum policy approves =
      if leb_int policy.approve_threshold (pos approves)
      then record { verdict = approve; vetoed_by = ""; reason = empty; error = none }
      else record {
        verdict = abstain;
        vetoed_by = "";
        reason = quorum_not_reached approves policy.approve_threshold;
        error = none;
      }

  -- The step of the loop: what a facet adds to the count.
  abbrev pub counts : AggregationPolicy F → FacetVerdict F → Bool
  counts policy fv = is_approve fv.verdict && le policy.min_confidence fv.confidence

  unfoldable pub quorum_pass : AggregationPolicy F → ℕ → List (FacetVerdict F) → AggregateResult
  quorum_pass policy approves [] = finish_quorum policy approves
  quorum_pass policy approves (fv ∷ rest) = elim (is_critical fv.kind) [
    | true ↦ quorum_pass policy approves rest
    | false ↦ elim (is_reject fv.verdict) [
      | true ↦ record {
        verdict = reject;
        vetoed_by = "";
        reason = non_critical_reject fv.reason;
        error = none;
      }
      | false ↦ quorum_pass policy (if counts policy fv then suc approves else approves) rest
    ]
  ]

  -- The passes in order, each over all the verdicts.
  unfoldable pub judge :
      AggregationPolicy F
      → Option (FacetVerdict F)
      → Option (FacetVerdict F)
      → List (FacetVerdict F)
      → AggregateResult
  judge policy (some fv) _ verdicts = record {
    verdict = reject;
    vetoed_by = fv.kind;
    reason = critical_veto fv.reason;
    error = none;
  }
  judge policy none (some fv) verdicts = record {
    verdict = abstain;
    vetoed_by = "";
    reason = critical_not_approved fv.kind fv.verdict;
    error = none;
  }
  judge policy none none verdicts = quorum_pass policy 0 verdicts

  -- `Aggregate`
  unfoldable pub aggregate : AggregationPolicy F → List (FacetVerdict F) → AggregateResult
  unfolding judge
  aggregate policy [] = record {
    verdict = unknown;
    vetoed_by = "";
    reason = empty;
    error = some no_facet_verdicts;
  }
  aggregate policy (fv ∷ rest) =
      judge policy (find? vetoes (fv ∷ rest)) (find? withholds (fv ∷ rest)) (fv ∷ rest)
