-- ===== src/Attest/Byzantine.antt =====
-- engine/internal/decision/attest/byzantine.go: several voters for each facet kind.
use mathlib.Core.Option
use casper_prover.Prelude.{
  ℕ, suc, ◌+◌, ◌-◌, ◌*◌, ◌/◌, ◌%◌, String, Bool, ◌||◌, not, none, some, List, [], ◌∷◌, ◌++◌, map,
  leb, ltb, ◌==◌, if◌then◌else◌, length, select, count, get_or, ℤ, pos, negsuc,
}
use casper_prover.Prelude.Assoc.{Assoc, lookup, insert}
use casper_prover.Prelude.Sort.{sort, str_ltb}
use casper_prover.Prelude.Float.{Floats, nan_first}
use casper_prover.Attest.{
  unknown, abstain, approve, reject, is_approve, is_reject, Reason, empty, insufficient_redundancy,
  byzantine_reject, byzantine_approve, no_honest_quorum, FacetVerdict, AggregationPolicy,
  AggregateError, empty_byzantine_input, negative_bound, AggregateResult, aggregate,
}

-- `render` is the text that the source formats for a reason; it decides which of two equally
-- confident REJECTs is cited.
module _ (fl : Floats) (render : Reason → String) where
  open fl use {F, less}

  abbrev pub votes_reject : FacetVerdict F → Bool
  votes_reject v = is_reject v.verdict

  abbrev pub votes_approve : FacetVerdict F → Bool
  votes_approve v = is_approve v.verdict

  -- `medianConfidence`
  unfoldable pub median_confidence : List (FacetVerdict F) → F
  median_confidence [] = fl.zero
  median_confidence (v ∷ vs) =
      let confs = sort (nan_first fl) (map (λ (w : FacetVerdict F). w.confidence) (v ∷ vs)) in
      let mid = length confs / 2 in
      if length confs % 2 == 1
      then get_or confs mid fl.zero
      else fl.div_nat (fl.add (get_or confs (mid - 1) fl.zero) (get_or confs mid fl.zero)) 2

  -- The order in which REJECTs are cited: by confidence, highest first, then by reason.
  abbrev cited_before : FacetVerdict F → FacetVerdict F → Bool
  cited_before v w =
      if not (fl.eq v.confidence w.confidence)
      then less w.confidence v.confidence
      else str_ltb (render v.reason) (render w.reason)

  first_reason : List (FacetVerdict F) → Reason
  first_reason [] = empty
  first_reason (v ∷ _) = v.reason

  -- `reducePerKind`, with `required` = 2f + 1 from its caller.
  unfoldable pub reduce_per_kind : String → List (FacetVerdict F) → ℕ → ℕ → FacetVerdict F
  unfolding first_reason median_confidence
  reduce_per_kind kind voters f required =
      let n = length voters in
      let rejects = select votes_reject voters in
      let approves = select votes_approve voters in
      let abstains = count (λ v. not (votes_reject v || votes_approve v)) voters in
      if ltb n required
      then record {
        kind = kind;
        verdict = abstain;
        confidence = fl.zero;
        reason = insufficient_redundancy n required f;
      }
      else if leb (f + 1) (length rejects)
      then record {
        kind = kind;
        verdict = reject;
        confidence = median_confidence rejects;
        reason = byzantine_reject (length rejects) n f (first_reason (sort cited_before rejects));
      }
      else if leb (n - f) (length approves)
      then record {
        kind = kind;
        verdict = approve;
        confidence = median_confidence approves;
        reason = byzantine_approve (length approves) n f;
      }
      else record {
        kind = kind;
        verdict = abstain;
        confidence = fl.zero;
        reason = no_honest_quorum (length rejects) (length approves) abstains f n;
      }

  -- The grouping loop: `byKind`, and the kinds in the order in which they were first seen.
  unfoldable pub group_by_kind :
      Assoc (List (FacetVerdict F))
      → List String
      → List (FacetVerdict F)
      → Assoc (List (FacetVerdict F)) × List String
  group_by_kind by_kind order [] = (by_kind, order)
  group_by_kind by_kind order (v ∷ vs) =
      let seen = lookup v.kind by_kind in
      group_by_kind (insert v.kind (Option.get_or seen [] ++ v ∷ []) by_kind)
        (elim seen [ none ↦ order ++ v.kind ∷ [] | some _ ↦ order ]) vs

  unfoldable pub reduce_all :
      Assoc (List (FacetVerdict F)) → ℕ → List String → List (FacetVerdict F)
  reduce_all by_kind f [] = []
  reduce_all by_kind f (kind ∷ order) =
      reduce_per_kind kind (Option.get_or (lookup kind by_kind) []) f (2 * f + 1)
      ∷ reduce_all by_kind f order

  abbrev refused : AggregateError → AggregateResult × List (FacetVerdict F)
  refused e = (record { verdict = unknown; vetoed_by = ""; reason = empty; error = some e }, [])

  -- `AggregateByzantineRobust`; its fifth result is the reduced list.
  unfoldable pub aggregate_byzantine_robust :
      ℤ → AggregationPolicy F → List (FacetVerdict F) → AggregateResult × List (FacetVerdict F)
  unfolding group_by_kind reduce_all
  aggregate_byzantine_robust bound policy [] = refused empty_byzantine_input
  aggregate_byzantine_robust (negsuc n) policy (v ∷ vs) = refused (negative_bound (suc n))
  aggregate_byzantine_robust (pos f) policy (v ∷ vs) =
      let (by_kind, order) = group_by_kind [] [] (v ∷ vs) in
      let reduced = reduce_all by_kind f order in (aggregate fl policy reduced, reduced)
