-- ===== src/Hitl/Veto.antt =====
-- engine/internal/hitl/hitl.go with engine/internal/decision/attest/decision.go: the veto of the
-- aggregate and the veto of the policy.
use mathlib.Core.Path.{subst}
use casper_prover.Prelude.{
  err, ok, ℕ, suc, String, Bool, true, false, not, some, List, [], ◌∷◌, ◌≡◌, ◌≢◌, ◌&&◌, arith, refl,
  str_eq, any, find?, find?-none, find?-some, if◌then◌else◌, Bool-cases, inl, inr, eq_iff,
  Option-cases, ap, ◌∙◌,
}
use casper_prover.Prelude.Float.{Floats}
use casper_prover.Attest.{
  is_reject, DecisionCommit, FacetVerdict, aggregate, AggregationPolicy, judge, quorum_pass,
  is_critical, vetoes, withholds, counts,
}
use casper_prover.Hitl.{
  veto, Policy, Response, Tickets, Result, open_ticket, decide, weigh, hard_veto, create,
}

abbrev pub answers_veto : {F : Type 0} → Result (Response F) × Tickets F → Bool
answers_veto (err e, s) = false
answers_veto (ok r, s) = elim r.action [ veto ↦ true | _ ↦ false ]

module _ (fl : Floats) where
  open fl use {F}

  quorum_pass-vetoed_by :
      (agg : AggregationPolicy F) (n : ℕ) (vs : List (FacetVerdict F))
      → (quorum_pass fl agg n vs).vetoed_by ≡ ""
  unfolding quorum_pass
  quorum_pass-vetoed_by agg n [] = ground arith
  quorum_pass-vetoed_by agg n (v ∷ vs) = ground (
    arith,
    quorum_pass-vetoed_by agg n vs,
    quorum_pass-vetoed_by agg (if counts fl agg v then suc n else n) vs,
  )

  find?-holds :
      (p : FacetVerdict F → Bool) (vs : List (FacetVerdict F)) (v : FacetVerdict F)
      → find? p vs ≡ some v
      → p v ≡ true
  find?-holds p [] v h = cc
  find?-holds p (x ∷ vs) v h = ground (arith, find?-holds p vs v)

  and_false : (b : Bool) → (b && false) ≡ false
  and_false b = ground arith

  critical_named : (k : String) → is_critical k ≡ true → str_eq k "" ≡ false
  critical_named k h = elim (Bool-cases (str_eq k "")) [
    | inl e ↦
        let same : k ≡ "" = (eq_iff k "").0 e in
        cc (subst (λ (j : String). is_critical j ≡ true) same h)
    | inr e ↦ e
  ]

  judge-veto :
      (agg : AggregationPolicy F) (vs : List (FacetVerdict F))
      → (is_reject (judge fl agg (find? (vetoes fl) vs) (find? (withholds fl) vs) vs).verdict
          && not (
              str_eq
                (judge fl agg (find? (vetoes fl) vs) (find? (withholds fl) vs) vs).vetoed_by
                ""))
        ≡ any (vetoes fl) vs
  unfolding judge
  judge-veto agg vs = elim (Bool-cases (any (vetoes fl) vs)) [
    | inl e ↦
        let (v, q) = find?-some (vetoes fl) vs e in
        let h = find?-holds (vetoes fl) vs v q in
        rw (q, e) (ap not (critical_named v.kind (ground arith)))
    | inr e ↦ elim (Option-cases (find? (withholds fl) vs)) [
      | inr (v, q) ↦ rw (find?-none (vetoes fl) vs e, q, e) refl
      | inl q ↦
          rw (find?-none (vetoes fl) vs e, q, e, quorum_pass-vetoed_by agg 0 vs)
            (and_false (is_reject (quorum_pass fl agg 0 vs).verdict))
    ]
  ]

  aggregate-judge :
      (agg : AggregationPolicy F) (vs : List (FacetVerdict F))
      → vs ≢ []
      → aggregate fl agg vs ≡ judge fl agg (find? (vetoes fl) vs) (find? (withholds fl) vs) vs
  unfolding aggregate
  aggregate-judge agg [] h = absurd (h refl)
  aggregate-judge agg (v ∷ vs) h = refl

  decide-veto :
      (policy : Policy F) (commit : DecisionCommit F) (id : String) (now : ℕ) (s : Tickets F)
      → answers_veto (decide fl policy commit id now s) ≡ hard_veto fl policy commit
  unfolding decide weigh open_ticket create
  decide-veto policy commit id now s = ground arith

  -- A policy that vetoes critical REJECTs answers VETO to a commit that `Aggregate` decided exactly
  -- when a critical facet of it voted REJECT.
  pub veto_exactly :
      (policy : Policy F) (agg : AggregationPolicy F) (commit : DecisionCommit F) (id : String)
      (now : ℕ) (s : Tickets F)
      → policy.veto_on_critical_reject ≡ true
      → commit.facet_verdicts ≢ []
      → commit.aggregate ≡ (aggregate fl agg commit.facet_verdicts).verdict
      → commit.vetoed_by ≡ (aggregate fl agg commit.facet_verdicts).vetoed_by
      → answers_veto (decide fl policy commit id now s) ≡ any (vetoes fl) commit.facet_verdicts
  veto_exactly policy agg commit id now s on full a v =
      let h : hard_veto fl policy commit ≡ any (vetoes fl) commit.facet_verdicts =
        rw (on, a, v, aggregate-judge agg commit.facet_verdicts full)
          (judge-veto agg commit.facet_verdicts) in
      decide-veto policy commit id now s ∙ h
