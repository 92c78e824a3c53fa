-- ===== src/Judge/Overall.antt =====
-- engine/internal/judge/facet_judge.go, `Decide`: the verdict on a task and those on its facets.
use casper_prover.Prelude.{
  ℕ, String, Bool, false, some, List, [], ◌∷◌, ◌≡◌, refl, sym, inl, inr, All, any, length, ◌==◌,
  Bool-cases, Option-cases, Outcome, ok, err, arith,
}
use casper_prover.Prelude.Assoc.{Assoc, lookup, insert, values}
use casper_prover.Prelude.Entries.{Known, Known-insert, Known-insert_self, All-lookup}
use casper_prover.Llm.Runner.{Runner, Contexts}
use casper_prover.Judge.{
  Library, Verdict, agree, disagree, abstain, is_disagree, is_abstain, Facet, Task, FacetResult,
  TaskResult, Error, no_facets, aggregate_overall, decide_facet, decide_all, decided, decide_task,
  min_or_default, threshold_or_default,
}

module _ {F : Type 0} where
  All_of_none :
      (test : FacetResult F → Bool) (m : Assoc (FacetResult F))
      → any test (values m) ≡ false
      → All (λ (e : String × FacetResult F). test e.1 ≡ false) m
  All_of_none test [] h = tt
  All_of_none test ((k, r) ∷ m) h = (ground arith, All_of_none test m (ground arith))

  pub overall-ne-disagree :
      (m : Assoc (FacetResult F))
      → is_disagree (aggregate_overall (values m)) ≡ false
      → All (λ (e : String × FacetResult F). is_disagree e.1.verdict ≡ false) m
  unfolding aggregate_overall
  overall-ne-disagree m h = All_of_none (λ r. is_disagree r.verdict) m (ground arith)

  overall-agree :
      (m : Assoc (FacetResult F))
      → aggregate_overall (values m) ≡ agree
      → All (λ (e : String × FacetResult F). is_disagree e.1.verdict ≡ false) m
        × All (λ (e : String × FacetResult F). is_abstain e.1.verdict ≡ false) m
  unfolding aggregate_overall
  overall-agree m h = (
    All_of_none (λ r. is_disagree r.verdict) m (ground arith),
    All_of_none (λ r. is_abstain r.verdict) m (ground arith),
  )

module _ (lib : Library) where
  open lib use {F}

  decide_all-Known :
      (by : Facet F → FacetResult F) (fs : List (Facet F)) (m : Assoc (FacetResult F)) (k : String)
      → Known m k
      → Known (decide_all lib by fs m) k
  unfolding decide_all
  decide_all-Known by [] m k h = h
  decide_all-Known by (f ∷ fs) m k h =
      decide_all-Known by fs (insert f.id (by f) m) k (Known-insert f.id k (by f) m h)

  all_decided :
      (by : Facet F → FacetResult F) (fs : List (Facet F)) (m : Assoc (FacetResult F))
      → All (λ (f : Facet F). Known (decide_all lib by fs m) f.id) fs
  unfolding decide_all
  all_decided by [] m = tt
  all_decided by (f ∷ fs) m = (
    decide_all-Known by fs (insert f.id (by f) m) f.id (Known-insert_self f.id (by f) m),
    all_decided by fs (insert f.id (by f) m),
  )

  -- The result of a facet is there, and is AGREE.
  abbrev pub Agreed : Assoc (FacetResult F) → Facet F → Type 0
  Agreed m f = (r : FacetResult F) × (lookup f.id m ≡ some r) × (r.verdict ≡ agree)

  agree_by_cases : (v : Verdict) → is_disagree v ≡ false → is_abstain v ≡ false → v ≡ agree
  agree_by_cases agree h g = refl
  agree_by_cases disagree h g = cc
  agree_by_cases abstain h g = cc

  Agreed-all :
      (m : Assoc (FacetResult F)) (fs : List (Facet F))
      → All (λ (e : String × FacetResult F). is_disagree e.1.verdict ≡ false) m
      → All (λ (e : String × FacetResult F). is_abstain e.1.verdict ≡ false) m
      → All (λ (f : Facet F). Known m f.id) fs
      → All (Agreed m) fs
  Agreed-all m [] d a h = tt
  Agreed-all m (f ∷ fs) d a (k, h) = (
    (elim (Option-cases (lookup f.id m)) [
      | inl e ↦ absurd (ground arith)
      | inr (r, e) ↦ (
        r,
        e,
        agree_by_cases r.verdict
            (All-lookup (λ (x : String × FacetResult F). is_disagree x.1.verdict ≡ false) f.id m d
              e)
            (All-lookup (λ (x : String × FacetResult F). is_abstain x.1.verdict ≡ false) f.id m a
              e),
      )
    ]),
    Agreed-all m fs d a h,
  )

  module _ (range : Assoc ℕ → List (String × ℕ)) (runner : Runner) (ends : Contexts)
      (task : Task F) where
    abbrev by_facet : Facet F → FacetResult F
    by_facet f =
        decide_facet lib range runner ends task f (min_or_default lib task.min_providers)
          (threshold_or_default lib task.agreement_threshold)

    pub decide_task-decided :
        (res : TaskResult F)
        → decide_task lib range runner ends task ≡ ok res
        → res ≡ decided lib task (decide_all lib by_facet task.facets [])
    unfolding decide_task
    decide_task-decided res h = elim (Bool-cases (length task.facets == 0)) [
      | inl e ↦ absurd (err-ne-ok (rw e at h))
      | inr e ↦ sym (ok_injective (rw e at h))
    ]
      where
        err-ne-ok : {r : TaskResult F} → err no_facets ≡ ok r → ⊥
        err-ne-ok q = cc

        ok_injective :
            {r s : TaskResult F} → ◌≡◌ {A = Outcome Error (TaskResult F)} (ok r) (ok s) → r ≡ s
        ok_injective q = cc

    -- A task is AGREE only if each of its facets has a result, and that result is AGREE.
    pub decide_task-agree :
        (res : TaskResult F)
        → decide_task lib range runner ends task ≡ ok res
        → res.overall_verdict ≡ agree
        → All (Agreed res.facets) task.facets
    decide_task-agree res h won =
        let is_decided = decide_task-decided res h in
        let m = decide_all lib by_facet task.facets [] in
        let (d, a) = overall-agree m (rw is_decided at won) in
        rw is_decided (Agreed-all m task.facets d a (all_decided by_facet task.facets []))
