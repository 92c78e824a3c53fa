-- ===== src/Judge/Review.antt =====
-- engine/internal/judge/hitl/hitl.go on the results of engine/internal/judge/facet_judge.go.
use casper_prover.Prelude.{
  ℕ, ◌+◌, String, true, false, Option, none, some, List, [], ◌∷◌, ◌≡◌, refl, sym, ◌∙◌, ◌⊎◌, inl,
  inr, All, map, ltb, ◌==◌, length, Bool-cases, Outcome, ok, err, succeeds_through, arith,
}
use casper_prover.Prelude.Assoc.{Assoc, lookup, values}
use casper_prover.Prelude.Entries.{All-lookup}
use casper_prover.Hex.{bytes_eq, bytes_eq_refl, encode, encode-ne-nil}
use casper_prover.Llm.Runner.{Runner, Contexts}
use casper_prover.Judge.{
  Library, Verdict, agree, disagree, abstain, is_disagree, is_abstain, Facet, Task, FacetResult,
  TaskResult, aggregate_overall, decide_task,
}
use casper_prover.Judge.Overall.{overall-ne-disagree, decide_task-decided}
use casper_prover.Judge.Escalation.{
  low, medium, Event, Error, Encoder, Counts, tick, summary, summary_of, count_verdicts,
  classify_severity, event_of, no_counts, compute_digest, hashed, canonicalize, build_abstained,
  build_event, verify, first_error, deliver_each, deliver,
}

module _ {F : Type 0} (zero_fraction : F) (enc : Encoder F) where
  build_abstained-ok :
      (task : Task F) (tr : TaskResult F) (now : ℕ) (ev : Event F)
      → build_abstained zero_fraction enc task tr now ≡ ok ev
      → (is_abstain tr.overall_verdict ≡ true)
        × ((d : List ℕ) × (compute_digest zero_fraction enc (event_of zero_fraction task tr now)
              ≡ ok d)
            × (ev ≡ record (event_of zero_fraction task tr now) { digest = d }))
  unfolding build_abstained
  build_abstained-ok task tr now ev h = elim (Bool-cases (is_abstain tr.overall_verdict)) [
    | inl e ↦
        let (d, made, same) =
          succeeds_through (compute_digest zero_fraction enc (event_of zero_fraction task tr now))
            (λ x. ok (record (event_of zero_fraction task tr now) { digest = x })) (rw e at h) in
        (e, (d, made, ok_event _ _ (sym same)))
    | inr e ↦ absurd (err-ne-ok (rw e at h))
  ]
    where
      ok_event : (x y : Event F) → ◌≡◌ {A = Outcome Error (Event F)} (ok x) (ok y) → x ≡ y
      ok_event x y q = cc

      err-ne-ok : {e : Error} {x : Event F} → err e ≡ ok x → ⊥
      err-ne-ok q = cc

  hashed-ne-nil :
      (o : Option (List ℕ)) (d : List ℕ) → hashed zero_fraction enc o ≡ ok d → bytes_eq d [] ≡ false
  hashed-ne-nil none d h = cc
  hashed-ne-nil (some b) d h =
      let same : encode (enc.sha.sum b) ≡ d = cc in
      rw (← same) (full_text (enc.sha.sum b) (enc.sha.sum-IsDigest b).size)
    where
      full_text : (bs : List ℕ) → length bs ≡ 32 → bytes_eq (encode bs) [] ≡ false
      full_text [] q = absurd (omega arith)
      full_text (x ∷ bs) q = encode-ne-nil x bs

  made-ne-nil :
      (ev : Event F) (d : List ℕ)
      → compute_digest zero_fraction enc ev ≡ ok d
      → bytes_eq d [] ≡ false
  unfolding compute_digest
  made-ne-nil ev d h =
      hashed-ne-nil (canonicalize zero_fraction enc (enc.decoded (record ev { digest = [] }))) d h

  verifies :
      (ev : Event F) (d : List ℕ)
      → compute_digest zero_fraction enc ev ≡ ok d
      → verify zero_fraction enc (record ev { digest = d }) ≡ none
  unfolding verify compute_digest
  verifies ev d h = rw (made-ne-nil ev d h, h) (rw (bytes_eq_refl d) refl)

  -- Verify accepts every event that BuildEvent returns.
  pub verify-build_event :
      (task : Option (Task F)) (tr : Option (TaskResult F)) (now : ℕ) (ev : Event F)
      → build_event zero_fraction enc task tr now ≡ ok ev
      → verify zero_fraction enc ev ≡ none
  unfolding build_event
  verify-build_event none tr now ev h = cc
  verify-build_event (some task) none now ev h = cc
  verify-build_event (some task) (some tr) now ev h =
      let (abstains, (d, made, same)) = build_abstained-ok task tr now ev h in
      rw same (verifies (event_of zero_fraction task tr now) d made)

  -- Facets of which none is DISAGREE add nothing to the count of those.
  calm :
      (m : Assoc (FacetResult F)) (fs : List (Facet F)) (c : Counts)
      → All (λ (e : String × FacetResult F). is_disagree e.1.verdict ≡ false) m
      → (count_verdicts zero_fraction (map (summary zero_fraction m) fs) c).disagreeing
        ≡ c.disagreeing
  unfolding count_verdicts
  calm m [] c h = refl
  calm m (f ∷ fs) c h =
      calm m fs (tick (summary zero_fraction m f).verdict c) h
      ∙ ticked (lookup f.id m) (λ r e.
        All-lookup (λ (x : String × FacetResult F). is_disagree x.1.verdict ≡ false) f.id m h e)
    where
      by_verdict : (v : Verdict) → is_disagree v ≡ false → (tick v c).disagreeing ≡ c.disagreeing
      by_verdict agree q = refl
      by_verdict abstain q = refl
      by_verdict disagree q = cc

      ticked :
          (o : Option (FacetResult F))
          → ((r : FacetResult F) → o ≡ some r → is_disagree r.verdict ≡ false)
          → (tick (summary_of zero_fraction f o).verdict c).disagreeing ≡ c.disagreeing
      ticked none q = refl
      ticked (some r) q = by_verdict r.verdict (q r refl)

mild :
    (c : Counts) → c.disagreeing ≡ 0 → (classify_severity c ≡ low) ⊎ (classify_severity c ≡ medium)
unfolding classify_severity
mild c h = elim (Bool-cases (c.agreeing + c.abstaining + c.disagreeing == 0)) [
  | inl e ↦ inl (rw e refl)
  | inr e ↦ elim (Bool-cases (ltb 1 c.abstaining)) [
    | inl g ↦ inr (ground arith)
    | inr g ↦ inl (ground arith)
  ]
]

abstain-ne-disagree : (v : Verdict) → is_abstain v ≡ true → is_disagree v ≡ false
abstain-ne-disagree abstain h = refl
abstain-ne-disagree agree h = cc
abstain-ne-disagree disagree h = cc

-- An event for a result of Decide is of low or medium severity: HIGH and CRITICAL, which ask for a
-- facet that is DISAGREE, cannot occur.
pub build_event-severity :
    (lib : Library) (enc : Encoder lib.F) (range : Assoc ℕ → List (String × ℕ)) (runner : Runner)
    (ends : Contexts) (task : Task lib.F) (res : TaskResult lib.F) (now : ℕ) (ev : Event lib.F)
    → decide_task lib range runner ends task ≡ ok res
    → build_event lib.zero enc (some task) (some res) now ≡ ok ev
    → (ev.severity ≡ low) ⊎ (ev.severity ≡ medium)
unfolding build_event
build_event-severity lib enc range runner ends task res now ev h built =
    let is_decided = decide_task-decided lib range runner ends task res h in
    let (abstains, (d, made, same)) = build_abstained-ok lib.zero enc task res now ev built in
    let overall : res.overall_verdict ≡ aggregate_overall (values res.facets) =
      rw is_decided refl in
    let peaceful =
      overall-ne-disagree res.facets
        (rw overall at (abstain-ne-disagree res.overall_verdict abstains)) in
    rw same (
      mild
        (count_verdicts lib.zero (map (summary lib.zero res.facets) task.facets)
          (no_counts lib.zero))
        (calm lib.zero enc res.facets task.facets (no_counts lib.zero) peaceful))

-- The first error of the sinks, in their order.
abbrev pub first_of {ℓ} : {A : Type ℓ} → List (Option A) → Option A
first_of [] = none
first_of (o ∷ os) = first_error o (first_of os)

deliver_each-first_of :
    {E : Type 0} {Ev : Type 0} (ev : Ev) (sinks : List (Ev → Option E)) (first : Option E)
    → deliver_each ev sinks first
      ≡ (first_error first (first_of (map (λ (s : Ev → Option E). s ev) sinks)), length sinks)
unfolding deliver_each
deliver_each-first_of ev [] none = refl
deliver_each-first_of ev [] (some e) = refl
deliver_each-first_of ev (sink ∷ sinks) none = rw (deliver_each-first_of ev sinks (sink ev)) refl
deliver_each-first_of ev (sink ∷ sinks) (some e) = rw (deliver_each-first_of ev sinks (some e)) refl

-- Deliver calls every sink, whatever the others return, and returns the first error in their order.
pub deliver-first_of :
    {E : Type 0} {Ev : Type 0} (ev : Ev) (sinks : List (Ev → Option E))
    → deliver ev sinks ≡ (first_of (map (λ (s : Ev → Option E). s ev) sinks), length sinks)
unfolding deliver
deliver-first_of ev sinks = deliver_each-first_of ev sinks none
