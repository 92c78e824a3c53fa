-- ===== src/Judge/Escalation.antt =====
-- engine/internal/judge/hitl/hitl.go: the event that an abstention sends to human review, its digest,
-- and its delivery to several sinks. The clock, JSON and SHA-256 are inputs.
use casper_prover.Prelude.{
  ℕ, suc, ◌+◌, ◌*◌, String, Bool, Option, none, some, List, [], ◌∷◌, ◌++◌, ltb, ◌==◌, str_eq,
  if◌then◌else◌, map, Outcome, ok, err, ◌>>=◌,
}
use casper_prover.Prelude.Assoc.{Assoc, lookup}
use casper_prover.Prelude.Sort.{sort, str_ltb}
use casper_prover.Hex.{bytes_eq, encode}
use casper_prover.Merkle.Digest.{Sha256}
use casper_prover.Judge.{
  Verdict, agree, disagree, abstain, is_abstain, Vote, Facet, Task, FacetResult, TaskResult, bump,
}

pub data Severity : Type 0 where
  low medium high critical : Severity

pub record VoteSummary : Type 0 where
  pub provider_id : String
  pub value : String
  pub latency_ms : ℕ
  pub error : String

pub record FacetSummary (F : Type 0) : Type 0 where
  pub facet_id : String
  pub prompt : String
  pub allowed_values : List String
  pub verdict : Verdict
  pub winner : String
  pub live_count : ℕ
  pub agreement_fraction : F
  pub votes : List VoteSummary
  pub vote_histogram : Assoc ℕ

-- The three numbers that the reason is formatted from.
pub record Reason : Type 0 where
  pub agreeing : ℕ
  pub abstaining : ℕ
  pub disagreeing : ℕ

-- `EscalationEvent`; the digest is the hexadecimal text's bytes.
pub record Event (F : Type 0) : Type 0 where
  pub version : String
  pub timestamp : ℕ
  pub task_id : String
  pub input : String
  pub system_msg : String
  pub overall : Verdict
  pub severity : Severity
  pub reason : Reason
  pub facets : List (FacetSummary F)
  pub digest : List ℕ

pub data Error : Type 0 where
  nil_task nil_result bad_json no_digest digest_mismatch : Error
  not_abstaining : Verdict → Error

-- A value that json.Unmarshal gives for `any`; a leaf is any other value, with what json.Marshal makes
-- of it. A key stands with its own encoding.
mutual
  pub data Json : Type 0 where
    leaf : Option (List ℕ) → Json
    arr : Items → Json
    obj : Fields → Json

  pub data Items : Type 0 where
    end : Items
    item : Json → Items → Items

  pub data Fields : Type 0 where
    last : Fields
    field : String → Option (List ℕ) → Json → Fields → Fields

-- An object's fields by their keys, and their encodings with a separator between.
abbrev pub by_key : String × List ℕ → String × List ℕ → Bool
by_key a b = str_ltb a.0 b.0

abbrev pub separated_from : List ℕ → List (List ℕ) → List ℕ
separated_from b [] = b
separated_from b (next ∷ bs) = b ++ 44 ∷ separated_from next bs

abbrev pub separated : List (List ℕ) → List ℕ
separated [] = []
separated (b ∷ bs) = separated_from b bs

abbrev pub both : Option (List ℕ) → Option (List (List ℕ)) → Option (List (List ℕ))
both (some b) (some bs) = some (b ∷ bs)
both _ _ = none

abbrev pub keyed :
    String
    → Option (List ℕ)
    → Option (List ℕ)
    → Option (List (String × List ℕ))
    → Option (List (String × List ℕ))
keyed k (some kb) (some vb) (some rest) = some ((k, kb ++ 58 ∷ vb) ∷ rest)
keyed k _ _ _ = none

abbrev pub bracketed : Option (List (List ℕ)) → Option (List ℕ)
bracketed none = none
bracketed (some bs) = some (91 ∷ separated bs ++ 93 ∷ [])

abbrev pub braced : Option (List (String × List ℕ)) → Option (List ℕ)
braced none = none
braced (some fs) = some (123 ∷ separated (map (λ f. f.1) (sort by_key fs)) ++ 125 ∷ [])

-- `canonicalizeValue`: keys in order; an encoding that fails makes the whole fail.
unfoldable mutual
  pub canonicalize_value : Json → Option (List ℕ)
  canonicalize_value (leaf b) = b
  canonicalize_value (arr xs) = bracketed (canonical_items xs)
  canonicalize_value (obj fs) = braced (canonical_fields fs)

  pub canonical_items : Items → Option (List (List ℕ))
  canonical_items end = some []
  canonical_items (item j xs) = both (canonicalize_value j) (canonical_items xs)

  pub canonical_fields : Fields → Option (List (String × List ℕ))
  canonical_fields last = some []
  canonical_fields (field k kb j fs) = keyed k kb (canonicalize_value j) (canonical_fields fs)

-- The library functions that the package calls: the digest, and json.Marshal followed by
-- json.Unmarshal on an event.
pub record Encoder (F : Type 0) : Type 0 where
  pub sha : Sha256
  pub decoded : Event F → Option Json

abbrev pub vote_summary : Vote → VoteSummary
vote_summary v = record {
  provider_id = v.provider_id;
  value = v.value;
  latency_ms = v.latency_ms;
  error = v.error;
}

abbrev pub by_provider : VoteSummary → VoteSummary → Bool
by_provider a b = str_ltb a.provider_id b.provider_id

-- `hist[v.Value]++` for each vote without an error.
unfoldable pub histogram : List Vote → Assoc ℕ → Assoc ℕ
histogram [] hist = hist
histogram (v ∷ votes) hist = histogram votes (if str_eq v.error "" then bump v.value hist else hist)

-- The counts of the loop over the facets.
pub record Counts : Type 0 where
  pub agreeing : ℕ
  pub abstaining : ℕ
  pub disagreeing : ℕ

abbrev pub tick : Verdict → Counts → Counts
tick agree c = record c { agreeing = suc c.agreeing }
tick abstain c = record c { abstaining = suc c.abstaining }
tick disagree c = record c { disagreeing = suc c.disagreeing }

-- `classifySeverity`
unfoldable pub classify_severity : Counts → Severity
classify_severity c =
    let total = c.agreeing + c.abstaining + c.disagreeing in
    if total == 0
    then low
    else (if ltb total (c.disagreeing * 2)
        then critical
        else (if ltb 0 c.disagreeing then high else (if ltb 1 c.abstaining then medium else low)))

-- `buildReason`
abbrev pub build_reason : Counts → Reason
build_reason c = record {
  agreeing = c.agreeing;
  abstaining = c.abstaining;
  disagreeing = c.disagreeing;
}

module _ {F : Type 0} (zero_fraction : F) where
  -- What the loop of BuildEvent makes of a facet and its result; a missing one is an ABSTAIN.
  abbrev pub summary_of : Facet F → Option (FacetResult F) → FacetSummary F
  summary_of f none = record {
    facet_id = f.id;
    prompt = f.prompt;
    allowed_values = f.allowed_values;
    verdict = abstain;
    winner = "";
    live_count = 0;
    agreement_fraction = zero_fraction;
    votes = [];
    vote_histogram = [];
  }
  summary_of f (some fr) = record {
    facet_id = f.id;
    prompt = f.prompt;
    allowed_values = f.allowed_values;
    verdict = fr.verdict;
    winner = fr.winner;
    live_count = fr.live_count;
    agreement_fraction = fr.agreement_fraction;
    votes = sort by_provider (map vote_summary fr.votes);
    vote_histogram = histogram fr.votes [];
  }

  abbrev pub summary : Assoc (FacetResult F) → Facet F → FacetSummary F
  summary results f = summary_of f (lookup f.id results)

  unfoldable pub count_verdicts : List (FacetSummary F) → Counts → Counts
  count_verdicts [] c = c
  count_verdicts (s ∷ ss) c = count_verdicts ss (tick s.verdict c)

  abbrev pub by_facet : FacetSummary F → FacetSummary F → Bool
  by_facet a b = str_ltb a.facet_id b.facet_id

  abbrev pub no_counts : Counts
  no_counts = record { agreeing = 0; abstaining = 0; disagreeing = 0 }

  abbrev pub event_of : Task F → TaskResult F → ℕ → Event F
  event_of task tr now =
      let summaries = map (summary tr.facets) task.facets in
      let counts = count_verdicts summaries no_counts in
      record {
        version = "hitl.v1";
        timestamp = now;
        task_id = task.id;
        input = task.input;
        system_msg = task.system_msg;
        overall = tr.overall_verdict;
        severity = classify_severity counts;
        reason = build_reason counts;
        facets = sort by_facet summaries;
        digest = [];
      }

  module _ (enc : Encoder F) where
    abbrev pub hashed : Option (List ℕ) → Outcome Error (List ℕ)
    hashed none = err bad_json
    hashed (some b) = ok (encode (enc.sha.sum b))

    abbrev pub canonicalize : Option Json → Option (List ℕ)
    canonicalize none = none
    canonicalize (some j) = canonicalize_value j

    -- `computeDigest`
    unfoldable pub compute_digest : Event F → Outcome Error (List ℕ)
    compute_digest ev = hashed (canonicalize (enc.decoded (record ev { digest = [] })))

    -- BuildEvent on a task and a result that are not nil.
    unfoldable pub build_abstained : Task F → TaskResult F → ℕ → Outcome Error (Event F)
    unfolding compute_digest count_verdicts classify_severity
    build_abstained task tr now =
        if is_abstain tr.overall_verdict
        then (compute_digest (event_of task tr now) >>= λ d.
            ok (record (event_of task tr now) { digest = d }))
        else err (not_abstaining tr.overall_verdict)

    -- `BuildEvent`
    unfoldable pub build_event :
        Option (Task F) → Option (TaskResult F) → ℕ → Outcome Error (Event F)
    unfolding build_abstained
    build_event none tr now = err nil_task
    build_event (some task) none now = err nil_result
    build_event (some task) (some tr) now = build_abstained task tr now

    abbrev pub compare_digest : List ℕ → Outcome Error (List ℕ) → Option Error
    compare_digest stored (err e) = some e
    compare_digest stored (ok got) = if bytes_eq got stored then none else some digest_mismatch

    -- `Verify`
    unfoldable pub verify : Event F → Option Error
    verify ev =
        if bytes_eq ev.digest []
        then some no_digest
        else compare_digest ev.digest (compute_digest ev)

-- A sink, with what a delivery to it returns; `MultiSink.Deliver` returns the first error.
abbrev pub first_error {ℓ} : {A : Type ℓ} → Option A → Option A → Option A
first_error (some e) later = some e
first_error none later = later

-- The loop, with the error so far: the error, and the number of sinks that were called.
unfoldable pub deliver_each :
    {E : Type 0} {Ev : Type 0} → Ev → List (Ev → Option E) → Option E → Option E × ℕ
deliver_each ev [] first = (first, 0)
deliver_each ev (sink ∷ sinks) first =
    let (e, calls) = deliver_each ev sinks (first_error first (sink ev)) in (e, suc calls)

-- `MultiSink.Deliver`
unfoldable pub deliver : {E : Type 0} {Ev : Type 0} → Ev → List (Ev → Option E) → Option E × ℕ
unfolding deliver_each
deliver ev sinks = deliver_each ev sinks none
