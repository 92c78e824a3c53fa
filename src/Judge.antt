-- ===== src/Judge.antt =====
-- engine/internal/judge/types.go and facet_judge.go: the judge that polls every provider on each
-- facet of a task. What `Runner.Poll` returns is the model of the runner (Llm/Runner); Go's text
-- functions and float64 are parameters. The tally is a map; the order of a range over it is that of
-- the list it is given.
pub mod Menu
pub mod Tally
pub mod Winner
pub mod Overall
pub mod Escalation
pub mod Review
pub mod Fixtures
use Prim.Native.String.{◌++◌ as append}
use casper_prover.Prelude.{
  ℕ, zero, suc, ◌+◌, String, Bool, true, false, ◌&&◌, ◌||◌, not, Option, none, some, List, [], ◌∷◌,
  ltb, leb, ◌==◌, str_eq, if◌then◌else◌, any, find?, map, count, length, ℤ, pos, negsuc, leb_int,
  Outcome, ok, err,
}
use casper_prover.Prelude.Assoc.{Assoc, lookup, insert, values}
use casper_prover.Llm.{Message, Request, Response}
use casper_prover.Llm.Runner.{Runner, Contexts, PollResult, Attempt, poll}

-- Go's functions on texts, and the thresholds: float64, with the test t <= 0, the constant 0.66, the
-- quotient of two counts and the order.
pub record Library : Type 1 where
  pub trim_space : String → String
  -- strings.Trim(s, ".!?\"'`")
  pub trim_marks : String → String
  pub to_lower : String → String
  pub contains : String → String → Bool
  pub join : List String → String → String
  pub F : Type 0
  pub zero : F
  pub two_thirds : F
  pub ratio : ℕ → ℕ → F
  pub le : F → F → Bool

pub data Verdict : Type 0 where
  agree disagree abstain : Verdict

abbrev pub is_agree : Verdict → Bool
is_agree agree = true
is_agree _ = false

abbrev pub is_disagree : Verdict → Bool
is_disagree disagree = true
is_disagree _ = false

abbrev pub is_abstain : Verdict → Bool
is_abstain abstain = true
is_abstain _ = false

-- `ProviderVote`
pub record Vote : Type 0 where
  pub provider_id : String
  pub value : String
  pub raw : String
  pub latency_ms : ℕ
  pub error : String

pub data Error : Type 0 where
  no_task no_facets no_runner : Error

pub record Facet (F : Type 0) : Type 0 where
  pub id : String
  pub prompt : String
  pub allowed_values : List String
  pub weight : F

pub record Task (F : Type 0) : Type 0 where
  pub id : String
  pub input : String
  pub system_msg : String
  pub facets : List (Facet F)
  pub min_providers : ℤ
  pub agreement_threshold : F

pub record FacetResult (F : Type 0) : Type 0 where
  pub facet_id : String
  pub verdict : Verdict
  pub winner : String
  pub votes : List Vote
  pub live_count : ℕ
  pub agreement_fraction : F

-- `TaskResult`, without its times.
pub record TaskResult (F : Type 0) : Type 0 where
  pub task_id : String
  pub overall_verdict : Verdict
  pub facets : Assoc (FacetResult F)

-- `buildFacetMessages`
abbrev pub build_facet_messages : String → String → List Message
build_facet_messages sys user =
    record { role = "system"; content = sys } ∷ record { role = "user"; content = user } ∷ []

-- The zero value of a missing entry.
abbrev pub tallied : Option ℕ → ℕ
tallied none = 0
tallied (some n) = n

-- tally[v]++
unfoldable pub bump : String → Assoc ℕ → Assoc ℕ
bump v m = insert v (suc (tallied (lookup v m))) m

-- The loop over the tally for the top value: a value is taken only if its count is greater.
unfoldable pub top_of : String × ℕ → List (String × ℕ) → String × ℕ
top_of best [] = best
top_of (top, count) ((v, c) ∷ rest) =
    top_of (if ltb count c then v else top, if ltb count c then c else count) rest

-- `aggregateOverall`
unfoldable pub aggregate_overall : {F : Type 0} → List (FacetResult F) → Verdict
aggregate_overall results =
    if any (λ r. is_disagree r.verdict) results
    then disagree
    else (if any (λ r. is_abstain r.verdict) results then abstain else agree)

module _ (lib : Library) where
  open lib use {F, trim_space, trim_marks, to_lower, contains, join, two_thirds, ratio, le}

  -- `buildFacetSystemPrompt`
  unfoldable pub build_facet_system_prompt : String → Facet F → String
  build_facet_system_prompt user_sys facet =
      append (if str_eq (trim_space user_sys) "" then "" else append user_sys "\n\n") (
        append "You are a strict classification oracle. " (
          append "You will be asked one question about the input. " (
            append "Reply with EXACTLY ONE of these values and nothing else: " (
              append (join facet.allowed_values ", ") (
                append ".\n" (
                  append "Do not explain. Do not add punctuation. Do not repeat the question. "
                    "If the input is ambiguous, still choose the single best-fit value."))))))

  -- `buildFacetUserPrompt`
  unfoldable pub build_facet_user_prompt : String → Facet F → String
  build_facet_user_prompt input facet =
      append "Input:\n" (append input (append "\n\nQuestion: " facet.prompt))

  -- The two searches of `normalizeVote`.
  abbrev pub exact : String → String → Bool
  exact raw v = str_eq (to_lower v) (to_lower (trim_marks (trim_space raw)))

  abbrev pub spaced : String → String
  spaced s = append " " (append (to_lower s) " ")

  abbrev pub as_word : String → String → Bool
  as_word raw v = contains (spaced raw) (spaced v)

  abbrev pub or_unknown : Option String → String
  or_unknown none = ""
  or_unknown (some v) = v

  abbrev pub exact_or : Option String → Option String → String
  exact_or (some v) fallback = v
  exact_or none fallback = or_unknown fallback

  -- `normalizeVote`
  unfoldable pub normalize_vote : String → List String → String
  normalize_vote raw [] = trim_space raw
  normalize_vote raw (v ∷ vs) = exact_or (find? (exact raw) (v ∷ vs)) (find? (as_word raw) (v ∷ vs))

  -- A provider's vote: its answer, or its error.
  abbrev pub vote_by : List String → PollResult → Option Response → Vote
  vote_by allowed p none = record {
    provider_id = p.provider;
    value = "";
    raw = "";
    latency_ms = p.attempt.latency_ms;
    error = if str_eq p.attempt.error "" then "provider returned no response" else p.attempt.error;
  }
  vote_by allowed p (some r) = record {
    provider_id = p.provider;
    value = normalize_vote r.content allowed;
    raw = r.content;
    latency_ms = p.attempt.latency_ms;
    error = "";
  }

  abbrev pub vote_of : List String → PollResult → Vote
  vote_of allowed p = vote_by allowed p p.resp

  -- What one answer adds to the tally: nothing for an error, nor for one off the menu.
  abbrev pub ballot : List String → Option Response → Assoc ℕ → Assoc ℕ
  ballot allowed none tally = tally
  ballot allowed (some r) tally =
      if str_eq (normalize_vote r.content allowed) ""
      then tally
      else bump (normalize_vote r.content allowed) tally

  -- The loop over the polls: the tally.
  unfoldable pub tally_all : List String → List PollResult → Assoc ℕ → Assoc ℕ
  tally_all allowed [] tally = tally
  tally_all allowed (p ∷ polls) tally = tally_all allowed polls (ballot allowed p.resp tally)

  abbrev pub live : PollResult → Bool
  live p = elim p.resp [ none ↦ false | some _ ↦ true ]

  abbrev pub result_of : String → List Vote → ℕ → Verdict → String → F → FacetResult F
  result_of id votes n verdict winner fraction = record {
    facet_id = id;
    verdict = verdict;
    winner = winner;
    votes = votes;
    live_count = n;
    agreement_fraction = fraction;
  }

  -- decideFacet once the tally's top value is known.
  abbrev pub judge_top : String → List Vote → ℕ → F → String × ℕ → FacetResult F
  judge_top id votes n threshold (top, top_count) =
      if top_count == 0
      then result_of id votes n disagree "" lib.zero
      else (if le threshold (ratio top_count n)
          then result_of id votes n agree top (ratio top_count n)
          else result_of id votes n disagree "" (ratio top_count n))

  -- decideFacet on what the providers answered; `range` is the order of the loop over the tally.
  unfoldable pub decide_votes :
      (Assoc ℕ → List (String × ℕ)) → Facet F → ℤ → F → List PollResult → FacetResult F
  unfolding tally_all
  decide_votes range facet min_providers threshold polls =
      let votes = map (vote_of facet.allowed_values) polls in
      let n = count live polls in
      if leb_int min_providers (pos n)
      then judge_top facet.id votes n threshold
          (top_of ("", 0) (range (tally_all facet.allowed_values polls [])))
      else result_of facet.id votes n abstain "" lib.zero

  -- The request that decideFacet sends.
  abbrev pub facet_request : Task F → Facet F → Request
  facet_request task facet = record {
    messages =
        build_facet_messages (build_facet_system_prompt task.system_msg facet)
          (build_facet_user_prompt task.input facet);
    model_hint = "";
    max_tokens = 64;
    temperature = 0;
    json_mode = false;
    seed = pos 0;
  }

  -- `decideFacet`
  unfoldable pub decide_facet :
      (Assoc ℕ → List (String × ℕ)) → Runner → Contexts → Task F → Facet F → ℤ → F → FacetResult F
  decide_facet range runner ends task facet min_providers threshold =
      decide_votes range facet min_providers threshold (poll runner ends (facet_request task facet))

  abbrev pub min_or_default : ℤ → ℤ
  min_or_default n = if leb_int n (pos 0) then pos 2 else n

  abbrev pub threshold_or_default : F → F
  threshold_or_default t = if le t lib.zero then two_thirds else t

  -- The loop of `Decide`: a facet's result replaces that of an earlier facet with its id.
  unfoldable pub decide_all :
      (Facet F → FacetResult F) → List (Facet F) → Assoc (FacetResult F) → Assoc (FacetResult F)
  decide_all by [] results = results
  decide_all by (f ∷ fs) results = decide_all by fs (insert f.id (by f) results)

  abbrev pub decided : Task F → Assoc (FacetResult F) → TaskResult F
  decided task results = record {
    task_id = task.id;
    overall_verdict = aggregate_overall (values results);
    facets = results;
  }

  -- Decide on a task with a runner.
  unfoldable pub decide_task :
      (Assoc ℕ → List (String × ℕ)) → Runner → Contexts → Task F → Outcome Error (TaskResult F)
  unfolding decide_all aggregate_overall
  decide_task range runner ends task =
      if length task.facets == 0
      then err no_facets
      else ok (
          decided task (
            decide_all
              (λ f.
                decide_facet range runner ends task f (min_or_default task.min_providers)
                  (threshold_or_default task.agreement_threshold))
              task.facets []))

  -- `Decide`; a nil task or runner is none.
  unfoldable pub decide :
      (Assoc ℕ → List (String × ℕ))
      → Option Runner
      → Contexts
      → Option (Task F)
      → Outcome Error (TaskResult F)
  unfolding decide_task
  decide range runner ends none = err no_task
  decide range none ends (some task) =
      if length task.facets == 0 then err no_facets else err no_runner
  decide range (some runner) ends (some task) = decide_task range runner ends task
