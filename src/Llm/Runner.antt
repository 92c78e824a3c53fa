-- ===== src/Llm/Runner.antt =====
-- engine/internal/llm/runner.go: the runner, Complete and Poll. What each provider answers, in which
-- order the answers of the parallel calls arrive, and when a context ends are inputs.
use casper_prover.Prelude.{
  ℕ, String, Bool, true, false, ◌&&◌, not, Option, none, some, List, [], ◌∷◌, ◌++◌, map, ◌==◌,
  if◌then◌else◌, ℤ, pos, leb_int, ltb_int, Outcome, ok, err, length, select, count,
}
use casper_prover.Prelude.Sort.{sort, str_ltb}
use casper_prover.Llm.{
  Request, Response, Failure, Answer, CallContext, Tier, is_fast, is_reliability, Provider, Config,
  default_config, Fixture, fixture_complete,
}

-- `Runner`
pub record Runner : Type 0 where
  pub fast : List Provider
  pub reliability : List Provider
  pub fixture : Option Fixture
  pub cfg : Config

-- t <= 0
abbrev pub unset : ℤ → Bool
unset t = leb_int t (pos 0)

-- The settings that NewRunner keeps.
unfoldable pub settle : Config → Config
settle cfg =
    let timeout =
      if unset cfg.per_provider_timeout
      then default_config.per_provider_timeout
      else cfg.per_provider_timeout in
    let budget = if unset cfg.total_budget then default_config.total_budget else cfg.total_budget in
    record cfg {
      per_provider_timeout = if ltb_int budget timeout then budget else timeout;
      total_budget = budget;
    }

-- The providers that are not nil.
unfoldable pub present : List (Option Provider) → List Provider
present [] = []
present (none ∷ ps) = present ps
present (some p ∷ ps) = p ∷ present ps

abbrev pub usable : (Tier → Bool) → Provider → Bool
usable in_tier p = not (p.key_count == 0) && in_tier p.tier

abbrev pub by_id : Provider → Provider → Bool
by_id p q = str_ltb p.id q.id

-- `NewRunner`
unfoldable pub new_runner : List (Option Provider) → Option Fixture → Config → Runner
new_runner providers fixture cfg = record {
  fast = sort by_id (select (usable is_fast) (present providers));
  reliability = sort by_id (select (usable is_reliability) (present providers));
  fixture = fixture;
  cfg = settle cfg;
}

-- `providerAttempt`
pub record Attempt : Type 0 where
  pub provider : String
  pub latency_ms : ℕ
  pub success : Bool
  pub error : String
  pub retryable : Bool
  pub status : ℕ
  pub key_index : ℕ

-- A call's response, if it has one, and its row in the log.
pub record Called : Type 0 where
  pub resp : Option Response
  pub attempt : Attempt
  pub expired : Bool

abbrev pub fixture_attempt : String → Bool → String → Attempt
fixture_attempt id success error = record {
  provider = id;
  latency_ms = 0;
  success = success;
  error = error;
  retryable = false;
  status = 0;
  key_index = 0;
}

abbrev pub called : String → Answer → Outcome Failure Response → Called
called id a (ok resp) = record {
  resp = some resp;
  attempt = record {
    provider = id;
    latency_ms = a.latency_ms;
    success = true;
    error = "";
    retryable = false;
    status = 0;
    key_index = resp.key_index;
  };
  expired = a.expired;
}
called id a (err f) = record {
  resp = none;
  attempt = record {
    provider = id;
    latency_ms = a.latency_ms;
    success = false;
    error = f.text;
    retryable = f.retryable;
    status = f.status;
    key_index = 0;
  };
  expired = a.expired;
}

-- `callOne`
unfoldable pub call_one : CallContext → Request → Provider → Called
call_one cx req p = let a = p.complete cx req in called p.id a a.outcome

-- `RunReport`, without the total latency.
pub record Report : Type 0 where
  pub winner : String
  pub fixture : Bool
  pub attempts : List Attempt
  pub fast_fan_out_size : ℕ

-- The first response among the calls in the order in which they arrive.
unfoldable pub first_resp : List Called → Option Response
first_resp [] = none
first_resp (c ∷ calls) = elim c.resp [ none ↦ first_resp calls | some r ↦ some r ]

-- The loop over the reliability tier: the response, and the rows of the calls made.
unfoldable pub fall_back : CallContext → Request → List Provider → Option Response × List Attempt
fall_back cx req [] = (none, [])
fall_back cx req (p ∷ ps) =
    let c = call_one cx req p in
    elim c.resp [
      | some r ↦ (some r, c.attempt ∷ [])
      | none ↦ elim c.expired [
        | true ↦ (none, c.attempt ∷ [])
        | false ↦ let (r, rest) = fall_back cx req ps in (r, c.attempt ∷ rest)
      ]
    ]

-- The deadline of the caller's context; and a context's error, if it had ended: that of the run when
-- the fixture is forced, and the fixture's own.
pub record Contexts : Type 0 where
  pub deadline : Option ℕ
  pub run : Option String
  pub own : Option String

-- What bounds the calls of a run.
abbrev pub call_context : Runner → Contexts → CallContext
call_context r ends = record {
  deadline = ends.deadline;
  total_budget = r.cfg.total_budget;
  per_provider_timeout = r.cfg.per_provider_timeout;
}

abbrev pub won : ℕ → List Attempt → Response → Outcome (Option Failure) Response × Report
won size attempts r = (
  ok r,
  record { winner = r.provider; fixture = false; attempts = attempts; fast_fan_out_size = size },
)

abbrev pub won_fixture : ℕ → List Attempt → Response → Outcome (Option Failure) Response × Report
won_fixture size attempts r = (
  ok r,
  record {
    winner = r.provider;
    fixture = true;
    attempts = attempts ++ fixture_attempt r.provider true "" ∷ [];
    fast_fan_out_size = size;
  },
)

-- An error of none is ErrAllProvidersFailed.
abbrev pub lost : ℕ → List Attempt → Option Failure → Outcome (Option Failure) Response × Report
lost size attempts e =
    (err e, record { winner = ""; fixture = false; attempts = attempts; fast_fan_out_size = size })

abbrev pub answer_forced : ℕ → Outcome Failure Response → Outcome (Option Failure) Response × Report
answer_forced size (ok r) = won_fixture size [] r
answer_forced size (err e) = lost size [] (some e)

abbrev pub answer_last :
    ℕ → List Attempt → Outcome Failure Response → Outcome (Option Failure) Response × Report
answer_last size attempts (ok r) = won_fixture size attempts r
answer_last size attempts (err e) = lost size attempts none

-- Step 3 of Complete.
abbrev pub last_resort :
    Runner → Contexts → Request → List Attempt → Outcome (Option Failure) Response × Report
last_resort r ends req attempts = elim r.fixture [
  | none ↦ lost (length r.fast) attempts none
  | some f ↦
      if r.cfg.enable_fixture_fallback
      then answer_last (length r.fast) attempts (fixture_complete f ends.own req)
      else lost (length r.fast) attempts none
]

-- A response that a tier gave, or what comes after that tier.
abbrev pub or_else :
    ℕ
    → List Attempt
    → Option Response
    → Outcome (Option Failure) Response × Report
    → Outcome (Option Failure) Response × Report
or_else size attempts (some win) rest = won size attempts win
or_else size attempts none rest = rest

-- Steps 2 and 3, after the rows of the fan-out.
unfoldable pub after_fast :
    Runner → Contexts → Request → List Attempt → Outcome (Option Failure) Response × Report
unfolding fall_back
after_fast r ends req attempts =
    let (resp, rows) = fall_back (call_context r ends) req r.reliability in
    or_else (length r.fast) (attempts ++ rows) resp (last_resort r ends req (attempts ++ rows))

-- Steps 1 to 3; `arrivals` are the calls of the fast tier in the order in which they return.
unfoldable pub with_providers :
    Runner → Contexts → Request → List Called → Outcome (Option Failure) Response × Report
unfolding first_resp after_fast
with_providers r ends req arrivals =
    let rows = map (λ (c : Called). c.attempt) arrivals in
    or_else (length r.fast) rows (first_resp arrivals) (after_fast r ends req rows)

-- The fixture, if the operator forced it and there is one.
abbrev pub forced : Bool → Option Fixture → Option Fixture
forced true fixture = fixture
forced false fixture = none

abbrev pub complete_by :
    Runner
    → Contexts
    → Request
    → List Called
    → Option Fixture
    → Outcome (Option Failure) Response × Report
complete_by r ends req arrivals none = with_providers r ends req arrivals
complete_by r ends req arrivals (some f) =
    answer_forced (length r.fast) (fixture_complete f ends.run req)

-- `Complete`
unfoldable pub complete :
    Runner → Contexts → Request → List Called → Outcome (Option Failure) Response × Report
unfolding with_providers
complete r ends req arrivals =
    complete_by r ends req arrivals (forced r.cfg.force_fixture r.fixture)

-- `PollResult`
pub record PollResult : Type 0 where
  pub provider : String
  pub resp : Option Response
  pub attempt : Attempt

abbrev pub poll_one : CallContext → Request → Provider → PollResult
poll_one cx req p =
    let c = call_one cx req p in record { provider = p.id; resp = c.resp; attempt = c.attempt }

abbrev pub poll_fixture : String → Outcome Failure Response → PollResult
poll_fixture id (ok r) = record {
  provider = id;
  resp = some r;
  attempt = fixture_attempt id true "";
}
poll_fixture id (err e) = record {
  provider = id;
  resp = none;
  attempt = fixture_attempt id false e.text;
}

abbrev pub answered : PollResult → Bool
answered p = elim p.resp [ none ↦ false | some _ ↦ true ]

-- The results once every provider was called: the fixture's too, if none answered.
abbrev pub with_fixture :
    Bool → Contexts → Request → List PollResult → Option Fixture → List PollResult
with_fixture enabled ends req results none = results
with_fixture enabled ends req results (some f) =
    if count answered results == 0 && enabled
    then results ++ poll_fixture f.id (fixture_complete f ends.own req) ∷ []
    else results

unfoldable pub poll_providers : Runner → Contexts → Request → List PollResult
poll_providers r ends req =
    with_fixture r.cfg.enable_fixture_fallback ends req
      (map (poll_one (call_context r ends) req) (r.fast ++ r.reliability)) r.fixture

abbrev pub poll_by : Runner → Contexts → Request → Option Fixture → List PollResult
poll_by r ends req none = poll_providers r ends req
poll_by r ends req (some f) = poll_fixture f.id (fixture_complete f ends.run req) ∷ []

-- `Poll`
unfoldable pub poll : Runner → Contexts → Request → List PollResult
unfolding poll_providers
poll r ends req = poll_by r ends req (forced r.cfg.force_fixture r.fixture)
