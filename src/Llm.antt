-- ===== src/Llm.antt =====
-- engine/internal/llm/types.go, config.go and fixture.go: requests, answers, the settings of a runner
-- and the provider that answers from a table. Durations are milliseconds. A provider is an input,
-- with what its call returns; a number stands for the temperature, and an answer's raw JSON is left out.
pub mod Keys
pub mod Runner
pub mod Budget
pub mod Fallback
pub mod Rotation
use Prim.Native.String.{◌++◌}
use casper_prover.Prelude.{
  ℕ, String, Bool, true, false, ◌&&◌, Option, none, some, List, [], ◌∷◌, str_eq, if◌then◌else◌, ℤ,
  pos, leb_int, Outcome, ok, err,
}
use casper_prover.Prelude.Assoc.{Assoc, lookup}

pub record Message : Type 0 where
  pub role : String
  pub content : String

pub record Request : Type 0 where
  pub messages : List Message
  pub model_hint : String
  pub max_tokens : ℕ
  pub temperature : ℕ
  pub json_mode : Bool
  pub seed : ℤ

pub record Response : Type 0 where
  pub content : String
  pub provider : String
  pub model : String
  pub key_index : ℕ
  pub latency_ms : ℕ
  pub prompt_tokens : ℕ
  pub completion_tokens : ℕ
  pub finish_reason : String
  pub fixture : Bool

-- What callOne reads of an error: its text, and the two fields of a ProviderError.
pub record Failure : Type 0 where
  pub text : String
  pub retryable : Bool
  pub status : ℕ

-- A call of a provider: its result, how long it took, and whether the budget was spent after it.
pub record Answer : Type 0 where
  pub outcome : Outcome Failure Response
  pub latency_ms : ℕ
  pub expired : Bool

-- `Tier`; any other number is in no tier.
pub data Tier : Type 0 where
  fast reliability other_tier : Tier

abbrev pub is_fast : Tier → Bool
is_fast fast = true
is_fast _ = false

abbrev pub is_reliability : Tier → Bool
is_reliability reliability = true
is_reliability _ = false

-- What bounds a call of a provider: the deadline of the caller's context, and the two timeouts that
-- the runner puts on it.
pub record CallContext : Type 0 where
  pub deadline : Option ℕ
  pub total_budget : ℤ
  pub per_provider_timeout : ℤ

-- `Provider`, with what its call in the run returns.
pub record Provider : Type 0 where
  pub id : String
  pub tier : Tier
  pub key_count : ℕ
  pub complete : CallContext → Request → Answer

pub record Config : Type 0 where
  pub per_provider_timeout : ℤ
  pub total_budget : ℤ
  pub enable_fixture_fallback : Bool
  pub force_fixture : Bool

-- `DefaultConfig`
abbrev pub default_config : Config
default_config = record {
  per_provider_timeout = pos 3000;
  total_budget = pos 8000;
  enable_fixture_fallback = true;
  force_fixture = false;
}

-- `FixtureProvider`
pub record Fixture : Type 0 where
  pub id : String
  pub table : Assoc String
  pub canned : String
  pub model : String

abbrev pub or_default : String → String → String
or_default given usual = if str_eq given "" then usual else given

-- `NewFixtureProvider`
abbrev pub new_fixture : Fixture → Fixture
new_fixture cfg = record {
  id = or_default cfg.id "fixture";
  table = cfg.table;
  canned = or_default cfg.canned "ABSTAIN: fixture fallback (no real provider available)";
  model = or_default cfg.model "fixture-v1";
}

-- `fixtureKey`
unfoldable pub fixture_key : List Message → String
fixture_key [] = ""
fixture_key (m ∷ rest) = m.role ++ (":" ++ (m.content ++ ("\n" ++ fixture_key rest)))

abbrev pub canned_or : Option String → String → String
canned_or none canned = canned
canned_or (some hit) canned = hit

-- `FixtureProvider.Complete`; the context's error, if it has ended, is an input.
unfoldable pub fixture_complete : Fixture → Option String → Request → Outcome Failure Response
unfolding fixture_key
fixture_complete f (some ended) req = err (record { text = ended; retryable = false; status = 0 })
fixture_complete f none req = ok (record {
  content = canned_or (lookup (fixture_key req.messages) f.table) f.canned;
  provider = f.id;
  model = f.model;
  key_index = 0;
  latency_ms = 0;
  prompt_tokens = 0;
  completion_tokens = 0;
  finish_reason = "stop";
  fixture = true;
})
