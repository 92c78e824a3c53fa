-- ===== src/Examples/Polls.antt =====
-- Runs of the LLM runner, its key ring and the judge on small inputs.
use mathlib.Core.List.{Perm}
use mathlib.Core.List.Perm
use casper_prover.Prelude.{
  ℕ, ◌*◌, ◌/◌, ◌≤◌, ◌<◌, ◌≡◌, ◌⊎◌, true, false, List, [], ◌∷◌, String, some, none, refl, map, any,
  count, pos, leb, arith, leb_int, Outcome, ok, err, str_eq,
}
use casper_prover.Prelude.Assoc.{Assoc, lookup, insert}
use casper_prover.Hex.{encode}
use casper_prover.Llm.{Request, Response, Failure, Tier, Provider, default_config, Fixture}
use casper_prover.Llm.Keys.{KeyRing}
use casper_prover.Llm.Rotation.{First, AllResting, next_first}
use casper_prover.Llm.Runner.{
  Runner, Contexts, PollResult, call_one, call_context, complete, poll, poll_providers, answered,
}
use casper_prover.Llm.Fallback.{is_ok, succeeded, complete-Tells}
use casper_prover.Judge.{
  Library, Facet, Task, TaskResult, agree, bump, top_of, normalize_vote, tally_all, decide_votes,
  facet_request, decide_facet, decide_all, decided, decide_task, aggregate_overall, live,
}
use casper_prover.Judge.Tally.{votes}
use casper_prover.Judge.Winner.{decide_votes-order, decide_votes-agree}
use casper_prover.Judge.Fixtures.{real_polls, decide_facet-fixture}
use casper_prover.Judge.Escalation.{
  low, medium, Encoder, Event, Json, event_of, build_event, build_abstained, compute_digest,
  canonicalize_value,
}
use casper_prover.Judge.Review.{build_event-severity}
use casper_prover.Examples.{toy_sha, toy_sum}

abbrev ring : KeyRing
ring = record {
  keys = "k1" ∷ "k2" ∷ "k3" ∷ [];
  next = 4;
  cooldown = 30;
  resting_until = none ∷ some 90 ∷ none ∷ [];
}

next_first_example : First ring 10 ⊎ AllResting ring 10
next_first_example = next_first ring 10 (omega arith)

abbrev says : String → String → Response
says id content = record {
  content = content;
  provider = id;
  model = "m";
  key_index = 0;
  latency_ms = 5;
  prompt_tokens = 1;
  completion_tokens = 1;
  finish_reason = "stop";
  fixture = false;
}

abbrev down : Outcome Failure Response
down = err (record { text = "timeout"; retryable = true; status = 504 })

abbrev provider : String → Tier → Outcome Failure Response → Provider
provider id tier outcome = record {
  id = id;
  tier = tier;
  key_count = 1;
  complete = λ _ _. record { outcome = outcome; latency_ms = 5; expired = false };
}

abbrev canned : Fixture
canned = record { id = "fixture"; table = []; canned = "no"; model = "fixture-v1" }

abbrev runner : Runner
runner = record {
  fast = provider "groq" Tier.fast (ok (says "groq" "yes")) ∷ provider "nvidia" Tier.fast down ∷ [];
  reliability =
      provider "gemini" Tier.reliability (ok (says "gemini" "yes"))
      ∷ provider "openrouter" Tier.reliability (ok (says "openrouter" "no"))
      ∷ [];
  fixture = some canned;
  cfg = default_config;
}

abbrev open_ends : Contexts
open_ends = record { deadline = none; run = none; own = none }

abbrev toy : Library
toy = record {
  trim_space = λ s. s;
  trim_marks = λ s. s;
  to_lower = λ s. s;
  contains = λ s t. str_eq s t;
  join = λ _ s. s;
  F = ℕ;
  zero = 0;
  two_thirds = 66;
  ratio = λ a b. a * 100 / b;
  le = leb;
}

abbrev facet : Facet ℕ
facet = record { id = "toxic"; prompt = "?"; allowed_values = "yes" ∷ "no" ∷ []; weight = 1 }

abbrev task : Task ℕ
task = record {
  id = "t";
  input = "text";
  system_msg = "";
  facets = facet ∷ [];
  min_providers = pos 2;
  agreement_threshold = 60;
}

abbrev request : Request
request = facet_request toy task facet

complete-Tells_example :
    is_ok
      (complete runner open_ends request
        (map (call_one (call_context runner open_ends) request) runner.fast)).0
    ≡ any succeeded
        (complete runner open_ends request
          (map (call_one (call_context runner open_ends) request) runner.fast)).1.attempts
complete-Tells_example = complete-Tells runner open_ends request runner.fast

abbrev polls : List PollResult
polls = real_polls runner open_ends request

abbrev as_is : Assoc ℕ → List (String × ℕ)
as_is m = m

abbrev turned : Assoc ℕ → List (String × ℕ)
turned (a ∷ b ∷ m) = b ∷ a ∷ m
turned m = m

reordered :
    Perm
      (as_is (tally_all toy facet.allowed_values polls []))
      (turned (tally_all toy facet.allowed_values polls []))
unfolding tally_all bump normalize_vote lookup insert call_one
reordered = Perm.swap ("no", 1) ("yes", 2) []

decide_votes-order_example :
    ((decide_votes toy as_is facet (pos 2) 60 polls).verdict
      ≡ (decide_votes toy turned facet (pos 2) 60 polls).verdict)
    × ((decide_votes toy as_is facet (pos 2) 60 polls).live_count
        ≡ (decide_votes toy turned facet (pos 2) 60 polls).live_count)
    × ((decide_votes toy as_is facet (pos 2) 60 polls).agreement_fraction
        ≡ (decide_votes toy turned facet (pos 2) 60 polls).agreement_fraction)
decide_votes-order_example = decide_votes-order toy as_is turned facet (pos 2) 60 polls reordered

agreed : (decide_votes toy as_is facet (pos 2) 60 polls).verdict ≡ agree
unfolding decide_votes tally_all bump top_of normalize_vote lookup insert call_one
agreed = refl

decide_votes-agree_example :
    (leb_int (pos 2) (pos (count (live toy) polls)) ≡ true)
    × (0
        < count
            (votes toy facet.allowed_values (decide_votes toy as_is facet (pos 2) 60 polls).winner)
            polls)
    × (leb 60 (
          count
            (votes toy facet.allowed_values (decide_votes toy as_is facet (pos 2) 60 polls).winner)
            polls
          * 100
          / count (live toy) polls)
        ≡ true)
    × (count (votes toy facet.allowed_values "no") polls
        ≤ count
            (votes toy facet.allowed_values (decide_votes toy as_is facet (pos 2) 60 polls).winner)
            polls)
decide_votes-agree_example =
    decide_votes-agree toy as_is facet (pos 2) 60 polls "no" refl
      (Perm.refl (tally_all toy facet.allowed_values polls [])) agreed

live_poll : any answered (real_polls runner open_ends request) ≡ true
unfolding call_one
live_poll = refl

decide_facet-fixture_example :
    decide_facet toy as_is runner open_ends task facet (pos 2) 60
    ≡ decide_facet toy as_is
        (record runner {
          fixture = none;
          cfg = record runner.cfg { enable_fixture_fallback = false };
        })
        open_ends
        task
        facet
        (pos 2)
        60
decide_facet-fixture_example =
    decide_facet-fixture toy as_is runner open_ends open_ends none false task facet (pos 2) 60 refl
      refl live_poll

abbrev silent : Runner
silent = record { fast = []; reliability = []; fixture = none; cfg = default_config }

abbrev encoder : Encoder ℕ
encoder = record { sha = toy_sha; decoded = λ _. some (Json.leaf (some (1 ∷ []))) }

abbrev abstained : TaskResult ℕ
abstained =
    decided toy task (
      decide_all toy (λ f. decide_facet toy as_is silent open_ends task f (pos 2) 60) task.facets
        [])

decides : decide_task toy as_is silent open_ends task ≡ ok abstained
unfolding decide_task
decides = refl

abbrev event : Event ℕ
event = record (event_of 0 task abstained 9) { digest = encode (toy_sum (1 ∷ [])) }

builds : build_event 0 encoder (some task) (some abstained) 9 ≡ ok event
unfolding build_event build_abstained compute_digest canonicalize_value decide_all decide_facet
    decide_votes aggregate_overall poll poll_providers insert
builds = refl

build_event-severity_example : (event.severity ≡ low) ⊎ (event.severity ≡ medium)
build_event-severity_example =
    build_event-severity toy encoder as_is silent open_ends task abstained 9 event decides builds
