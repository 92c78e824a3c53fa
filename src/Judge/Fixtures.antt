-- ===== src/Judge/Fixtures.antt =====
-- engine/internal/judge/facet_judge.go over engine/internal/llm/runner.go: a facet that some provider
-- answered is not touched by the fixture.
use casper_prover.Prelude.{
  ℕ, Bool, true, false, Option, none, some, List, ◌++◌, ◌≡◌, refl, sym, ◌∙◌, ap, map, any,
  count_of_any, arith, ℤ, String,
}
use casper_prover.Prelude.Assoc.{Assoc}
use casper_prover.Llm.{Request, Fixture}
use casper_prover.Llm.Runner.{
  Runner, Contexts, PollResult, poll_one, call_context, answered, with_fixture, poll_providers,
  poll_by, poll, forced,
}
use casper_prover.Judge.{Library, Task, Facet, facet_request, decide_facet, decide_votes}

-- What the providers of a runner answer.
abbrev pub real_polls : Runner → Contexts → Request → List PollResult
real_polls r ends req = map (poll_one (call_context r ends) req) (r.fast ++ r.reliability)

with_fixture-answered :
    (enabled : Bool) (ends : Contexts) (req : Request) (results : List PollResult)
    (o : Option Fixture)
    → any answered results ≡ true
    → with_fixture enabled ends req results o ≡ results
with_fixture-answered enabled ends req results none h = refl
with_fixture-answered enabled ends req results (some f) h =
    ground (arith, count_of_any answered results)

pub poll-answered :
    (r : Runner) (ends : Contexts) (req : Request)
    → r.cfg.force_fixture ≡ false
    → any answered (real_polls r ends req) ≡ true
    → poll r ends req ≡ real_polls r ends req
unfolding poll poll_providers
poll-answered r ends req unforced h =
    ap (λ (b : Bool). poll_by r ends req (forced b r.fixture)) unforced
    ∙ with_fixture-answered r.cfg.enable_fixture_fallback ends req (real_polls r ends req) r.fixture
        h

-- Where at least one provider answers a facet's request and the fixture is not forced, the result on
-- the facet is the same with any other fixture or none, with the fixture as a fallback or not, and
-- whatever becomes of the contexts in which only the fixture is called. The timeouts and the caller's
-- deadline are the same on both sides.
pub decide_facet-fixture :
    (lib : Library) (range : Assoc ℕ → List (String × ℕ)) (r : Runner) (ends other_ends : Contexts)
    (fixture : Option Fixture) (fallback : Bool) (task : Task lib.F) (facet : Facet lib.F)
    (min_providers : ℤ) (threshold : lib.F)
    → r.cfg.force_fixture ≡ false
    → other_ends.deadline ≡ ends.deadline
    → any answered (real_polls r ends (facet_request lib task facet)) ≡ true
    → decide_facet lib range r ends task facet min_providers threshold
      ≡ decide_facet lib range
          (record r {
            fixture = fixture;
            cfg = record r.cfg { enable_fixture_fallback = fallback };
          })
          other_ends
          task
          facet
          min_providers
          threshold
unfolding decide_facet
decide_facet-fixture lib range r ends other_ends fixture fallback task facet min_providers threshold
      h same live =
    let req = facet_request lib task facet in
    let other = record r {
      fixture = fixture;
      cfg = record r.cfg { enable_fixture_fallback = fallback };
    } in
    let polls : real_polls other other_ends req ≡ real_polls r ends req = rw same refl in
    ap (decide_votes lib range facet min_providers threshold) (
      poll-answered r ends req h live
      ∙ sym polls
      ∙ sym (poll-answered other other_ends req h (ap (any answered) polls ∙ live)))
