-- ===== src/Examples/Review.antt =====
-- Runs of the human-in-the-loop service on small inputs.
use casper_prover.Prelude.{pos, err, ok, ℕ, ◌≡◌, ◌≢◌, true, [], ◌∷◌, String, some, none, any, refl}
use casper_prover.Prelude.Assoc.{lookup, insert}
use casper_prover.Attest.{
  Verdict, approve, abstain, reject, FacetVerdict, empty, AggregationPolicy, DecisionCommit, vetoes,
  aggregate,
}
use casper_prover.Hitl.{
  Policy, Response, Ticket, Tickets, escalate, critical_abstained, get, decide, resolve, resolved,
  create, open_ticket,
}
use casper_prover.Hitl.Gate.{escalated_pending}
use casper_prover.Hitl.Veto.{answers_veto, veto_exactly}
use casper_prover.Hitl.Lifecycle.{
  run, Later, tickets_endure, resolved_once, refusal, resolve_call, create_call,
}
use casper_prover.Examples.{numbers}

abbrev policy : Policy ℕ
policy = record {
  confidence_threshold = 6;
  escalate_on_critical_abstain = true;
  veto_on_critical_reject = true;
}

abbrev facet : String → Verdict → FacetVerdict ℕ
facet kind v = record { kind = kind; verdict = v; confidence = 7; reason = empty }

abbrev commit : Verdict → Verdict → String → DecisionCommit ℕ
commit safety total vetoed_by = record {
  decision = record { submitter = "a"; spec_id = "s"; payload = []; nonce = 0; submitted_at = 10 };
  decision_id = "d";
  facet_verdicts = facet "safety" safety ∷ facet "correctness" approve ∷ [];
  aggregate = total;
  vetoed_by = vetoed_by;
  abstain_reason = empty;
}

abbrev ticket : Ticket ℕ
ticket = record {
  id = "t";
  decision_id = "d";
  submitter = "a";
  spec_id = "s";
  opened_at = 20;
  resolved_at = none;
  reason = critical_abstained "safety" empty;
  aggregate = "ABSTAIN";
  vetoed_by = "";
  state = "pending";
  resolver = "";
  resolution_note = "";
}

abbrev store : Tickets ℕ
store = ("t", ticket) ∷ []

abbrev answer : Response ℕ
answer = record { action = escalate; reason = critical_abstained "safety" empty; ticket_id = "t" }

abbrev no_tickets : Tickets ℕ
no_tickets = []

escalated : decide numbers policy (commit abstain abstain "") "t" 20 no_tickets ≡ (ok answer, store)
unfolding decide open_ticket create lookup insert
escalated = refl

escalated_pending_example :
    (answer.ticket_id ≡ "t")
    × (lookup "t" no_tickets ≡ none)
    × ((t : Ticket ℕ) × (get "t" store ≡ ok t)
        × (t.state ≡ "pending")
        × (t.decision_id ≡ "d")
        × (t.reason ≡ critical_abstained "safety" empty))
    × ((k : String) → k ≢ "t" → get k store ≡ get k no_tickets)
escalated_pending_example =
    escalated_pending numbers policy (commit abstain abstain "") "t" 20 no_tickets answer store
      escalated refl

abbrev aggregation : AggregationPolicy ℕ
aggregation = record { approve_threshold = pos 1; min_confidence = 5 }

some_facets : (commit reject reject "safety").facet_verdicts ≢ []
some_facets h = cc

decided :
    reject ≡ (aggregate numbers aggregation (commit reject reject "safety").facet_verdicts).verdict
unfolding aggregate
decided = refl

vetoed :
    "safety"
    ≡ (aggregate numbers aggregation (commit reject reject "safety").facet_verdicts).vetoed_by
unfolding aggregate
vetoed = refl

veto_exactly_example :
    answers_veto (decide numbers policy (commit reject reject "safety") "t" 20 no_tickets)
    ≡ any (vetoes numbers) (commit reject reject "safety").facet_verdicts
veto_exactly_example =
    veto_exactly numbers policy aggregation (commit reject reject "safety") "t" 20 no_tickets refl
      some_facets decided vetoed

present : lookup "t" store ≡ some ticket
unfolding lookup
present = refl

still_rejected :
    (u : Ticket ℕ) × (lookup "t"
        (run (create_call ticket ∷ resolve_call "t" "ann" "approved" "" 30 ∷ []) store)
      ≡ some u)
    × Later ticket u
still_rejected =
    tickets_endure (create_call ticket ∷ resolve_call "t" "ann" "approved" "" 30 ∷ []) store "t"
      ticket present

first_resolution :
    (resolve "t" "ann" "approved" "" 30 store).0 ≡ ok (resolved "ann" "approved" "" 30 ticket)
unfolding resolve lookup
first_resolution = refl

resolved_once_example :
    resolve "t" "bob" "rejected" "" 40
      (run (create_call ticket ∷ []) (resolve "t" "ann" "approved" "" 30 store).1)
    ≡ (
      err (refusal "rejected"),
      run (create_call ticket ∷ []) (resolve "t" "ann" "approved" "" 30 store).1,
    )
resolved_once_example =
    resolved_once "t" "ann" "approved" "" 30 store (resolved "ann" "approved" "" 30 ticket)
      (create_call ticket ∷ []) "bob" "rejected" "" 40 first_resolution
