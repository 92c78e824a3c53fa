-- ===== src/Attest/Gate.antt =====
-- engine/internal/decision/attest/gate.go: the challenge window of a judged commit.
use casper_prover.Prelude.{ℕ, ◌+◌, Bool, false, ◌&&◌, Option, none, some, ltb, leb, if◌then◌else◌}
use casper_prover.Attest.{Verdict, unknown, approve, abstain, reject, DecisionCommit}

pub data GateDecision : Type 0 where
  pending allowed blocked abstained : GateDecision

pub data GateError : Type 0 where
  commit_not_judged : GateError

-- `ChallengeResult`; its free-text reason is not read.
pub record ChallengeResult : Type 0 where
  pub successful : Bool
  pub at : ℕ

-- `ch != nil && !ch.At.After(closesAt)`, and `ch.Successful`.
abbrev pub sustained : Option ChallengeResult → ℕ → Bool
sustained none closes_at = false
sustained (some ch) closes_at = leb ch.at closes_at && ch.successful

abbrev pub closes_at : {F : Type 0} → ℕ → DecisionCommit F → ℕ
closes_at duration commit = commit.decision.submitted_at + duration

-- The part behind the switch, for an approved commit.
unfoldable pub approved_gate : Option ChallengeResult → ℕ → ℕ → GateDecision
approved_gate ch closes now =
    if sustained ch closes then blocked else if ltb now closes then pending else allowed

abbrev pub gate_by : Verdict → Option ChallengeResult → ℕ → ℕ → GateDecision × Option GateError
gate_by unknown ch closes now = (pending, some commit_not_judged)
gate_by reject ch closes now = (blocked, none)
gate_by abstain ch closes now = (abstained, none)
gate_by approve ch closes now = (approved_gate ch closes now, none)

-- `Evaluate` by an evaluator with this window (not negative), at the time `now` of its clock.
unfoldable pub evaluate :
    {F : Type 0}
    → ℕ
    → ℕ
    → DecisionCommit F
    → Option ChallengeResult
    → GateDecision × Option GateError
unfolding approved_gate
evaluate duration now commit ch = gate_by commit.aggregate ch (closes_at duration commit) now
