-- ===== src/Attest/Window.antt =====
-- engine/internal/decision/attest/gate.go: when the gate opens, and that it stays open.
use casper_prover.Prelude.{ℕ, ◌+◌, ◌≤◌, ◌<◌, ◌≡◌, ◌≢◌, ◌↔◌, true, Option, none, some, arith}
use casper_prover.Attest.{unknown, approve, DecisionCommit}
use casper_prover.Attest.Gate.{pending, allowed, ChallengeResult, evaluate}

-- The challenge succeeded and was filed no later than this.
abbrev pub Upheld : Option ChallengeResult → ℕ → Type 0
Upheld none closes = ⊥
Upheld (some r) closes = (r.successful ≡ true) × (r.at ≤ closes)

module _ {F : Type 0} (duration : ℕ) (commit : DecisionCommit F) (ch : Option ChallengeResult) where
  -- The gate allows a commit exactly when its aggregate is APPROVE, the window has closed, and no
  -- successful challenge was filed up to the closing time.
  pub allowed_exactly :
      (now : ℕ)
      → ((evaluate duration now commit ch).0 ≡ allowed) ↔ (
          (commit.aggregate ≡ approve)
          × (commit.decision.submitted_at + duration ≤ now)
          × (¬ Upheld ch (commit.decision.submitted_at + duration)))
  unfolding evaluate
  allowed_exactly now = by_challenge ch
    where
      by_challenge :
          (c : Option ChallengeResult)
          → ((evaluate duration now commit c).0 ≡ allowed) ↔ (
              (commit.aggregate ≡ approve)
              × (commit.decision.submitted_at + duration ≤ now)
              × (¬ Upheld c (commit.decision.submitted_at + duration)))
      by_challenge none = ground arith
      by_challenge (some r) = ground arith

  -- As the clock advances with no new challenge, only a pending gate changes its answer.
  pub settled_stays :
      (now later : ℕ)
      → now ≤ later
      → (evaluate duration now commit ch).0 ≢ pending
      → evaluate duration later commit ch ≡ evaluate duration now commit ch
  unfolding evaluate
  settled_stays now later le h = ground arith

  -- A commit with a verdict is no longer pending once the window has closed.
  pub window_ends :
      (now : ℕ)
      → commit.aggregate ≢ unknown
      → commit.decision.submitted_at + duration ≤ now
      → (evaluate duration now commit ch).0 ≢ pending
  unfolding evaluate
  window_ends now h le = ground arith

-- A challenge filed after the window closed changes no answer.
pub late_challenge_ignored :
    {F : Type 0} (duration now : ℕ) (commit : DecisionCommit F) (ch : ChallengeResult)
    → commit.decision.submitted_at + duration < ch.at
    → evaluate duration now commit (some ch) ≡ evaluate duration now commit none
unfolding evaluate
late_challenge_ignored duration now commit ch h = ground arith

-- A commit that the gate once allowed stays allowed: at any later time, with the challenge that was
-- known then, and also with any challenge in its place that was filed after the gate allowed it.
pub allowed_for_good :
    {F : Type 0} (duration now later : ℕ) (commit : DecisionCommit F) (ch : Option ChallengeResult)
    (new : ChallengeResult)
    → (evaluate duration now commit ch).0 ≡ allowed
    → now ≤ later
    → now < new.at
    → (evaluate duration later commit ch ≡ (allowed, none))
      × (evaluate duration later commit (some new) ≡ (allowed, none))
unfolding evaluate
allowed_for_good duration now later commit ch new h le after = (ground arith, ground arith)
