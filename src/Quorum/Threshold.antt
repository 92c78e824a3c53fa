-- ===== src/Quorum/Threshold.antt =====
-- engine/internal/quorum/bls.go: the default threshold.
use casper_prover.Prelude.{ℕ, ◌+◌, ◌*◌, ◌/◌, ◌-◌, ◌≤◌, ◌<◌, arith}
use casper_prover.Quorum.Verifier.{byzantine_threshold, positive}

-- The threshold lies between 1 and the committee's size, more than two thirds of it sign, and the
-- signers that are left over are at most the faults that a committee tolerates.
pub byzantine_threshold-bounds :
    (n : ℕ)
    → 0 < n
    → (0 < byzantine_threshold n)
      × (byzantine_threshold n ≤ n)
      × (2 * n < 3 * byzantine_threshold n)
      × (byzantine_threshold n + (n - 1) / 3 ≤ n)
byzantine_threshold-bounds n h = ground arith

-- Two sets of the default size in a committee share more signers than the committee tolerates faults.
pub byzantine_overlap :
    (n a b : ℕ)
    → positive (byzantine_threshold n) ≤ a
    → positive (byzantine_threshold n) ≤ b
    → n + (n - 1) / 3 < a + b
byzantine_overlap n a b h k = ground arith
