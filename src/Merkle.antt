-- ===== src/Merkle.antt =====
-- Merkle trees: engine/internal/prover/merkle.go, engine/internal/prover/incremental.go and
-- engine/internal/aggregator/merkle_recursion.go.
pub mod Digest
pub mod Levels
pub mod Padding
pub mod Climb
pub mod Tree
pub mod TreeRoot
pub mod Complete
pub mod Incremental
pub mod Frontier
pub mod Accumulate
pub mod Collect
pub mod Receipts
pub mod Binding
pub mod Limits
pub mod Recursion
pub mod Inclusion
