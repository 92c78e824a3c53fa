-- ===== src/Examples.antt =====
-- Concrete parameters for the examples: numbers in place of float64, a digest that is the input's
-- length, and a signature that is the message's length times the key.
pub mod Judging
pub mod Trees
pub mod Signing
pub mod Review
pub mod Circuits
pub mod Records
pub mod Pools
pub mod Polls
pub mod Models
pub mod Requests
pub mod Lineage
pub mod Hybrids
pub mod OneTimes
use casper_prover.Prelude.{
  ℕ, suc, zero, ◌+◌, ◌*◌, ◌/◌, ◌%◌, ◌<◌, List, [], ◌∷◌, String, Option, some, none, ltb, leb, ◌==◌,
  length, replicate, All, arith, refl, Bool,
}
use casper_prover.Prelude.Float.{Floats}
use casper_prover.Merkle.Digest.{Sha256, IsDigest}
use casper_prover.Quorum.{Crypto}

abbrev pub numbers : Floats
numbers = record {
  F = ℕ;
  zero = 0;
  add = λ a b. a + b;
  div_nat = λ a n. a / n;
  eq = ◌==◌;
  less = ltb;
  le = leb;
}

All-replicate : (n : ℕ) → All (λ b. b < 256) (replicate n 0)
All-replicate zero = tt
All-replicate (suc n) = (omega arith, All-replicate n)

abbrev pub toy_sum : List ℕ → List ℕ
toy_sum bs = length bs % 256 ∷ replicate 31 0

pub toy_sum-IsDigest : (bs : List ℕ) → IsDigest (toy_sum bs)
toy_sum-IsDigest bs = record { size = refl; bytes = (omega arith, All-replicate 31) }

abbrev pub toy_sha : Sha256
toy_sha = record { sum = toy_sum; sum-IsDigest = toy_sum-IsDigest }

abbrev toy_pairing : List ℕ → List ℕ → Option Bool
toy_pairing (h ∷ sig ∷ []) (pk ∷ g ∷ []) = some (sig * g == h * pk)
toy_pairing _ _ = none

abbrev pub toy_crypto : Crypto
toy_crypto = record {
  G1 = ℕ;
  G2 = ℕ;
  hash_to_g1 = λ m. some (length m);
  neg = λ h. h;
  generator = 1;
  infinity = 0;
  add = λ a b. a + b;
  pairing_check = toy_pairing;
  g1_hex = λ p. p ∷ [];
  g2_hex = λ p. p ∷ [];
  hex = λ bs. bs;
  sha256 = toy_sum;
  bytes = λ _. [];
  decimal = λ n. n ∷ [];
}
