-- ===== src/Merkle/Digest.antt =====
-- SHA-256, a parameter: a function from byte lists to digests of 32 bytes. Nothing else is
-- assumed of it; what rests on its strength ends in two inputs of the program that have one digest.
use casper_prover.Prelude.{ℕ, ◌<◌, ◌≡◌, List, ◌++◌, All, length}

-- A `[32]byte`.
pub record IsDigest (d : List ℕ) : Type 0 where
  pub size : length d ≡ 32
  pub bytes : All (λ b. b < 256) d

pub record Sha256 : Type 0 where
  pub sum : List ℕ → List ℕ
  pub sum-IsDigest : (bs : List ℕ) → IsDigest (sum bs)

-- `sha256.Sum256(append(left[:], right[:]...))`
abbrev pub hash_pair : Sha256 → List ℕ → List ℕ → List ℕ
hash_pair sha left right = sha.sum (left ++ right)
