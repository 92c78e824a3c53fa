-- ===== src/Examples/OneTimes.antt =====
-- A Lamport key under a digest that is the input's first byte.
use casper_prover.Prelude.{
  ℕ, zero, suc, ◌%◌, ◌<◌, List, [], ◌∷◌, ◌≡◌, refl, replicate, length-replicate, All, ok, arith,
  true,
}
use casper_prover.Merkle.Digest.{Sha256, IsDigest}
use casper_prover.Lamport.{
  Halves, LamportKey, public_halves, public_of, sign_sphincs, verify_sphincs,
}
use casper_prover.Lamport.OneTime.{Sized, verify_sphincs-sign_sphincs}
use casper_prover.Lamport.Binding.{Apart, verify_sphincs-one_digest}

All-replicate : {A : Type 0} (P : A → Type 0) (n : ℕ) (a : A) → P a → All P (replicate n a)
All-replicate P zero a h = tt
All-replicate P (suc n) a h = (h, All-replicate P n a h)

abbrev first_byte : List ℕ → ℕ
first_byte [] = 0
first_byte (b ∷ bs) = b % 256

abbrev head_sum : List ℕ → List ℕ
head_sum bs = first_byte bs ∷ replicate 31 0

first_byte-bounded : (bs : List ℕ) → first_byte bs < 256
first_byte-bounded [] = omega arith
first_byte-bounded (b ∷ bs) = omega arith

head_sum-IsDigest : (bs : List ℕ) → IsDigest (head_sum bs)
head_sum-IsDigest bs = record {
  size = refl;
  bytes = (first_byte-bounded bs, All-replicate (λ b. b < 256) 31 0 (omega arith));
}

abbrev head_sha : Sha256
head_sha = record { sum = head_sum; sum-IsDigest = head_sum-IsDigest }

abbrev halves : Halves
halves = (replicate 32 1, replicate 32 2)

abbrev lamport_key : LamportKey
lamport_key = replicate 256 halves

abbrev message : List ℕ
message = 165 ∷ []

abbrev other : List ℕ
other = 165 ∷ 7 ∷ []

lamport_key-Sized : All Sized lamport_key
lamport_key-Sized = All-replicate Sized 256 halves (refl, refl)

message_accepted :
    verify_sphincs head_sha
      (public_of head_sha lamport_key)
      message
      (sign_sphincs head_sha lamport_key message)
    ≡ ok true
message_accepted =
    verify_sphincs-sign_sphincs head_sha lamport_key message (length-replicate 256 halves)
      lamport_key-Sized

verify_sphincs-sign_sphincs_example :
    verify_sphincs head_sha
      (public_of head_sha lamport_key)
      message
      (sign_sphincs head_sha lamport_key message)
    ≡ ok true
verify_sphincs-sign_sphincs_example =
    verify_sphincs-sign_sphincs head_sha lamport_key message (length-replicate 256 halves)
      lamport_key-Sized

other_accepted :
    verify_sphincs head_sha
      (public_of head_sha lamport_key)
      other
      (sign_sphincs head_sha lamport_key message)
    ≡ ok true
unfolding sign_sphincs
other_accepted =
    verify_sphincs-sign_sphincs head_sha lamport_key other (length-replicate 256 halves)
      lamport_key-Sized

public_of-Apart : All Apart (public_of head_sha lamport_key)
public_of-Apart = All-replicate Apart 256 (public_halves head_sha halves) apart
  where
    apart : Apart (public_halves head_sha halves)
    apart e = absurd (ground arith)

verify_sphincs-one_digest_example : head_sha.sum message ≡ head_sha.sum other
verify_sphincs-one_digest_example =
    verify_sphincs-one_digest head_sha (public_of head_sha lamport_key) message other
      (sign_sphincs head_sha lamport_key message) refl public_of-Apart message_accepted
      other_accepted
