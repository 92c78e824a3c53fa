-- ===== src/Lamport/OneTime.antt =====
-- engine/internal/crypto/pq.go: what a Lamport signature fits.
use casper_prover.Prelude.{
  ℕ, zero, suc, ◌*◌, true, List, [], ◌∷◌, ◌++◌, length, take, drop, ok, ◌≡◌, refl, sym, ap, ◌∙◌,
  All, arith, length-append,
}
use casper_prover.Hex.{bytes_eq_refl}
use casper_prover.Merkle.Digest.{Sha256}
use casper_prover.Hybrid.Wire.{take-length, drop-length}
use casper_prover.Lamport.{
  Halves, LamportKey, side, digest_bits, public_halves, public_of, reveal, sign_sphincs,
  check_halves, verify_sphincs, size, lamport_digest_bits,
}

-- Halves of 32 bytes.
abbrev pub Sized : Halves → Type 0
Sized halves = (length halves.0 ≡ size) × (length halves.1 ≡ size)

pub length-digest_bits : (bs : List ℕ) → length (digest_bits bs) ≡ 8 * length bs
unfolding digest_bits
length-digest_bits [] = refl
length-digest_bits (b ∷ bs) = omega (arith, length-digest_bits bs)

length-side : (bit : ℕ) (halves : Halves) → Sized halves → length (side bit halves) ≡ size
length-side zero halves (h, _) = h
length-side (suc bit) halves (_, h) = h

side-public_halves :
    (sha : Sha256) (bit : ℕ) (halves : Halves)
    → side bit (public_halves sha halves) ≡ sha.sum (side bit halves)
side-public_halves sha zero halves = refl
side-public_halves sha (suc bit) halves = refl

length-reveal :
    (key : LamportKey) (bits : List ℕ)
    → length key ≡ length bits
    → All Sized key
    → length (reveal key bits) ≡ length bits * size
unfolding reveal
length-reveal [] [] l h = refl
length-reveal [] (bit ∷ bits) l h = absurd (omega arith)
length-reveal (halves ∷ key) [] l h = absurd (omega arith)
length-reveal (halves ∷ key) (bit ∷ bits) l (h, hs) = omega (
  arith,
  length-append (side bit halves) (reveal key bits),
  length-side bit halves h,
  length-reveal key bits (omega arith) hs,
)

pub take-side : (s rest : List ℕ) → length s ≡ size → take size (s ++ rest) ≡ s
take-side s rest h = ap (λ n. take n (s ++ rest)) (sym h) ∙ take-length s rest

pub drop-side : (s rest : List ℕ) → length s ≡ size → drop size (s ++ rest) ≡ rest
drop-side s rest h = ap (λ n. drop n (s ++ rest)) (sym h) ∙ drop-length s rest

check_halves-reveal :
    (sha : Sha256) (key : LamportKey) (bits : List ℕ)
    → All Sized key
    → check_halves sha (public_of sha key) bits (reveal key bits) ≡ true
unfolding check_halves reveal
check_halves-reveal sha [] bits h = refl
check_halves-reveal sha (halves ∷ key) [] h = refl
check_halves-reveal sha (halves ∷ key) (bit ∷ bits) (h, hs) =
    rw
      (
        take-side (side bit halves) (reveal key bits) (length-side bit halves h),
        drop-side (side bit halves) (reveal key bits) (length-side bit halves h),
        side-public_halves sha bit halves,
        bytes_eq_refl (sha.sum (side bit halves)),
        check_halves-reveal sha key bits hs,
      )
      refl

-- VerifySPHINCS accepts what SignSPHINCS makes, under the public key of the private one.
pub verify_sphincs-sign_sphincs :
    (sha : Sha256) (key : LamportKey) (message : List ℕ)
    → length key ≡ lamport_digest_bits
    → All Sized key
    → verify_sphincs sha (public_of sha key) message (sign_sphincs sha key message) ≡ ok true
unfolding verify_sphincs sign_sphincs
verify_sphincs-sign_sphincs sha key message l h =
    let bits = digest_bits (sha.sum message) in
    let wide : length bits ≡ 256 =
      omega (arith, length-digest_bits (sha.sum message), (sha.sum-IsDigest message).size) in
    let long : length (reveal key bits) ≡ 256 * 32 =
      omega (arith, length-reveal key bits (l ∙ sym wide) h) in
    rw (long, check_halves-reveal sha key bits h) refl
