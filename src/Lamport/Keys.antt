-- ===== src/Lamport/Keys.antt =====
-- engine/internal/crypto/pq.go: Lamport keys as bytes.
use casper_prover.Prelude.{◌*◌, [], ◌∷◌, ◌++◌, length, ok, ◌≡◌, refl, All, arith, length-append}
use casper_prover.Lamport.{LamportKey, key_bytes, halves_from, key_from_bytes, lamport_digest_bits}
use casper_prover.Lamport.OneTime.{Sized, take-side, drop-side}

length-key_bytes : (key : LamportKey) → All Sized key → length (key_bytes key) ≡ length key * 64
unfolding key_bytes
length-key_bytes [] h = refl
length-key_bytes (halves ∷ key) ((h, k), hs) = omega (
  arith,
  h,
  k,
  length-append halves.0 (halves.1 ++ key_bytes key),
  length-append halves.1 (key_bytes key),
  length-key_bytes key hs,
)

halves_from-key_bytes :
    (key : LamportKey) → All Sized key → halves_from (length key) (key_bytes key) ≡ key
unfolding halves_from key_bytes
halves_from-key_bytes [] h = refl
halves_from-key_bytes ((low, high) ∷ key) ((h, k), hs) =
    rw
      (
        take-side low (high ++ key_bytes key) h,
        drop-side low (high ++ key_bytes key) h,
        take-side high (key_bytes key) k,
        drop-side high (key_bytes key) k,
        halves_from-key_bytes key hs,
      )
      refl

-- A key is read back from its bytes.
pub key_from_bytes-key_bytes :
    (key : LamportKey)
    → length key ≡ lamport_digest_bits
    → All Sized key
    → key_from_bytes (key_bytes key) ≡ ok key
unfolding key_from_bytes
key_from_bytes-key_bytes key l h =
    let long : length (key_bytes key) ≡ 256 * 2 * 32 = omega (arith, length-key_bytes key h, l) in
    let read : halves_from 256 (key_bytes key) ≡ key = rw l at (halves_from-key_bytes key h) in
    rw (long, read) refl
