-- ===== src/Lamport/Binding.antt =====
-- engine/internal/crypto/pq.go: a Lamport signature fits one digest.
use casper_prover.Prelude.{
  ℕ, zero, suc, ◌/◌, ◌%◌, ◌<◌, true, false, List, [], ◌∷◌, length, take, drop, ok, ◌≡◌, ◌≢◌, refl,
  sym, ◌∙◌, All, arith, Bool-cases, inl, inr,
}
use casper_prover.Hex.{bytes_eq, bytes_eq_sound}
use casper_prover.Merkle.Digest.{Sha256}
use casper_prover.Lamport.{
  Halves, LamportKey, side, byte_bits, digest_bits, check_halves, verify_sphincs, size,
  lamport_digest_bits,
}
use casper_prover.Lamport.OneTime.{length-digest_bits}

-- The hashes for bit 0 and for bit 1 differ.
abbrev pub Apart : Halves → Type 0
Apart halves = halves.0 ≢ halves.1

abbrev Bits : List ℕ → Type 0
Bits bits = All (λ b. b < 2) bits

digest_bits-Bits : (bs : List ℕ) → Bits (digest_bits bs)
unfolding digest_bits
digest_bits-Bits [] = tt
digest_bits-Bits (b ∷ bs) = (
  omega arith,
  (
    omega arith,
    (
      omega arith,
      (
        omega arith,
        (omega arith, (omega arith, (omega arith, (omega arith, digest_bits-Bits bs)))),
      ),
    ),
  ),
)

byte_bits-injective :
    (a b : ℕ) {x y : List ℕ} → a < 256 → b < 256 → byte_bits a x ≡ byte_bits b y → (a ≡ b) × (x ≡ y)
byte_bits-injective a b ha hb h =
    let e7 : a / 128 % 2 ≡ b / 128 % 2 = cc in
    let e6 : a / 64 % 2 ≡ b / 64 % 2 = cc in
    let e5 : a / 32 % 2 ≡ b / 32 % 2 = cc in
    let e4 : a / 16 % 2 ≡ b / 16 % 2 = cc in
    let e3 : a / 8 % 2 ≡ b / 8 % 2 = cc in
    let e2 : a / 4 % 2 ≡ b / 4 % 2 = cc in
    let e1 : a / 2 % 2 ≡ b / 2 % 2 = cc in let e0 : a % 2 ≡ b % 2 = cc in (omega arith, cc)

digest_bits-injective :
    (x y : List ℕ)
    → All (λ b. b < 256) x
    → All (λ b. b < 256) y
    → length x ≡ length y
    → digest_bits x ≡ digest_bits y
    → x ≡ y
unfolding digest_bits
digest_bits-injective [] [] hx hy l h = refl
digest_bits-injective [] (b ∷ y) hx hy l h = absurd (omega arith)
digest_bits-injective (a ∷ x) [] hx hy l h = absurd (omega arith)
digest_bits-injective (a ∷ x) (b ∷ y) (ha, hx) (hb, hy) l h =
    let (e, f) = byte_bits-injective a b ha hb h in
    let rest = digest_bits-injective x y hx hy (omega arith) f in cc

side-injective :
    (b c : ℕ) (halves : Halves)
    → b < 2
    → c < 2
    → Apart halves
    → side b halves ≡ side c halves
    → b ≡ c
side-injective zero zero halves hb hc apart h = refl
side-injective zero (suc c) halves hb hc apart h = absurd (apart h)
side-injective (suc b) zero halves hb hc apart h = absurd (apart (sym h))
side-injective (suc b) (suc c) halves hb hc apart h = omega arith

-- What the loop checked of one place, and of the rest.
check_halves-step :
    (sha : Sha256) (halves : Halves) (key : LamportKey) (bit : ℕ) (bits signature : List ℕ)
    → check_halves sha (halves ∷ key) (bit ∷ bits) signature ≡ true
    → (sha.sum (take size signature) ≡ side bit halves)
      × (check_halves sha key bits (drop size signature) ≡ true)
unfolding check_halves
check_halves-step sha halves key bit bits signature h =
    elim (Bool-cases (bytes_eq (sha.sum (take size signature)) (side bit halves))) [
      | inl e ↦ (bytes_eq_sound (sha.sum (take size signature)) (side bit halves) e, rw e at h)
      | inr e ↦ absurd (false-ne-true (rw e at h))
    ]
  where
    false-ne-true : false ≡ true → ⊥
    false-ne-true q = cc

check_halves-agree :
    (sha : Sha256) (key : LamportKey) (bits others signature : List ℕ)
    → length bits ≡ length key
    → length others ≡ length key
    → Bits bits
    → Bits others
    → All Apart key
    → check_halves sha key bits signature ≡ true
    → check_halves sha key others signature ≡ true
    → bits ≡ others
check_halves-agree sha [] [] [] s l k hb hc a h j = refl
check_halves-agree sha [] (b ∷ bits) others s l k hb hc a h j = absurd (omega arith)
check_halves-agree sha [] [] (c ∷ others) s l k hb hc a h j = absurd (omega arith)
check_halves-agree sha (halves ∷ key) [] others s l k hb hc a h j = absurd (omega arith)
check_halves-agree sha (halves ∷ key) (b ∷ bits) [] s l k hb hc a h j = absurd (omega arith)
check_halves-agree sha (halves ∷ key) (b ∷ bits) (c ∷ others) s l k (hb, hbs) (hc, hcs) (a, as_rest)
      h j =
    let (first, h1) = check_halves-step sha halves key b bits s h in
    let (second, j1) = check_halves-step sha halves key c others s j in
    let same = side-injective b c halves hb hc a (sym first ∙ second) in
    let rest =
      check_halves-agree sha key bits others (drop size s) (omega arith) (omega arith) hbs hcs
        as_rest h1 j1 in
    cc

verify_sphincs-checks :
    (sha : Sha256) (key : LamportKey) (message signature : List ℕ)
    → verify_sphincs sha key message signature ≡ ok true
    → check_halves sha key (digest_bits (sha.sum message)) signature ≡ true
unfolding verify_sphincs
verify_sphincs-checks sha key message signature h = ground arith

-- Two messages that VerifySPHINCS accepts with one signature, under one key of 256 pairs whose two
-- hashes differ, have one SHA-256 digest.
pub verify_sphincs-one_digest :
    (sha : Sha256) (key : LamportKey) (message other signature : List ℕ)
    → length key ≡ lamport_digest_bits
    → All Apart key
    → verify_sphincs sha key message signature ≡ ok true
    → verify_sphincs sha key other signature ≡ ok true
    → sha.sum message ≡ sha.sum other
verify_sphincs-one_digest sha key message other signature l apart h j =
    let x = sha.sum message in
    let y = sha.sum other in
    let dx = sha.sum-IsDigest message in
    let dy = sha.sum-IsDigest other in
    digest_bits-injective x y dx.bytes dy.bytes (dx.size ∙ sym dy.size) (
      check_halves-agree sha key (digest_bits x) (digest_bits y) signature
        (omega (arith, length-digest_bits x, dx.size, l))
        (omega (arith, length-digest_bits y, dy.size, l)) (digest_bits-Bits x) (digest_bits-Bits y)
        apart (verify_sphincs-checks sha key message signature h)
        (verify_sphincs-checks sha key other signature j))
