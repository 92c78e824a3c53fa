-- ===== src/Hybrid/Wire.antt =====
-- engine/internal/crypto/pq.go: what UnmarshalBinary reads of the bytes of MarshalBinary.
use casper_prover.Prelude.{
  ℕ, ◌+◌, ◌*◌, ◌/◌, ◌%◌, ◌<◌, false, ◌||◌, List, [], ◌∷◌, ◌++◌, ltb, length, ◌≡◌, refl, sym, ap,
  take, drop, ok, err, Bool-cases, arith, inl, inr, Outcome, length-append,
}
use mathlib.Core.List.{append_assoc, append-nil}
use casper_prover.Hybrid.{
  HybridSignature, CryptoError, with_length, marshal_binary, read_part, unmarshal_binary,
}

pub take-length : (b rest : List ℕ) → take (length b) (b ++ rest) ≡ b
take-length [] rest = refl
take-length (x ∷ b) rest = ap (λ ys. x ∷ ys) (take-length b rest)

pub drop-length : (b rest : List ℕ) → drop (length b) (b ++ rest) ≡ rest
drop-length [] rest = refl
drop-length (x ∷ b) rest = drop-length b rest

read_part-with_length :
    (b rest : List ℕ) → length b < 65536 → read_part (with_length b rest) ≡ ok (b, rest)
unfolding read_part
read_part-with_length b rest h =
    let size : length b / 256 % 256 * 256 + length b % 256 ≡ length b = omega arith in
    let enough : ltb (length (b ++ rest)) (length b) ≡ false =
      ground (arith, length-append b rest) in
    rw (size, enough, take-length b rest, drop-length b rest) refl

-- The version byte and what follows the second part are not looked at.
pub unmarshal_binary-reads :
    (v : ℕ) (c p extra : List ℕ)
    → length c < 65536
    → length p < 65536
    → unmarshal_binary (v ∷ with_length c (with_length p extra))
      ≡ ok (record { classic_sig = c; pq_sig = p })
unfolding unmarshal_binary
unmarshal_binary-reads v c p extra hc hp =
    let long : ltb (length (v ∷ with_length c (with_length p extra))) 5 ≡ false =
      ground (arith, length-append c (with_length p extra)) in
    rw (long, read_part-with_length c (with_length p extra) hc, read_part-with_length p extra hp)
      refl

with_length-append :
    (b rest extra : List ℕ) → with_length b rest ++ extra ≡ with_length b (rest ++ extra)
with_length-append b rest extra =
    ap (λ ys. length b / 256 % 256 ∷ length b % 256 ∷ ys) (append_assoc b rest extra)

pub marshal_binary-ok :
    (hs : HybridSignature) (bytes : List ℕ)
    → marshal_binary hs ≡ ok bytes
    → (length hs.classic_sig < 65536)
      × (length hs.pq_sig < 65536)
      × (bytes ≡ 1 ∷ with_length hs.classic_sig (with_length hs.pq_sig []))
unfolding marshal_binary
marshal_binary-ok hs bytes h =
    elim (Bool-cases (ltb 65535 (length hs.classic_sig) || ltb 65535 (length hs.pq_sig))) [
      | inl e ↦ absurd (refused (rw e at h))
      | inr e ↦ (ground arith, ground arith, sym (ok-injective (rw e at h)))
    ]
  where
    refused :
        {A : Type 0} {e : CryptoError} {a : A} → ◌≡◌ {A = Outcome CryptoError A} (err e) (ok a) → ⊥
    refused q = cc

    ok-injective : {A : Type 0} {a b : A} → ◌≡◌ {A = Outcome CryptoError A} (ok a) (ok b) → a ≡ b
    ok-injective q = cc

-- UnmarshalBinary reads what MarshalBinary wrote, whatever stands in place of the version byte and
-- whatever bytes follow.
pub unmarshal_binary-marshal_binary :
    (hs : HybridSignature) (bytes : List ℕ)
    → marshal_binary hs ≡ ok bytes
    → (v : ℕ) (extra : List ℕ) → unmarshal_binary (v ∷ (drop 1 bytes ++ extra)) ≡ ok hs
unmarshal_binary-marshal_binary hs bytes h v extra =
    let (hc, hp, e) = marshal_binary-ok hs bytes h in
    rw
      (
        e,
        with_length-append hs.classic_sig (with_length hs.pq_sig []) extra,
        with_length-append hs.pq_sig [] extra,
      )
      (unmarshal_binary-reads v hs.classic_sig hs.pq_sig extra hc hp)

-- The first byte that MarshalBinary writes is the version 1.
pub marshal_binary-version :
    (hs : HybridSignature) (bytes : List ℕ)
    → marshal_binary hs ≡ ok bytes
    → 1 ∷ (drop 1 bytes ++ []) ≡ bytes
marshal_binary-version hs bytes h =
    let (_, _, e) = marshal_binary-ok hs bytes h in
    rw e (
      ap (λ ys. 1 ∷ ys)
        (append-nil (drop 1 (1 ∷ with_length hs.classic_sig (with_length hs.pq_sig [])))))
