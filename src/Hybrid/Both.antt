-- ===== src/Hybrid/Both.antt =====
-- engine/internal/crypto/pq.go: HybridSign and HybridVerify together.
use casper_prover.Prelude.{
  ℕ, Bool, true, false, Option, none, some, List, [], ◌∷◌, ◌++◌, length, ◌≡◌, ◌↔◌, refl, drop, ok,
  err, arith, Outcome, succeeds_through,
}
use casper_prover.Hybrid.{
  HybridSignature, CryptoError, Schemes, marshal_binary, unmarshal_binary, sign_classic,
  verify_classic, sign_mldsa, verify_mldsa, hybrid_sign, hybrid_verify, classic_failed, pq_failed,
  verify_read, verify_parts, wrapped, public_key_size, signature_size,
}
use casper_prover.Hybrid.Wire.{unmarshal_binary-marshal_binary, marshal_binary-version}

module _ (schemes : Schemes) where
  open schemes use {PqPrivate, PqPublic}

  -- Two keys of crypto/ed25519 and two of mldsa65 that belong together.
  pub record ArePaired (classic public : List ℕ) (pq : PqPrivate) (pq_public : PqPublic)
      : Type 0 where
    pub public_size : length public ≡ public_key_size
    pub classic_size : (m : List ℕ) → length (schemes.classic_sign classic m) ≡ signature_size
    pub classic_checks :
        (m : List ℕ) → schemes.classic_check public m (schemes.classic_sign classic m) ≡ true
    pub pq_size : (m s : List ℕ) → schemes.pq_sign pq m ≡ some s → length s ≡ schemes.pq_size
    pub pq_checks :
        (m s : List ℕ) → schemes.pq_sign pq m ≡ some s → schemes.pq_check pq_public m s ≡ true

  wrapped-ok :
      {A : Type 0} (wrap : CryptoError → CryptoError) (o : Outcome CryptoError A) {a : A}
      → wrapped wrap o ≡ ok a
      → o ≡ ok a
  wrapped-ok wrap (ok a) h = h
  wrapped-ok wrap (err e) h = cc

  sign_classic-ok :
      (key m : List ℕ) {s : List ℕ}
      → sign_classic schemes key m ≡ ok s
      → schemes.classic_sign key m ≡ s
  unfolding sign_classic
  sign_classic-ok key m h = ground arith

  sign_mldsa-ok :
      (key : PqPrivate) (m : List ℕ) {s : List ℕ}
      → sign_mldsa schemes (some key) m ≡ ok s
      → schemes.pq_sign key m ≡ some s
  sign_mldsa-ok key m h = ground arith

  verify_classic-ok :
      (key m s : List ℕ) {b : Bool}
      → length key ≡ public_key_size
      → length s ≡ signature_size
      → schemes.classic_check key m s ≡ b
      → verify_classic schemes key m s ≡ ok b
  unfolding verify_classic
  verify_classic-ok key m s hk hs hb = rw (hk, hs, hb) refl

  verify_mldsa-ok :
      (key : PqPublic) (m s : List ℕ) {b : Bool}
      → length s ≡ schemes.pq_size
      → schemes.pq_check key m s ≡ b
      → verify_mldsa schemes (some key) m s ≡ ok b
  unfolding verify_mldsa
  verify_mldsa-ok key m s hs hb = ground arith

  -- What HybridSign returns is the binary form of both signatures.
  hybrid_sign-ok :
      (classic : List ℕ) (pq : PqPrivate) (m : List ℕ) {signature : List ℕ}
      → hybrid_sign schemes classic (some pq) m ≡ ok signature
      → (p : List ℕ) × (schemes.pq_sign pq m ≡ some p)
        × (marshal_binary (record { classic_sig = schemes.classic_sign classic m; pq_sig = p })
            ≡ ok signature)
  unfolding hybrid_sign
  hybrid_sign-ok classic pq m {signature} h =
      let (c, hc, h1) = succeeds_through _ _ h in
      let (p, hp, h2) = succeeds_through _ _ h1 in
      let first : schemes.classic_sign classic m ≡ c =
        sign_classic-ok classic m (wrapped-ok classic_failed (sign_classic schemes classic m) hc) in
      (
        p,
        sign_mldsa-ok pq m (wrapped-ok pq_failed (sign_mldsa schemes (some pq) m) hp),
        rw first h2,
      )

  hybrid_verify-accepts :
      (classic public : List ℕ) (pq : PqPrivate) (pq_public : PqPublic) (m p bytes : List ℕ)
      → ArePaired classic public pq pq_public
      → schemes.pq_sign pq m ≡ some p
      → unmarshal_binary bytes
        ≡ ok (record { classic_sig = schemes.classic_sign classic m; pq_sig = p })
      → hybrid_verify schemes public (some pq_public) m bytes ≡ (true, true, true, none)
  unfolding hybrid_verify
  hybrid_verify-accepts classic public pq pq_public m p bytes keys hp read =
      rw
        (
          read,
          verify_classic-ok public m (schemes.classic_sign classic m) keys.public_size
              (keys.classic_size m) (keys.classic_checks m),
          verify_mldsa-ok pq_public m p (keys.pq_size m p hp) (keys.pq_checks m p hp),
        )
        refl

  -- Under keys that belong together HybridVerify accepts what HybridSign returned. It accepts as well
  -- the same bytes with any byte in place of the version, followed by any bytes.
  pub hybrid_verify-hybrid_sign :
      (classic public : List ℕ) (pq : PqPrivate) (pq_public : PqPublic) (m signature : List ℕ)
      → ArePaired classic public pq pq_public
      → hybrid_sign schemes classic (some pq) m ≡ ok signature
      → (v : ℕ) (extra : List ℕ)
      → (hybrid_verify schemes public (some pq_public) m signature ≡ (true, true, true, none))
        × (hybrid_verify schemes public (some pq_public) m (v ∷ (drop 1 signature ++ extra))
            ≡ (true, true, true, none))
  hybrid_verify-hybrid_sign classic public pq pq_public m signature keys h v extra =
      let (p, hp, marshalled) = hybrid_sign-ok classic pq m h in
      let hs : HybridSignature = record {
        classic_sig = schemes.classic_sign classic m;
        pq_sig = p;
      } in
      let reads = unmarshal_binary-marshal_binary hs signature marshalled in
      let accepts = hybrid_verify-accepts classic public pq pq_public m p in
      (
        rw (marshal_binary-version hs signature marshalled) at (accepts _ keys hp (reads 1 [])),
        accepts _ keys hp (reads v extra),
      )

  -- The overall result is true exactly when the bytes can be read and VerifyClassic and VerifyMLDSA
  -- both accept their part: neither signature stands for the other.
  pub hybrid_verify-both :
      (public : List ℕ) (pq : Option PqPublic) (m bytes : List ℕ)
      → ((hybrid_verify schemes public pq m bytes).0 ≡ true) ↔ (
          (hs : HybridSignature) × (unmarshal_binary bytes ≡ ok hs)
          × (verify_classic schemes public m hs.classic_sig ≡ ok true)
          × (verify_mldsa schemes pq m hs.pq_sig ≡ ok true))
  unfolding hybrid_verify
  hybrid_verify-both public pq m bytes =
      (accepted (unmarshal_binary bytes), λ (hs, read, c, p). rw (read, c, p) refl)
    where
      parts :
          (first second : Outcome CryptoError Bool)
          → (verify_parts schemes first second).0 ≡ true
          → (first ≡ ok true) × (second ≡ ok true)
      parts (err e) second h = cc
      parts (ok c) (err e) h = cc
      parts (ok true) (ok true) h = (refl, refl)
      parts (ok true) (ok false) h = cc
      parts (ok false) (ok b) h = cc

      accepted :
          (read : Outcome CryptoError HybridSignature)
          → (verify_read schemes public pq m read).0 ≡ true
          → (hs : HybridSignature) × (read ≡ ok hs)
            × (verify_classic schemes public m hs.classic_sig ≡ ok true)
            × (verify_mldsa schemes pq m hs.pq_sig ≡ ok true)
      accepted (err e) h = cc
      accepted (ok hs) h = let (c, p) = parts _ _ h in (hs, refl, c, p)
