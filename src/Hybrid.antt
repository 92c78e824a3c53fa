-- ===== src/Hybrid.antt =====
-- engine/internal/crypto/pq.go: the hybrid signature of Ed25519 and ML-DSA-65, its binary form, and
-- the checks around the two schemes. The schemes themselves (crypto/ed25519 and circl's mldsa65)
-- are parameters. A byte list that Go may have as nil is a list; a nil pointer is `none`.
pub mod Wire
pub mod Both
use casper_prover.Prelude.{
  ℕ, zero, suc, ◌+◌, ◌*◌, ◌/◌, ◌%◌, ◌<◌, Bool, true, false, ◌||◌, ◌&&◌, not, Option, none, some,
  List, [], ◌∷◌, ◌++◌, ltb, ◌==◌, if◌then◌else◌, length, ◌≡◌, take, drop, Outcome, ok, err, ◌>>=◌,
}

-- `errInvalidKeyLength` and `errInvalidSignature`, the error of mldsa65.SignTo, and the errors that wrap one.
pub data CryptoError : Type 0 where
  invalid_key_length : CryptoError
  invalid_signature : CryptoError
  sign_to : CryptoError
  classic_failed : CryptoError → CryptoError
  pq_failed : CryptoError → CryptoError
  unmarshal_failed : CryptoError → CryptoError

-- ed25519.Sign and ed25519.Verify; mldsa65's SignTo, Verify and SignatureSize.
pub record Schemes : Type 1 where
  pub classic_sign : List ℕ → List ℕ → List ℕ
  pub classic_check : List ℕ → List ℕ → List ℕ → Bool
  pub PqPrivate : Type 0
  pub PqPublic : Type 0
  pub pq_sign : PqPrivate → List ℕ → Option (List ℕ)
  pub pq_check : PqPublic → List ℕ → List ℕ → Bool
  pub pq_size : ℕ

-- The sizes in crypto/ed25519.
abbrev pub private_key_size : ℕ
private_key_size = 64

abbrev pub public_key_size : ℕ
public_key_size = 32

abbrev pub signature_size : ℕ
signature_size = 64

pub record HybridSignature : Type 0 where
  pub classic_sig : List ℕ
  pub pq_sig : List ℕ

-- A length in two bytes, and the bytes.
abbrev pub with_length : List ℕ → List ℕ → List ℕ
with_length bytes rest = length bytes / 256 % 256 ∷ length bytes % 256 ∷ (bytes ++ rest)

-- `MarshalBinary`
unfoldable pub marshal_binary : HybridSignature → Outcome CryptoError (List ℕ)
marshal_binary hs =
    if ltb 65535 (length hs.classic_sig) || ltb 65535 (length hs.pq_sig)
    then err invalid_signature
    else ok (1 ∷ with_length hs.classic_sig (with_length hs.pq_sig []))

-- A length in two bytes, as many bytes, and what is left.
unfoldable pub read_part : List ℕ → Outcome CryptoError (List ℕ × List ℕ)
read_part (hi ∷ lo ∷ rest) =
    if ltb (length rest) (hi * 256 + lo)
    then err invalid_signature
    else ok (take (hi * 256 + lo) rest, drop (hi * 256 + lo) rest)
read_part _ = err invalid_signature

-- `UnmarshalBinary`; the version byte is skipped, and bytes after the second part are not looked at.
unfoldable pub unmarshal_binary : List ℕ → Outcome CryptoError HybridSignature
unfolding read_part
unmarshal_binary bytes =
    if ltb (length bytes) 5
    then err invalid_signature
    else (read_part (drop 1 bytes) >>= (λ first.
        read_part first.1 >>= (λ second. ok (record { classic_sig = first.0; pq_sig = second.0 }))))

abbrev pub wrapped {ℓ} :
    {A : Type ℓ} → (CryptoError → CryptoError) → Outcome CryptoError A → Outcome CryptoError A
wrapped wrap (ok a) = ok a
wrapped wrap (err e) = err (wrap e)

module _ (schemes : Schemes) where
  open schemes use {PqPrivate, PqPublic}

  -- `SignClassic`, `VerifyClassic`, `SignMLDSA` and `VerifyMLDSA`
  unfoldable pub sign_classic : List ℕ → List ℕ → Outcome CryptoError (List ℕ)
  sign_classic key message =
      if length key == private_key_size
      then ok (schemes.classic_sign key message)
      else err invalid_key_length

  unfoldable pub verify_classic : List ℕ → List ℕ → List ℕ → Outcome CryptoError Bool
  verify_classic key message signature =
      if not (length key == public_key_size)
      then err invalid_key_length
      else if not (length signature == signature_size)
      then err invalid_signature
      else ok (schemes.classic_check key message signature)

  abbrev pub signed_to : Option (List ℕ) → Outcome CryptoError (List ℕ)
  signed_to none = err sign_to
  signed_to (some signature) = ok signature

  abbrev pub sign_mldsa : Option PqPrivate → List ℕ → Outcome CryptoError (List ℕ)
  sign_mldsa none message = err invalid_key_length
  sign_mldsa (some key) message = signed_to (schemes.pq_sign key message)

  unfoldable pub verify_mldsa : Option PqPublic → List ℕ → List ℕ → Outcome CryptoError Bool
  verify_mldsa none message signature = err invalid_key_length
  verify_mldsa (some key) message signature =
      if length signature == schemes.pq_size
      then ok (schemes.pq_check key message signature)
      else err invalid_signature

  -- `HybridSign`
  unfoldable pub hybrid_sign : List ℕ → Option PqPrivate → List ℕ → Outcome CryptoError (List ℕ)
  unfolding sign_classic marshal_binary
  hybrid_sign classic pq message =
      wrapped classic_failed (sign_classic classic message) >>= (λ classic_sig.
        wrapped pq_failed (sign_mldsa pq message)
        >>= (λ pq_sig. marshal_binary (record { classic_sig = classic_sig; pq_sig = pq_sig })))

  -- The four results of `HybridVerify`: overall, classic, post-quantum, error.
  abbrev pub Verdicts : Type 0
  Verdicts = Bool × Bool × Bool × Option CryptoError

  abbrev pub verify_pq : Bool → Outcome CryptoError Bool → Verdicts
  verify_pq classic (err e) = (false, classic, false, some (pq_failed e))
  verify_pq classic (ok pq) = (classic && pq, classic, pq, none)

  abbrev pub verify_parts : Outcome CryptoError Bool → Outcome CryptoError Bool → Verdicts
  verify_parts (err e) second = (false, false, false, some (classic_failed e))
  verify_parts (ok classic) second = verify_pq classic second

  abbrev pub verify_read :
      List ℕ → Option PqPublic → List ℕ → Outcome CryptoError HybridSignature → Verdicts
  verify_read classic pq message (err e) = (false, false, false, some (unmarshal_failed e))
  verify_read classic pq message (ok hs) =
      verify_parts (verify_classic classic message hs.classic_sig)
        (verify_mldsa pq message hs.pq_sig)

  -- `HybridVerify`
  unfoldable pub hybrid_verify : List ℕ → Option PqPublic → List ℕ → List ℕ → Verdicts
  unfolding unmarshal_binary verify_classic verify_mldsa
  hybrid_verify classic pq message signature =
      verify_read classic pq message (unmarshal_binary signature)
