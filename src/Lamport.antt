-- ===== src/Lamport.antt =====
-- engine/internal/crypto/pq.go: the Lamport one-time signature. A key is the list of its 256 pairs of
-- 32 bytes, the half for bit 0 first; Go's array type gives the sizes, which are hypotheses here.
pub mod OneTime
pub mod Binding
pub mod Keys
use casper_prover.Prelude.{
  ℕ, zero, suc, ◌+◌, ◌*◌, ◌/◌, ◌%◌, Bool, true, false, not, List, [], ◌∷◌, ◌++◌, ◌==◌,
  if◌then◌else◌, length, map, take, drop, Outcome, ok, err,
}
use casper_prover.Hex.{bytes_eq}
use casper_prover.Merkle.Digest.{Sha256}
use casper_prover.Hybrid.{CryptoError, invalid_signature, invalid_key_length}

abbrev pub Halves : Type 0
Halves = List ℕ × List ℕ

-- `LamportPrivateKey` and `LamportPublicKey`
abbrev pub LamportKey : Type 0
LamportKey = List Halves

abbrev pub lamport_digest_bits : ℕ
lamport_digest_bits = 256

-- sha256.Size
abbrev pub size : ℕ
size = 32

-- The bits of a byte, the highest first, and of a digest.
abbrev pub byte_bits : ℕ → List ℕ → List ℕ
byte_bits b rest =
    b / 128 % 2
    ∷ b / 64 % 2
    ∷ b / 32 % 2
    ∷ b / 16 % 2
    ∷ b / 8 % 2
    ∷ b / 4 % 2
    ∷ b / 2 % 2
    ∷ b % 2
    ∷ rest

unfoldable pub digest_bits : List ℕ → List ℕ
digest_bits [] = []
digest_bits (b ∷ bs) = byte_bits b (digest_bits bs)

abbrev pub side : ℕ → Halves → List ℕ
side zero halves = halves.0
side (suc b) halves = halves.1

-- The public key that GenerateLamportKeyPair makes of the random halves.
abbrev pub public_halves : Sha256 → Halves → Halves
public_halves sha halves = (sha.sum halves.0, sha.sum halves.1)

abbrev pub public_of : Sha256 → LamportKey → LamportKey
public_of sha key = map (public_halves sha) key

-- The loop of `SignSPHINCS`
unfoldable pub reveal : LamportKey → List ℕ → List ℕ
reveal (halves ∷ key) (bit ∷ bits) = side bit halves ++ reveal key bits
reveal _ _ = []

-- `SignSPHINCS` with a key
unfoldable pub sign_sphincs : Sha256 → LamportKey → List ℕ → List ℕ
unfolding reveal digest_bits
sign_sphincs sha key message = reveal key (digest_bits (sha.sum message))

-- The loop of `VerifySPHINCS`
unfoldable pub check_halves : Sha256 → LamportKey → List ℕ → List ℕ → Bool
check_halves sha (halves ∷ key) (bit ∷ bits) signature =
    let rest = check_halves sha key bits (drop size signature) in
    if not (bytes_eq (sha.sum (take size signature)) (side bit halves)) then false else rest
check_halves sha _ _ signature = true

-- `VerifySPHINCS` with a key
unfoldable pub verify_sphincs : Sha256 → LamportKey → List ℕ → List ℕ → Outcome CryptoError Bool
unfolding check_halves digest_bits
verify_sphincs sha key message signature =
    if not (length signature == lamport_digest_bits * size)
    then err invalid_signature
    else ok (check_halves sha key (digest_bits (sha.sum message)) signature)

-- `Bytes` of a key of either kind
unfoldable pub key_bytes : LamportKey → List ℕ
key_bytes [] = []
key_bytes (halves ∷ key) = halves.0 ++ (halves.1 ++ key_bytes key)

unfoldable pub halves_from : ℕ → List ℕ → LamportKey
halves_from zero bytes = []
halves_from (suc n) bytes =
    (take size bytes, take size (drop size bytes)) ∷ halves_from n (drop size (drop size bytes))

-- `LamportPrivateKeyFromBytes` and `LamportPublicKeyFromBytes`
unfoldable pub key_from_bytes : List ℕ → Outcome CryptoError LamportKey
unfolding halves_from
key_from_bytes bytes =
    if not (length bytes == lamport_digest_bits * 2 * size)
    then err invalid_key_length
    else ok (halves_from lamport_digest_bits bytes)
