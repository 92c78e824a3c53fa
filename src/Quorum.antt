-- ===== src/Quorum.antt =====
-- engine/internal/quorum: the signer registry (registry.go)
-- and the BLS calls of its clients (bls.go); Quorum/Verifier is verifier.go.
-- The BLS curve is a record of the operations that the source calls, and the digest of the witness
-- is SHA-256, a parameter; the clock is an argument. A threshold is an `int`, negative or not.
pub mod Verifier
pub mod Threshold
pub mod Lifecycle
pub mod Witness
pub mod Intersection
use casper_prover.Prelude.{
  Outcome, ok, err, ◌>>=◌, ℕ, zero, suc, ◌+◌, ◌*◌, ◌/◌, String, Bool, true, false, Option, none,
  some, List, [], ◌∷◌, ltb, ◌==◌, str_eq, if◌then◌else◌, length, any, count, ℤ, pos, negsuc, select,
}
use casper_prover.Prelude.Assoc.{Assoc, lookup, insert, values}
use casper_prover.Prelude.Sort.{sort, str_ltb}

pub data SignerStatus : Type 0 where
  active slashed removed : SignerStatus

abbrev pub is_active : SignerStatus → Bool
is_active active = true
is_active _ = false

-- `SignerRecord`; `pk` is absent when it could not be parsed.
pub record SignerRecord (Pk : Type 0) : Type 0 where
  pub id : String
  pub public_key_hex : List ℕ
  pub bond : ℕ
  pub status : SignerStatus
  pub registered_at : ℕ
  pub slashed_at : Option ℕ
  pub slash_reason : String
  pub pk : Option Pk

pub data Error : Type 0 where
  empty_id : Error
  already_registered : String → Error
  empty_pub_key : Error
  unknown_signer : Error
  cannot_retire : String → Error
  duplicate_signer : String → Error
  unknown_signer_named : String → Error
  inactive_signer : String → SignerStatus → Error
  invalid_pub_key : String → Error
  nil_registry : Error
  empty_message : Error
  empty_bitset : Error
  invalid_signature : Error
  threshold_not_met : ℕ → ℕ → ℕ → Error
  hash_failed pairing_failed pairing_check_fail : Error

abbrev pub Result {ℓ} : Type ℓ → Type ℓ
Result A = Outcome Error A

-- The library bls12-381 and `fmt`, `encoding/hex`, `crypto/sha256` as far as the package calls
-- them: signatures and hashed messages are points of G1, keys points of G2.
pub record Crypto : Type 1 where
  pub G1 : Type 0
  pub G2 : Type 0
  pub hash_to_g1 : List ℕ → Option G1
  pub neg : G1 → G1
  -- the generator of G2, the neutral point and the sum
  pub generator : G2
  pub infinity : G2
  pub add : G2 → G2 → G2
  -- none is the call's error
  pub pairing_check : List G1 → List G2 → Option Bool
  pub g1_hex : G1 → List ℕ
  pub g2_hex : G2 → List ℕ
  pub hex : List ℕ → List ℕ
  pub sha256 : List ℕ → List ℕ
  -- the bytes of a string, and of a number in decimal
  pub bytes : String → List ℕ
  pub decimal : ℕ → List ℕ

module _ (c : Crypto) where
  open c use {G1, G2}

  abbrev pub Registry : Type 0
  Registry = Assoc (SignerRecord G2)

  -- `Register`: the error, and the map after the call.
  unfoldable pub register : String → Option G2 → ℕ → ℕ → Registry → Option Error × Registry
  register id none bond now s = (if str_eq id "" then some empty_id else some empty_pub_key, s)
  register id (some pk) bond now s =
      if str_eq id "" then (some empty_id, s) else (elim (lookup id s) [
        | some _ ↦ (some (already_registered id), s)
        | none ↦ (
          none,
          insert id
              (record {
                id = id;
                public_key_hex = c.g2_hex pk;
                bond = bond;
                status = active;
                registered_at = now;
                slashed_at = none;
                slash_reason = "";
                pk = some pk;
              })
              s,
        )
      ])

  -- `Get`
  abbrev pub get : String → Registry → Option (SignerRecord G2)
  get id s = lookup id s

  -- What `Slash` and `Retire` make of a record.
  abbrev pub with_slash : ℕ → String → SignerRecord G2 → SignerRecord G2
  with_slash now reason rec = record rec {
    status = slashed;
    slashed_at = some now;
    slash_reason = reason;
  }

  abbrev pub without_membership : SignerRecord G2 → SignerRecord G2
  without_membership rec = record rec { status = removed }

  abbrev pub slash_found :
      String → String → ℕ → SignerRecord G2 → SignerStatus → Registry → Option Error × Registry
  slash_found id reason now rec slashed s = (none, s)
  slash_found id reason now rec _ s = (none, insert id (with_slash now reason rec) s)

  -- `Slash`
  unfoldable pub slash : String → String → ℕ → Registry → Option Error × Registry
  slash id reason now s = elim (lookup id s) [
    | none ↦ (some unknown_signer, s)
    | some rec ↦ slash_found id reason now rec rec.status s
  ]

  abbrev pub retire_found :
      String → SignerRecord G2 → SignerStatus → Registry → Option Error × Registry
  retire_found id rec slashed s = (some (cannot_retire id), s)
  retire_found id rec removed s = (none, s)
  retire_found id rec active s = (none, insert id (without_membership rec) s)

  -- `Retire`
  unfoldable pub retire : String → Registry → Option Error × Registry
  retire id s = elim (lookup id s) [
    | none ↦ (some unknown_signer, s)
    | some rec ↦ retire_found id rec rec.status s
  ]

  abbrev pub by_id : SignerRecord G2 → SignerRecord G2 → Bool
  by_id a b = str_ltb a.id b.id

  abbrev pub same_status : SignerStatus → SignerStatus → Bool
  same_status active active = true
  same_status slashed slashed = true
  same_status removed removed = true
  same_status _ _ = false

  abbrev pub passes : Option SignerStatus → SignerRecord G2 → Bool
  passes none rec = true
  passes (some status) rec = same_status rec.status status

  -- `List`; an empty filter is none.
  unfoldable pub list : Option SignerStatus → Registry → List (SignerRecord G2)
  list filter s = sort by_id (select (passes filter) (values s))

  -- `ActiveCount`
  abbrev pub counts : SignerRecord G2 → Bool
  counts rec = is_active rec.status

  unfoldable pub active_count : Registry → ℕ
  active_count s = count counts (values s)

  abbrev pub key_of : String → SignerRecord G2 → Result G2
  key_of id rec = elim rec.status [
    | active ↦ elim rec.pk [ none ↦ err (invalid_pub_key id) | some pk ↦ ok pk ]
    | slashed ↦ err (inactive_signer id slashed)
    | removed ↦ err (inactive_signer id removed)
  ]

  -- What the loop of `activePubKeys` does at one id.
  abbrev pub active_key : Registry → List String → String → Result G2
  active_key s seen id =
      if any (str_eq id) seen
      then err (duplicate_signer id)
      else (elim (lookup id s) [ none ↦ err (unknown_signer_named id) | some rec ↦ key_of id rec ])

  -- `activePubKeys`, with the ids seen so far.
  unfoldable pub active_pub_keys : Registry → List String → List String → Result (List G2)
  active_pub_keys s seen [] = ok []
  active_pub_keys s seen (id ∷ ids) = do
    pk ← active_key s seen id
    pks ← active_pub_keys s (id ∷ seen) ids
    ok (pk ∷ pks)

  unfoldable pub sum_keys : G2 → List G2 → G2
  sum_keys acc [] = acc
  sum_keys acc (pk ∷ pks) = sum_keys (c.add acc pk) pks

  -- `AggregatePubKeys` on keys that are there.
  unfoldable pub aggregate_pub_keys : List G2 → Result G2
  unfolding sum_keys
  aggregate_pub_keys [] = err empty_pub_key
  aggregate_pub_keys (pk ∷ pks) = ok (sum_keys c.infinity (pk ∷ pks))

  abbrev checked : Option Bool → Result Bool
  checked none = err pairing_failed
  checked (some true) = ok true
  checked (some false) = err pairing_check_fail

  -- `Verify` on a key that is there.
  unfoldable pub verify : G2 → List ℕ → G1 → Result Bool
  verify pk [] sig = err empty_message
  verify pk (b ∷ msg) sig = elim (c.hash_to_g1 (b ∷ msg)) [
    | none ↦ err hash_failed
    | some h ↦ checked (c.pairing_check (c.neg h ∷ sig ∷ []) (pk ∷ c.generator ∷ []))
  ]
