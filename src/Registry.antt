-- ===== src/Registry.antt =====
-- engine/internal/model/registry.go: the registry of models and their attestations. The clock and the
-- random ids are arguments, and len of a string, strings.ToLower and strings.HasPrefix parameters.
-- The order of a range over the models is that of the map's entries.
pub mod Consistent
pub mod History
pub mod Frozen
use Prim.Native.String.{◌++◌ as append}
use Prim.Native.Char.{Char, code}
use casper_prover.Prelude.{
  ℕ, zero, suc, ◌+◌, String, Bool, true, false, ◌&&◌, ◌||◌, not, Option, none, some, List, [], ◌∷◌,
  ◌++◌, ltb, leb, ◌==◌, str_eq, if◌then◌else◌, length, select, count, map, Outcome, ok, err,
}
use casper_prover.Prelude.Assoc.{Assoc, lookup, insert, values}
use casper_prover.Prelude.Sort.{sort, str_ltb}

pub record ModelVersion : Type 0 where
  pub major : ℕ
  pub minor : ℕ
  pub patch : ℕ

pub data ModelStatus : Type 0 where
  active deprecated revoked : ModelStatus

abbrev pub is_active : ModelStatus → Bool
is_active active = true
is_active _ = false

abbrev pub is_deprecated : ModelStatus → Bool
is_deprecated deprecated = true
is_deprecated _ = false

abbrev pub is_revoked : ModelStatus → Bool
is_revoked revoked = true
is_revoked _ = false

pub record ModelEntry : Type 0 where
  pub id : String
  pub name : String
  pub hash : String
  pub owner : String
  pub version : ModelVersion
  pub ipfs_cid : String
  pub input_schema : String
  pub output_schema : String
  pub registered_at : ℕ
  pub updated_at : ℕ
  pub status : ModelStatus
  pub attestation_count : ℕ
  pub last_attestation_at : Option ℕ

pub record ModelAttestation : Type 0 where
  pub model_id : String
  pub attester_id : String
  pub hash : String
  pub timestamp : ℕ
  pub valid : Bool
  pub evidence : String

pub record Registry : Type 0 where
  pub models : Assoc ModelEntry
  pub attestations : Assoc (List ModelAttestation)
  pub by_hash : Assoc String

-- `New`
abbrev pub new_registry : Registry
new_registry = record { models = []; attestations = []; by_hash = [] }

pub data Error : Type 0 where
  required bad_hash name_too_long hash_exists model_not_found model_not_active : Error
  -- the draws of ids given ran out; the code draws on
  no_fresh_id : Error

pub record Library : Type 0 where
  pub byte_len : String → ℕ
  pub to_lower : String → String
  pub has_prefix : String → String → Bool

-- `^[a-f0-9]{64}$`
abbrev pub hex_digit : ℕ → Bool
hex_digit c = (leb b'a' c && leb c b'f') || (leb b'0' c && leb c b'9')

unfoldable pub hex_run : ℕ → String → Bool
hex_run n String.[] = n == 0
hex_run zero (String.◌∷◌ c s) = false
hex_run (suc n) (String.◌∷◌ c s) = hex_digit (code c) && hex_run n s

abbrev pub is_hex_hash : String → Bool
is_hex_hash hash = hex_run 64 hash

-- The loop that draws an id until it is not a model's.
unfoldable pub fresh_id : Assoc ModelEntry → List String → Option String
fresh_id models [] = none
fresh_id models (id ∷ draws) =
    let rest = fresh_id models draws in elim (lookup id models) [ none ↦ some id | some _ ↦ rest ]

-- schema[0] and schema[1], if given.
abbrev pub first_schema : List String → String
first_schema [] = ""
first_schema (s ∷ _) = s

abbrev pub second_schema : List String → String
second_schema [] = ""
second_schema (_ ∷ rest) = first_schema rest

abbrev pub new_entry : String → String → String → String → String → List String → ℕ → ModelEntry
new_entry id name owner hash cid schema now = record {
  id = id;
  name = name;
  hash = hash;
  owner = owner;
  version = record { major = 0; minor = 0; patch = 0 };
  ipfs_cid = cid;
  input_schema = first_schema schema;
  output_schema = second_schema schema;
  registered_at = now;
  updated_at = now;
  status = active;
  attestation_count = 0;
  last_attestation_at = none;
}

-- What Register does with the id drawn.
abbrev pub store :
    String
    → String
    → String
    → String
    → List String
    → ℕ
    → Registry
    → Option String
    → Outcome Error ModelEntry × Registry
store name owner hash cid schema now r none = (err no_fresh_id, r)
store name owner hash cid schema now r (some id) = (
  ok (new_entry id name owner hash cid schema now),
  record r {
    models = insert id (new_entry id name owner hash cid schema now) r.models;
    by_hash = insert hash id r.by_hash;
  },
)

abbrev pub store_new :
    String
    → String
    → String
    → String
    → List String
    → List String
    → ℕ
    → Registry
    → Option String
    → Outcome Error ModelEntry × Registry
store_new name owner hash cid schema draws now r (some _) = (err hash_exists, r)
store_new name owner hash cid schema draws now r none =
    store name owner hash cid schema now r (fresh_id r.models draws)

-- `Register`
unfoldable pub register :
    Library
    → String
    → String
    → String
    → String
    → List String
    → List String
    → ℕ
    → Registry
    → Outcome Error ModelEntry × Registry
register lib name owner hash cid schema draws now r =
    if str_eq name "" || str_eq owner "" || str_eq hash ""
    then (err required, r)
    else (if not (is_hex_hash hash)
        then (err bad_hash, r)
        else (if ltb 256 (lib.byte_len name)
            then (err name_too_long, r)
            else store_new name owner hash cid schema draws now r (lookup hash r.by_hash)))

-- `Get` and `GetByHash`
abbrev pub get : String → Registry → Option ModelEntry
get id r = lookup id r.models

abbrev pub entry_of : Option String → Registry → Option ModelEntry
entry_of none r = none
entry_of (some id) r = lookup id r.models

abbrev pub get_by_hash : String → Registry → Option ModelEntry
get_by_hash hash r = entry_of (lookup hash r.by_hash) r

-- `ListAttestations`; a missing key is an empty slice.
abbrev pub or_empty : Option (List ModelAttestation) → List ModelAttestation
or_empty none = []
or_empty (some xs) = xs

abbrev pub list_attestations : String → Registry → List ModelAttestation
list_attestations id r = or_empty (lookup id r.attestations)

abbrev pub attestation : String → String → String → ModelEntry → ℕ → ModelAttestation
attestation id attester evidence m now = record {
  model_id = id;
  attester_id = attester;
  hash = m.hash;
  timestamp = now;
  valid = true;
  evidence = evidence;
}

abbrev pub attested : ℕ → ModelEntry → ModelEntry
attested now m = record m {
  attestation_count = suc m.attestation_count;
  last_attestation_at = some now;
  updated_at = now;
}

abbrev pub attest_found :
    String
    → String
    → String
    → ℕ
    → Registry
    → Option ModelEntry
    → Outcome Error ModelAttestation × Registry
attest_found id attester evidence now r none = (err model_not_found, r)
attest_found id attester evidence now r (some m) =
    if is_active m.status
    then (
      ok (attestation id attester evidence m now),
      record r {
        models = insert id (attested now m) r.models;
        attestations =
            insert id (list_attestations id r ++ attestation id attester evidence m now ∷ [])
              r.attestations;
      },
    )
    else (err model_not_active, r)

-- `Attest`
unfoldable pub attest :
    String → String → String → ℕ → Registry → Outcome Error ModelAttestation × Registry
attest id attester evidence now r = attest_found id attester evidence now r (lookup id r.models)

abbrev pub with_status : ModelStatus → ℕ → ModelEntry → ModelEntry
with_status status now m = record m { status = status; updated_at = now }

abbrev pub set_found :
    String → ModelStatus → ℕ → Registry → Option ModelEntry → Option Error × Registry
set_found id status now r none = (some model_not_found, r)
set_found id status now r (some m) =
    (none, record r { models = insert id (with_status status now m) r.models })

-- `setStatus`, `Deprecate` and `Revoke`
unfoldable pub set_status : String → ModelStatus → ℕ → Registry → Option Error × Registry
set_status id status now r = set_found id status now r (lookup id r.models)

abbrev pub deprecate : String → ℕ → Registry → Option Error × Registry
deprecate id now r = set_status id deprecated now r

abbrev pub revoke : String → ℕ → Registry → Option Error × Registry
revoke id now r = set_status id revoked now r

abbrev pub has_hash : Option ModelEntry → String → Bool
has_hash none candidate = false
has_hash (some m) candidate = str_eq m.hash candidate

-- `VerifyIntegrity`
unfoldable pub verify_integrity : String → String → Registry → Bool
verify_integrity id candidate r = has_hash (lookup id r.models) candidate

-- `ListByOwner`
abbrev pub list_by_owner : String → Registry → List ModelEntry
list_by_owner owner r = select (λ m. str_eq m.owner owner) (values r.models)

abbrev pub by_name : ModelEntry → ModelEntry → Bool
by_name a b = str_ltb a.name b.name

abbrev pub matching : Library → String → ModelEntry → Bool
matching lib q m = lib.has_prefix (lib.to_lower m.name) q || lib.has_prefix m.hash q

-- `Search`; sort.Slice may order equal names otherwise.
unfoldable pub search_models : Library → String → Registry → List ModelEntry
search_models lib query r =
    sort by_name (select (matching lib (lib.to_lower query)) (values r.models))

-- The values of `Stats`; a status that no model has is absent from the code's map.
pub record Stats : Type 0 where
  pub total_models : ℕ
  pub total_attestations : ℕ
  pub active_models : ℕ
  pub deprecated_models : ℕ
  pub revoked_models : ℕ

abbrev pub total_length : List (List ModelAttestation) → ℕ
total_length [] = 0
total_length (xs ∷ rest) = length xs + total_length rest

-- `Stats`
unfoldable pub stats : Registry → Stats
stats r = record {
  total_models = length r.models;
  total_attestations = total_length (values r.attestations);
  active_models = count (λ m. is_active m.status) (values r.models);
  deprecated_models = count (λ m. is_deprecated m.status) (values r.models);
  revoked_models = count (λ m. is_revoked m.status) (values r.models);
}
