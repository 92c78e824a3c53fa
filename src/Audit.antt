-- ===== src/Audit.antt =====
-- engine/internal/decision/audit.go: audit records, and the in-memory sink that retains the last of
-- them. The clock, the JSON encoder and Go's `strings` and rune functions are inputs; a text that
-- may be redacted is kept or replaced by the first 16 digits of its hash.
pub mod Ring
pub mod Lineage
pub mod Redaction
use mathlib.Core.Option
use mathlib.Core.List.{reverse}
use casper_prover.Prelude.{
  ℕ, zero, suc, ◌+◌, String, Bool, true, false, ◌||◌, Option, none, some, List, [], ◌∷◌, ◌++◌, map,
  ltb, leb, str_eq, if◌then◌else◌, length, take, any, ℤ, pos, negsuc,
}
use casper_prover.Prelude.Assoc.{Assoc, lookup, insert, delete}
use casper_prover.Hex.{bytes_eq, encode}
use casper_prover.Merkle.Digest.{Sha256}

-- `Verdict` of the audit package: a label.
abbrev pub Label : Type 0
Label = String

pub data Metadatum : Type 0 where
  kept : String → Metadatum
  redacted : List ℕ → Metadatum

pub record Record : Type 0 where
  pub id : String
  pub timestamp : ℕ
  pub agent_id : String
  pub model_id : String
  pub model_version : String
  pub request_hash : List ℕ
  pub response_hash : List ℕ
  pub input_bytes : ℕ
  pub output_bytes : ℕ
  pub verdict : Label
  pub risk_tier : String
  pub policy_id : String
  pub metadata : Assoc Metadatum
  -- the runes of the preview
  pub trace_preview : List ℕ
  pub preview_opt_in : Bool
  pub parent_record_id : String
  pub chain_root_hash : List ℕ

pub data Error : Type 0 where
  duplicate_id : String → Error

-- `InMemorySink`
pub record Sink : Type 0 where
  pub records : Assoc Record
  pub order : List String
  pub max : ℕ

-- `NewInMemorySink`
abbrev pub new_sink : ℤ → Sink
new_sink (pos (suc n)) = record { records = []; order = []; max = suc n }
new_sink _ = record { records = []; order = []; max = 4096 }

-- `Append` once the record is stored and its id is in `order`: the eviction.
abbrev pub evict : Assoc Record → List String → ℕ → Sink
evict records [] max = record { records = records; order = []; max = max }
evict records (oldest ∷ order) max =
    if ltb max (length (oldest ∷ order))
    then record { records = delete oldest records; order = order; max = max }
    else record { records = records; order = oldest ∷ order; max = max }

-- `Append`: the error, and the sink after the call.
unfoldable pub append : Record → Sink → Option Error × Sink
append rec s = elim (lookup rec.id s.records) [
  | some _ ↦ (some (duplicate_id rec.id), s)
  | none ↦ (none, evict (insert rec.id rec s.records) (s.order ++ rec.id ∷ []) s.max)
]

-- `Get`
abbrev pub get : String → Sink → Option Record
get id s = lookup id s.records

-- The loop of `Lineage`, with the steps left, the cursor and the chain so far.
unfoldable pub walk : Assoc Record → ℕ → String → List Record → List Record
walk records zero cursor chain = chain
walk records (suc left) cursor chain =
    if str_eq cursor "" then chain else (elim (lookup cursor records) [
      | none ↦ chain
      | some r ↦ walk records left r.parent_record_id (r ∷ chain)
    ])

abbrev pub depth : ℤ → ℕ
depth (pos (suc n)) = suc n
depth _ = 32

-- `Lineage`
unfoldable pub lineage : String → ℤ → Sink → List Record
unfolding walk
lineage id max_depth s = walk s.records (depth max_depth) id []

abbrev pub zero_record : Record
zero_record = record {
  id = "";
  timestamp = 0;
  agent_id = "";
  model_id = "";
  model_version = "";
  request_hash = [];
  response_hash = [];
  input_bytes = 0;
  output_bytes = 0;
  verdict = "";
  risk_tier = "";
  policy_id = "";
  metadata = [];
  trace_preview = [];
  preview_opt_in = false;
  parent_record_id = "";
  chain_root_hash = [];
}

abbrev pub capped : ℤ → ℕ → ℕ
capped (pos (suc n)) size = if ltb size (suc n) then size else suc n
capped _ size = size

-- `Recent`: newest first, with the zero record for an id that the map does not hold.
unfoldable pub recent : ℤ → Sink → List Record
recent limit s =
    map (λ id. Option.get_or (lookup id s.records) zero_record)
      (take (capped limit (length s.order)) (reverse s.order))

-- `defaultRedactedKeys`
abbrev pub redacted_keys : List String
redacted_keys =
    "api_key" ∷ "authorization" ∷ "cookie" ∷ "password" ∷ "secret" ∷ "token" ∷ "pii" ∷ "email"
    ∷ "phone" ∷ "ssn" ∷ []

-- The library functions that the package calls.
pub record Library : Type 0 where
  pub sha : Sha256
  -- strings.ToLower, and strings.Contains(s, sub)
  pub lower : String → String
  pub contains : String → String → Bool
  -- the bytes of a string, and the runes of a text of bytes
  pub bytes : String → List ℕ
  pub runes : List ℕ → List ℕ
  -- json.Marshal
  pub marshal : Record → List ℕ

module _ (lib : Library) where
  abbrev pub sha256_hex : List ℕ → List ℕ
  sha256_hex bs = encode (lib.sha.sum bs)

  -- `truncateRunes` on the runes of a text; 8230 is the ellipsis.
  abbrev pub truncate_runes : List ℕ → ℕ → List ℕ
  truncate_runes r n = if leb (length r) n then r else take n r ++ 8230 ∷ []

  -- Whether a key is on the list, or its lower case contains one that is.
  abbrev pub is_sensitive : String → Bool
  is_sensitive k =
      any (str_eq (lib.lower k)) redacted_keys || any (lib.contains (lib.lower k)) redacted_keys

  abbrev pub redact_value : String → String → Metadatum
  redact_value k v =
      if is_sensitive k then redacted (take 16 (sha256_hex (lib.bytes v))) else kept v

  -- `redactMetadata`
  unfoldable pub redact_metadata : Assoc String → Assoc Metadatum
  redact_metadata [] = []
  redact_metadata ((k, v) ∷ rest) = (k, redact_value k v) ∷ redact_metadata rest

  -- `chainRoot`
  unfoldable pub chain_root : Record → List ℕ
  chain_root r = sha256_hex (lib.marshal (record r { chain_root_hash = [] }))

  -- `BuildRecord`, at the clock's `now`.
  unfoldable pub build_record :
      String
      → String
      → String
      → String
      → List ℕ
      → List ℕ
      → Assoc String
      → Label
      → String
      → String
      → String
      → Bool
      → ℕ
      → Record
  unfolding redact_metadata
  build_record id agent model model_version raw_request raw_response metadata verdict risk_tier
        policy_id parent_id preview_opt_in now =
      let rec : Record = record {
        id = id;
        timestamp = now;
        agent_id = agent;
        model_id = model;
        model_version = model_version;
        request_hash = sha256_hex raw_request;
        response_hash = sha256_hex raw_response;
        input_bytes = length raw_request;
        output_bytes = length raw_response;
        verdict = verdict;
        risk_tier = risk_tier;
        policy_id = policy_id;
        metadata = redact_metadata metadata;
        trace_preview = if preview_opt_in then truncate_runes (lib.runes raw_request) 128 else [];
        preview_opt_in = preview_opt_in;
        parent_record_id = parent_id;
        chain_root_hash = [];
      } in
      record rec { chain_root_hash = chain_root rec }

  -- `VerifyRecord`
  unfoldable pub verify_record : Record → Bool
  unfolding chain_root
  verify_record r = bytes_eq (chain_root r) r.chain_root_hash
