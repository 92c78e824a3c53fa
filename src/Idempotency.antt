-- ===== src/Idempotency.antt =====
-- engine/internal/api/idempotency.go: the middleware that answers a repeated mutating request from a
-- cache. The store is locked twice, before the handler runs and after, so a request is two steps with
-- other requests' steps between. The clock in milliseconds, the handler's response and SHA-256 are
-- inputs; a body that cannot be read is none.
pub mod Bounded
pub mod System
pub mod Replay
use casper_prover.Prelude.{
  ℕ, zero, suc, ◌+◌, ◌*◌, String, Bool, true, false, ◌&&◌, ◌||◌, not, Option, none, some, List, [],
  ◌∷◌, ◌++◌, ltb, leb, str_eq, if◌then◌else◌, length, among,
}
use casper_prover.Prelude.Assoc.{Assoc, lookup, insert, delete}
use casper_prover.Hex.{bytes_eq, encode}
use casper_prover.Merkle.Digest.{Sha256}

-- `idempotencyTTL` and `idempotencyMax`
abbrev pub ttl : ℕ
ttl = 15 * 60 * 1000

abbrev pub max_entries : ℕ
max_entries = 4096

pub record Response : Type 0 where
  pub status : ℕ
  pub body : List ℕ
  pub content_type : String

pub record Entry : Type 0 where
  pub response : Response
  pub request_hash : List ℕ
  pub expires_at : ℕ

abbrev pub Store : Type 0
Store = Assoc Entry

-- What the middleware reads of a request; `other` is all else, such as the query and the caller.
pub record Request : Type 0 where
  pub method : String
  pub path : List ℕ
  pub key : String
  pub body : Option (List ℕ)
  pub other : String

-- `isMutating`
abbrev pub is_mutating : String → Bool
is_mutating m = among ("POST" ∷ "PUT" ∷ "PATCH" ∷ "DELETE" ∷ []) m

-- What the first step makes of a request: the handler runs, and its response may be stored or not, or
-- there is an answer without it.
pub data Decision : Type 0 where
  passthrough bad_body conflict : Decision
  replay : Response → Decision
  handle : List ℕ → Decision

-- `sweepExpiredLocked`
unfoldable pub sweep : ℕ → Store → Store
sweep now [] = []
sweep now ((k, e) ∷ items) =
    let rest = sweep now items in if ltb e.expires_at now then rest else (k, e) ∷ rest

-- The loop of `evictOldestLocked`: the oldest entry so far, if any.
unfoldable pub oldest : Option (String × ℕ) → Store → Option (String × ℕ)
oldest best [] = best
oldest none ((k, e) ∷ items) = oldest (some (k, e.expires_at)) items
oldest (some (key, time)) ((k, e) ∷ items) =
    oldest
      (some (
        if ltb e.expires_at time then k else key,
        if ltb e.expires_at time then e.expires_at else time,
      ))
      items

abbrev pub evict_key : Option (String × ℕ) → Store → Store
evict_key none items = items
evict_key (some (k, _)) items = if str_eq k "" then items else delete k items

-- `evictOldestLocked`
unfoldable pub evict_oldest : Store → Store
unfolding oldest
evict_oldest items = evict_key (oldest none items) items

module _ (sha : Sha256) (text : String → List ℕ) where
  -- `hashReq`
  abbrev pub hash_req : String → List ℕ → List ℕ → List ℕ
  hash_req method path body = encode (sha.sum (text method ++ (0 ∷ path ++ (0 ∷ body))))

  abbrev pub answer : List ℕ → Option Entry → Decision
  answer hash none = handle hash
  answer hash (some e) = if bytes_eq e.request_hash hash then replay e.response else conflict

  abbrev pub with_body : ℕ → Request → Option (List ℕ) → Store → Decision × Store
  with_body now r none items = (bad_body, items)
  with_body now r (some body) items =
      (answer (hash_req r.method r.path body) (lookup r.key (sweep now items)), sweep now items)

  -- The middleware up to the call of the handler.
  unfoldable pub enter : ℕ → Request → Store → Decision × Store
  enter now r items =
      if not (is_mutating r.method) || str_eq r.key ""
      then (passthrough, items)
      else with_body now r r.body items

-- buf.status >= 200 && buf.status < 300
abbrev pub is_success : ℕ → Bool
is_success status = leb 200 status && ltb status 300

-- The entry that the second step stores.
abbrev pub entry_of : ℕ → List ℕ → Response → Entry
entry_of now hash resp = record { response = resp; request_hash = hash; expires_at = now + ttl }

-- The middleware after the handler has answered a request whose hash is `hash`.
unfoldable pub leave : ℕ → String → List ℕ → Response → Store → Store
unfolding evict_oldest
leave now key hash resp items =
    if is_success resp.status
    then insert key (entry_of now hash resp)
        (if leb max_entries (length items) then evict_oldest items else items)
    else items
