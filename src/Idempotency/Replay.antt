-- ===== src/Idempotency/Replay.antt =====
-- engine/internal/api/idempotency.go: what a repeated request is answered.
use casper_prover.Prelude.{
  ℕ, ◌+◌, ◌≤◌, String, Bool, true, false, ◌||◌, not, Option, none, some, List, [], ◌∷◌, ◌≡◌, refl,
  ◌∙◌, ap, inl, inr, ltb, leb, str_eq, if◌then◌else◌, length, Bool-cases, arith,
}
use casper_prover.Prelude.Assoc.{lookup}
use casper_prover.Prelude.Entries.{lookup-insert_self}
use casper_prover.Hex.{bytes_eq}
use casper_prover.Merkle.Digest.{Sha256}
use casper_prover.Idempotency.{
  Store, Entry, Request, Response, Decision, replay, conflict, handle, ttl, max_entries,
  is_mutating, sweep, evict_oldest, hash_req, answer, with_body, enter, is_success, entry_of, leave,
}

-- An entry that has not expired is found after the sweep.
lookup-sweep :
    (now : ℕ) (k : String) (e : Entry) (items : Store)
    → lookup k items ≡ some e
    → ltb e.expires_at now ≡ false
    → lookup k (sweep now items) ≡ some e
unfolding lookup sweep
lookup-sweep now k e [] h live = h
lookup-sweep now k e ((j, x) ∷ items) h live = elim (Bool-cases (str_eq j k)) [
  | inl same ↦ let here : x ≡ e = ground arith in ground arith
  | inr other ↦
      let ih = lookup-sweep now k e items (rw other at h) live in
      elim (Bool-cases (ltb x.expires_at now)) [
        | inl old ↦ rw old ih
        | inr fresh ↦ rw fresh (rw other ih)
      ]
]

leave_stores :
    (now : ℕ) (key : String) (hash : List ℕ) (resp : Response) (items : Store)
    → is_success resp.status ≡ true
    → lookup key (leave now key hash resp items) ≡ some (entry_of now hash resp)
unfolding leave
leave_stores now key hash resp items good = rw good (
    lookup-insert_self key (entry_of now hash resp)
      (if leb max_entries (length items) then evict_oldest items else items))

entered :
    (sha : Sha256) (text : String → List ℕ) (now : ℕ) (r : Request) (body : List ℕ) (items : Store)
    → (not (is_mutating r.method) || str_eq r.key "") ≡ false
    → r.body ≡ some body
    → enter sha text now r items ≡ (
      answer sha text (hash_req sha text r.method r.path body) (lookup r.key (sweep now items)),
      sweep now items,
    )
unfolding enter
entered sha text now r body items keyed read =
    rw keyed (ap (λ (o : Option (List ℕ)). with_body sha text now r o items) read)

-- A request with a mutating method, a readable body and the key, not empty, of a response that was
-- stored, no later than its expiry and with no other step between: it is answered with that response
-- if method, path and body hash alike, and else with a conflict. What else the request has does not
-- matter.
pub enter-leave :
    (sha : Sha256) (text : String → List ℕ) (now later : ℕ) (hash : List ℕ) (resp : Response)
    (r : Request) (body : List ℕ) (items : Store)
    → is_success resp.status ≡ true
    → later ≤ now + ttl
    → (not (is_mutating r.method) || str_eq r.key "") ≡ false
    → r.body ≡ some body
    → (enter sha text later r (leave now r.key hash resp items)).0
      ≡ (if bytes_eq hash (hash_req sha text r.method r.path body) then replay resp else conflict)
enter-leave sha text now later hash resp r body items good soon keyed read =
    let stored = leave_stores now r.key hash resp items good in
    let live : ltb (now + ttl) later ≡ false = ground arith in
    let found =
      lookup-sweep later r.key (entry_of now hash resp) (leave now r.key hash resp items) stored
        live in
    ap (λ (x : Decision × Store). x.0)
      (entered sha text later r body (leave now r.key hash resp items) keyed read)
    ∙ ap (answer sha text (hash_req sha text r.method r.path body)) found

lookup-sweep-none :
    (now : ℕ) (k : String) (items : Store)
    → lookup k (sweep now items) ≡ none
    → lookup k (sweep now (sweep now items)) ≡ none
unfolding lookup sweep
lookup-sweep-none now k [] h = refl
lookup-sweep-none now k ((j, x) ∷ items) h = elim (Bool-cases (ltb x.expires_at now)) [
  | inl old ↦ rw old (lookup-sweep-none now k items (rw old at h))
  | inr fresh ↦ rw fresh (
      rw fresh (elim (Bool-cases (str_eq j k)) [
        | inl same ↦ absurd (ground arith)
        | inr other ↦ rw other (lookup-sweep-none now k items (ground arith))
      ]))
]

answer-handle :
    (sha : Sha256) (text : String → List ℕ) (hash : List ℕ) (o : Option Entry)
    → answer sha text hash o ≡ handle hash
    → o ≡ none
answer-handle sha text hash none h = refl
answer-handle sha text hash (some e) h = absurd (never (bytes_eq e.request_hash hash) h)
  where
    never : (b : Bool) → (if b then replay e.response else conflict) ≡ handle hash → ⊥
    never true q = cc
    never false q = cc

-- A request that comes in again before its handler has answered runs the handler a second time.
pub enter-enter :
    (sha : Sha256) (text : String → List ℕ) (now : ℕ) (r : Request) (body : List ℕ) (items : Store)
    → (not (is_mutating r.method) || str_eq r.key "") ≡ false
    → r.body ≡ some body
    → (enter sha text now r items).0 ≡ handle (hash_req sha text r.method r.path body)
    → (enter sha text now r (enter sha text now r items).1).0
      ≡ handle (hash_req sha text r.method r.path body)
enter-enter sha text now r body items keyed read h =
    let hash = hash_req sha text r.method r.path body in
    let first = entered sha text now r body items keyed read in
    let missing = answer-handle sha text hash (lookup r.key (sweep now items)) (rw first at h) in
    rw first (
      ap (λ (x : Decision × Store). x.0) (entered sha text now r body (sweep now items) keyed read)
      ∙ ap (answer sha text hash) (lookup-sweep-none now r.key items missing))
