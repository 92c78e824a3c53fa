-- ===== src/Idempotency/Bounded.antt =====
-- engine/internal/api/idempotency.go: the cap on the number of stored responses.
use casper_prover.Prelude.{
  ℕ, ◌+◌, ◌≤◌, ◌<◌, String, true, false, ◌||◌, not, Option, none, some, List, [], ◌∷◌, ◌≡◌, refl,
  inl, inr, ltb, leb, str_eq, if◌then◌else◌, length, All, held, Bool-cases, arith,
}
use casper_prover.Prelude.Assoc.{keys, lookup, insert, delete}
use casper_prover.Prelude.Entries.{All-insert, All-delete, Known, All-Known-keys}
use casper_prover.Merkle.Digest.{Sha256}
use casper_prover.Idempotency.{
  Store, Entry, Request, Response, is_mutating, max_entries, sweep, oldest, evict_key, evict_oldest,
  with_body, enter, is_success, entry_of, leave,
}

length-insert :
    (k : String) (e : Entry) (items : Store) → length (insert k e items) ≤ length items + 1
unfolding insert
length-insert k e [] = omega arith
length-insert k e ((j, x) ∷ items) = ground (arith, length-insert k e items)

length-delete : (k : String) (items : Store) → length (delete k items) ≤ length items
unfolding delete
length-delete k [] = omega arith
length-delete k ((j, x) ∷ items) = ground (arith, length-delete k items)

length-delete-lt :
    (k : String) (items : Store)
    → held (lookup k items) ≡ true
    → length (delete k items) < length items
unfolding delete lookup
length-delete-lt k [] h = cc
length-delete-lt k ((j, x) ∷ items) h =
    ground (arith, length-delete k items, length-delete-lt k items)

length-sweep : (now : ℕ) (items : Store) → length (sweep now items) ≤ length items
unfolding sweep
length-sweep now [] = omega arith
length-sweep now ((k, e) ∷ items) = ground (arith, length-sweep now items)

-- The store as its methods leave it: within the cap, and no entry under the empty key.
abbrev NamedKey : String × Entry → Type 0
NamedKey e = str_eq e.0 "" ≡ false

pub record IsBounded (items : Store) : Type 0 where
  pub size : length items ≤ max_entries
  pub named : All NamedKey items

sweep-named : (now : ℕ) (items : Store) → All NamedKey items → All NamedKey (sweep now items)
unfolding sweep
sweep-named now [] h = tt
sweep-named now ((k, e) ∷ items) (q, h) = elim (Bool-cases (ltb e.expires_at now)) [
  | inl x ↦ rw x (sweep-named now items h)
  | inr x ↦ rw x (q, sweep-named now items h)
]

abbrev Holds : (String → Type 0) → Option (String × ℕ) → Type 0
Holds P none = Unit
Holds P (some (k, _)) = P k

oldest-Holds :
    (P : String → Type 0) (best : Option (String × ℕ)) (items : Store)
    → Holds P best
    → All (λ (e : String × Entry). P e.0) items
    → Holds P (oldest best items)
unfolding oldest
oldest-Holds P best [] b h = b
oldest-Holds P none ((k, e) ∷ items) b (q, h) = oldest-Holds P (some (k, e.expires_at)) items q h
oldest-Holds P (some (key, time)) ((k, e) ∷ items) b (q, h) =
    elim (Bool-cases (ltb e.expires_at time)) [
      | inl x ↦ rw x (oldest-Holds P (some (k, e.expires_at)) items q h)
      | inr x ↦ rw x (oldest-Holds P (some (key, time)) items b h)
    ]

oldest-held : (b : String × ℕ) (items : Store) → held (oldest (some b) items) ≡ true
unfolding oldest
oldest-held b [] = refl
oldest-held (key, time) ((k, e) ∷ items) =
    oldest-held
      (
        if ltb e.expires_at time then k else key,
        if ltb e.expires_at time then e.expires_at else time,
      )
      items

fit_entries :
    (m items : Store)
    → All (Known m) (keys items)
    → All NamedKey items
    → All (λ (e : String × Entry). Known m e.0 × (str_eq e.0 "" ≡ false)) items
fit_entries m [] h g = tt
fit_entries m ((k, e) ∷ items) (q, h) (p, g) = ((q, p), fit_entries m items h g)

evict_key-lt :
    (o : Option (String × ℕ)) (items : Store)
    → held o ≡ true
    → Holds (λ k. Known items k × (str_eq k "" ≡ false)) o
    → length (evict_key o items) < length items
evict_key-lt none items h k = cc
evict_key-lt (some (key, time)) items h (known, named) = rw named (length-delete-lt key items known)

-- A store that is not empty loses an entry.
evict_oldest-lt :
    (items : Store)
    → 0 < length items
    → All NamedKey items
    → length (evict_oldest items) < length items
unfolding evict_oldest oldest
evict_oldest-lt [] h n = absurd (omega arith)
evict_oldest-lt ((k, e) ∷ items) h n =
    let m = (k, e) ∷ items in
    evict_key-lt (oldest none m) m (oldest-held (k, e.expires_at) items) (
      oldest-Holds (λ x. Known m x × (str_eq x "" ≡ false)) none m tt
        (fit_entries m m (All-Known-keys m) n))

evict_key-named :
    (o : Option (String × ℕ)) (items : Store)
    → All NamedKey items
    → All NamedKey (evict_key o items)
evict_key-named none items h = h
evict_key-named (some (k, t)) items h = elim (Bool-cases (str_eq k "")) [
  | inl x ↦ rw x h
  | inr x ↦ rw x (All-delete NamedKey k items h)
]

abbrev room : Store → Store
room items = if leb max_entries (length items) then evict_oldest items else items

room-lt : (items : Store) → IsBounded items → length (room items) < max_entries
room-lt items v = elim (Bool-cases (leb max_entries (length items))) [
  | inl full ↦ rw full (fits full)
  | inr free ↦ rw free (ground arith)
]
  where
    fits : leb max_entries (length items) ≡ true → length (evict_oldest items) < max_entries
    fits full =
        let lt = evict_oldest-lt items (ground arith) v.named in let size = v.size in omega arith

room-named : (items : Store) → All NamedKey items → All NamedKey (room items)
unfolding evict_oldest
room-named items h = elim (Bool-cases (leb max_entries (length items))) [
  | inl full ↦ rw full (evict_key-named (oldest none items) items h)
  | inr free ↦ rw free h
]

pub leave-IsBounded :
    (now : ℕ) (key : String) (hash : List ℕ) (resp : Response) (items : Store)
    → str_eq key "" ≡ false
    → IsBounded items
    → IsBounded (leave now key hash resp items)
unfolding leave
leave-IsBounded now key hash resp items named v = elim (Bool-cases (is_success resp.status)) [
  | inr x ↦ rw x v
  | inl x ↦
      let e = entry_of now hash resp in
      rw x (record {
        size = omega (arith, length-insert key e (room items), room-lt items v);
        named = All-insert NamedKey key e (room items) named (room-named items v.named);
      })
]

pub enter-IsBounded :
    (sha : Sha256) (text : String → List ℕ) (now : ℕ) (r : Request) (items : Store)
    → IsBounded items
    → IsBounded (enter sha text now r items).1
unfolding enter
enter-IsBounded sha text now r items v =
    elim (Bool-cases (not (is_mutating r.method) || str_eq r.key "")) [
      | inl x ↦ rw x v
      | inr x ↦ rw x (bodied r.body)
    ]
  where
    bodied : (o : Option (List ℕ)) → IsBounded (with_body sha text now r o items).1
    bodied none = v
    bodied (some body) = record {
      size = let size = v.size in omega (arith, length-sweep now items);
      named = sweep-named now items v.named;
    }
