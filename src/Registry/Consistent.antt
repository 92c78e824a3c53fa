-- ===== src/Registry/Consistent.antt =====
-- engine/internal/model/registry.go: the three maps of the registry agree after any calls.
use casper_prover.Prelude.{
  ℕ, String, false, ◌||◌, Option, none, some, List, [], ◌∷◌, ◌++◌, ◌≡◌, refl, sym, ◌∙◌, ap, inl,
  inr, str_eq, eq_iff, length, length-append, Bool-cases, Option-cases, arith, ltb,
}
use casper_prover.Prelude.Assoc.{Assoc, lookup, insert}
use casper_prover.Prelude.Entries.{lookup-insert_cases, lookup-insert_self, lookup-insert_other}
use casper_prover.Registry.{
  ModelStatus, ModelEntry, ModelAttestation, Registry, new_registry, Library, is_active,
  is_hex_hash, fresh_id, new_entry, store_new, register, or_empty, list_attestations, attestation,
  attested, attest_found, attest, with_status, set_found, set_status,
}

pub record IsConsistent (r : Registry) : Type 0 where
  -- a model stands under its id, and its hash leads to that id
  pub named : (id : String) (m : ModelEntry) → lookup id r.models ≡ some m → m.id ≡ id
  pub hash_leads :
      (id : String) (m : ModelEntry)
      → lookup id r.models ≡ some m
      → lookup m.hash r.by_hash ≡ some id
  -- a hash leads to a model with it
  pub hash_found :
      (hash id : String)
      → lookup hash r.by_hash ≡ some id
      → (m : ModelEntry) × (lookup id r.models ≡ some m) × (m.hash ≡ hash)
  -- a model's count is that of its attestations, and nothing else is attested
  pub counted :
      (id : String) (m : ModelEntry)
      → lookup id r.models ≡ some m
      → m.attestation_count ≡ length (list_attestations id r)
  pub unknown : (id : String) → lookup id r.models ≡ none → list_attestations id r ≡ []

pub new_registry-IsConsistent : IsConsistent new_registry
unfolding lookup
new_registry-IsConsistent = record {
  named = λ id m h. cc;
  hash_leads = λ id m h. cc;
  hash_found = λ hash id h. absurd (none-ne-some h);
  counted = λ id m h. cc;
  unknown = λ id h. refl;
}
  where
    none-ne-some : {s : String} → ◌≡◌ {A = Option String} none (some s) → ⊥
    none-ne-some h = cc

pub fresh_id-none :
    (models : Assoc ModelEntry) (draws : List String) (id : String)
    → fresh_id models draws ≡ some id
    → lookup id models ≡ none
unfolding fresh_id
fresh_id-none models [] id h = cc
fresh_id-none models (d ∷ draws) id h = elim (Option-cases (lookup d models)) [
  | inl e ↦ let same : d ≡ id = ground arith in rw (← same) e
  | inr (m, e) ↦ fresh_id-none models draws id (ground arith)
]

pub some-ne-none {ℓ} : {A : Type ℓ} {a : A} {o : Option A} → o ≡ some a → o ≡ none → ⊥
some-ne-none h g = cc

module _ (id name owner hash cid : String) (schema : List String) (now : ℕ) (r : Registry)
    (v : IsConsistent r) (new : lookup id r.models ≡ none)
    (unused : lookup hash r.by_hash ≡ none) where
  abbrev entry : ModelEntry
  entry = new_entry id name owner hash cid schema now

  abbrev stored : Registry
  stored = record r { models = insert id entry r.models; by_hash = insert hash id r.by_hash }

  -- No other model has the hash.
  other_hash :
      (j : String) (m : ModelEntry) → lookup j r.models ≡ some m → str_eq hash m.hash ≡ false
  other_hash j m h = elim (Bool-cases (str_eq hash m.hash)) [
    | inl e ↦
        let same : hash ≡ m.hash = (eq_iff hash m.hash).0 e in
        absurd (some-ne-none (rw (← same) at (v.hash_leads j m h)) unused)
    | inr e ↦ e
  ]

  store-IsConsistent : IsConsistent stored
  store-IsConsistent = record {
    named = λ j m h. elim (lookup-insert_cases id j entry r.models h) [
      | inl (same, e) ↦ rw (← e) same
      | inr (other, e) ↦ v.named j m e
    ];
    hash_leads = λ j m h. elim (lookup-insert_cases id j entry r.models h) [
      | inl (same, e) ↦ rw (← e, ← same) (lookup-insert_self hash id r.by_hash)
      | inr (other, e) ↦
          lookup-insert_other hash m.hash id r.by_hash (other_hash j m e) ∙ v.hash_leads j m e
    ];
    hash_found = λ x j h. elim (lookup-insert_cases hash x id r.by_hash h) [
      | inl (same, e) ↦ rw (← e, ← same) (entry, lookup-insert_self id entry r.models, refl)
      | inr (other, e) ↦
          let (m, found, has) = v.hash_found x j e in
          (
            m,
            lookup-insert_other id j entry r.models (elim (Bool-cases (str_eq id j)) [
              | inl same ↦
                  let q : id ≡ j = (eq_iff id j).0 same in
                  absurd (some-ne-none (rw (← q) at found) new)
              | inr differs ↦ differs
            ])
                ∙ found,
            has,
          )
    ];
    counted = λ j m h. elim (lookup-insert_cases id j entry r.models h) [
      | inl (same, e) ↦
          rw (← e, ← same) (sym (ap (length {A = ModelAttestation}) (v.unknown id new)))
      | inr (other, e) ↦ v.counted j m e
    ];
    unknown = λ j h. elim (Bool-cases (str_eq id j)) [
      | inl same ↦
          let q : id ≡ j = (eq_iff id j).0 same in
          absurd (some-ne-none (lookup-insert_self id entry r.models) (rw (← q) at h))
      | inr other ↦ v.unknown j (sym (lookup-insert_other id j entry r.models other) ∙ h)
    ];
  }

-- A change of a known model that keeps its id and its hash; `list` is what is stored as its
-- attestations, if they change.
module _ (id : String) (old new : ModelEntry) (r : Registry) (v : IsConsistent r)
    (known : lookup id r.models ≡ some old) (same_id : new.id ≡ old.id)
    (same_hash : new.hash ≡ old.hash) where
  abbrev changed : Assoc (List ModelAttestation) → Registry
  changed attestations = record r { models = insert id new r.models; attestations = attestations }

  changed-IsConsistent :
      (attestations : Assoc (List ModelAttestation))
      → new.attestation_count ≡ length (or_empty (lookup id attestations))
      → ((j : String) → str_eq id j ≡ false → lookup j attestations ≡ lookup j r.attestations)
      → IsConsistent (changed attestations)
  changed-IsConsistent attestations counts others = record {
    named = λ j m h. elim (lookup-insert_cases id j new r.models h) [
      | inl (same, e) ↦ rw (← e, ← same) (same_id ∙ v.named id old known)
      | inr (other, e) ↦ v.named j m e
    ];
    hash_leads = λ j m h. elim (lookup-insert_cases id j new r.models h) [
      | inl (same, e) ↦ rw (← e, ← same) (rw same_hash (v.hash_leads id old known))
      | inr (other, e) ↦ v.hash_leads j m e
    ];
    hash_found = λ x j h.
        let (m, found, has) = v.hash_found x j h in
        elim (Bool-cases (str_eq id j)) [
          | inl same ↦
              let q : id ≡ j = (eq_iff id j).0 same in
              let was : old ≡ m = some_injective (sym known ∙ rw (← q) at found) in
              (new, rw (← q) (lookup-insert_self id new r.models), same_hash ∙ rw (← was) at has)
          | inr other ↦ (m, lookup-insert_other id j new r.models other ∙ found, has)
        ];
    counted = λ j m h. elim (lookup-insert_cases id j new r.models h) [
      | inl (same, e) ↦ rw (← e, ← same) counts
      | inr (other, e) ↦ rw (others j other) (v.counted j m e)
    ];
    unknown = λ j h. elim (Bool-cases (str_eq id j)) [
      | inl same ↦
          let q : id ≡ j = (eq_iff id j).0 same in
          absurd (some-ne-none (lookup-insert_self id new r.models) (rw (← q) at h))
      | inr other ↦
          rw (others j other) (v.unknown j (sym (lookup-insert_other id j new r.models other) ∙ h))
    ];
  }
    where
      some_injective : {x y : ModelEntry} → ◌≡◌ {A = Option ModelEntry} (some x) (some y) → x ≡ y
      some_injective h = cc

pub set_status-IsConsistent :
    (id : String) (status : ModelStatus) (now : ℕ) (r : Registry)
    → IsConsistent r
    → IsConsistent (set_status id status now r).1
unfolding set_status
set_status-IsConsistent id status now r v = elim (Option-cases (lookup id r.models)) [
  | inl e ↦ rw (e, set_found) v
  | inr (m, e) ↦
      rw (e, set_found)
        (changed-IsConsistent id m (with_status status now m) r v e refl refl r.attestations
          (v.counted id m e) (λ j other. refl))
]

attest_active :
    (id attester evidence : String) (now : ℕ) (r : Registry) (m : ModelEntry)
    → IsConsistent r
    → lookup id r.models ≡ some m
    → IsConsistent (attest_found id attester evidence now r (some m)).1
attest_active id attester evidence now r m v e =
    let list = list_attestations id r ++ attestation id attester evidence m now ∷ [] in
    elim (Bool-cases (is_active m.status)) [
      | inl a ↦ rw a (
          changed-IsConsistent id m (attested now m) r v e refl refl (insert id list r.attestations)
            (rw (lookup-insert_self id list r.attestations) (
              omega (
                arith,
                length-append {0} (list_attestations id r)
                    (attestation id attester evidence m now ∷ []),
                v.counted id m e,
              )))
            (λ j other. lookup-insert_other id j list r.attestations other))
      | inr a ↦ rw a v
    ]

pub attest-IsConsistent :
    (id attester evidence : String) (now : ℕ) (r : Registry)
    → IsConsistent r
    → IsConsistent (attest id attester evidence now r).1
unfolding attest
attest-IsConsistent id attester evidence now r v = elim (Option-cases (lookup id r.models)) [
  | inl e ↦ rw (e, attest_found) v
  | inr (m, e) ↦ rw e (attest_active id attester evidence now r m v e)
]

store_new-IsConsistent :
    (name owner hash cid : String) (schema draws : List String) (now : ℕ) (r : Registry)
    (o : Option String)
    → lookup hash r.by_hash ≡ o
    → IsConsistent r
    → IsConsistent (store_new name owner hash cid schema draws now r o).1
store_new-IsConsistent name owner hash cid schema draws now r (some j) e v = v
store_new-IsConsistent name owner hash cid schema draws now r none e v =
    elim (Option-cases (fresh_id r.models draws)) [
      | inl f ↦ rw f v
      | inr (id, f) ↦ rw f (
          store-IsConsistent id name owner hash cid schema now r v
            (fresh_id-none r.models draws id f) e)
    ]

pub register-IsConsistent :
    (lib : Library) (name owner hash cid : String) (schema draws : List String) (now : ℕ)
    (r : Registry)
    → IsConsistent r
    → IsConsistent (register lib name owner hash cid schema draws now r).1
unfolding register
register-IsConsistent lib name owner hash cid schema draws now r v =
    elim (Bool-cases (str_eq name "" || str_eq owner "" || str_eq hash "")) [
      | inl e ↦ rw e v
      | inr e ↦ rw e (elim (Bool-cases (is_hex_hash hash)) [
        | inr f ↦ rw f v
        | inl f ↦ rw f (elim (Bool-cases (ltb 256 (lib.byte_len name))) [
          | inl g ↦ rw g v
          | inr g ↦ rw g (
              store_new-IsConsistent name owner hash cid schema draws now r (lookup hash r.by_hash)
                refl v)
        ])
      ])
    ]
