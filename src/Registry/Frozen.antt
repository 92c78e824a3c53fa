-- ===== src/Registry/Frozen.antt =====
-- engine/internal/model/registry.go: what is not active any more is not attested again.
use casper_prover.Prelude.{
  ℕ, String, true, false, ◌||◌, Option, none, some, List, [], ◌∷◌, ◌++◌, ◌≡◌, refl, sym, ◌∙◌, inl,
  inr, str_eq, eq_iff, Bool-cases, Option-cases, ltb, ap,
}
use casper_prover.Prelude.Assoc.{lookup}
use casper_prover.Prelude.Entries.{lookup-insert_self, lookup-insert_other}
use casper_prover.Registry.{
  ModelStatus, deprecated, revoked, ModelEntry, Registry, Library, is_active, is_hex_hash, fresh_id,
  new_entry, store, store_new, register, or_empty, list_attestations, attestation, attested,
  attest_found, attest, with_status, set_found, set_status,
}
use casper_prover.Registry.Consistent.{fresh_id-none, some-ne-none}
use casper_prover.Registry.History.{Call, call, run}

-- The model is there, and is not active.
abbrev pub Inactive : String → Registry → Type 0
Inactive id r = (m : ModelEntry) × (lookup id r.models ≡ some m) × (is_active m.status ≡ false)

abbrev Frozen : String → Registry → Registry → Type 0
Frozen id r after = Inactive id after × (list_attestations id after ≡ list_attestations id r)

module _ (id : String) (r : Registry) (off : Inactive id r) where
  store-Frozen :
      (name owner hash cid : String) (schema : List String) (now : ℕ) (new : String)
      → lookup new r.models ≡ none
      → Frozen id r (store name owner hash cid schema now r (some new)).1
  store-Frozen name owner hash cid schema now new free =
      let (m, found, inactive) = off in
      let other : str_eq new id ≡ false = elim (Bool-cases (str_eq new id)) [
        | inl e ↦
            let same : new ≡ id = (eq_iff new id).0 e in
            absurd (some-ne-none found (rw same at free))
        | inr e ↦ e
      ] in
      (
        (
          m,
          lookup-insert_other new id (new_entry new name owner hash cid schema now) r.models other
              ∙ found,
          inactive,
        ),
        refl,
      )

  store_new-Frozen :
      (name owner hash cid : String) (schema draws : List String) (now : ℕ) (o : Option String)
      → Frozen id r (store_new name owner hash cid schema draws now r o).1
  store_new-Frozen name owner hash cid schema draws now (some j) = (off, refl)
  store_new-Frozen name owner hash cid schema draws now none =
      elim (Option-cases (fresh_id r.models draws)) [
        | inl f ↦ rw f (off, refl)
        | inr (new, f) ↦
            rw f
              (store-Frozen name owner hash cid schema now new (fresh_id-none r.models draws new f))
      ]

  register-Frozen :
      (lib : Library) (name owner hash cid : String) (schema draws : List String) (now : ℕ)
      → Frozen id r (register lib name owner hash cid schema draws now r).1
  unfolding register
  register-Frozen lib name owner hash cid schema draws now =
      elim (Bool-cases (str_eq name "" || str_eq owner "" || str_eq hash "")) [
        | inl e ↦ rw e (off, refl)
        | inr e ↦ rw e (elim (Bool-cases (is_hex_hash hash)) [
          | inr f ↦ rw f (off, refl)
          | inl f ↦ rw f (elim (Bool-cases (ltb 256 (lib.byte_len name))) [
            | inl g ↦ rw g (off, refl)
            | inr g ↦
                rw g (store_new-Frozen name owner hash cid schema draws now (lookup hash r.by_hash))
          ])
        ])
      ]

  attest-Frozen :
      (at_id attester evidence : String) (now : ℕ)
      → Frozen id r (attest at_id attester evidence now r).1
  unfolding attest
  attest-Frozen at_id attester evidence now = elim (Option-cases (lookup at_id r.models)) [
    | inl e ↦ rw (e, attest_found) (off, refl)
    | inr (m, e) ↦ rw e (elim (Bool-cases (is_active m.status)) [
      | inr a ↦ rw a (off, refl)
      | inl a ↦
          let (old, found, inactive) = off in
          let other : str_eq at_id id ≡ false = elim (Bool-cases (str_eq at_id id)) [
            | inl q ↦
                let same : at_id ≡ id = (eq_iff at_id id).0 q in
                let one : m ≡ old = some_injective (sym e ∙ (rw (sym same) at found)) in
                absurd (true-ne-false (sym a ∙ (rw (sym one) at inactive)))
            | inr q ↦ q
          ] in
          rw a (
            (old, lookup-insert_other at_id id (attested now m) r.models other ∙ found, inactive),
            ap or_empty (
                lookup-insert_other at_id id
                  (list_attestations at_id r ++ attestation at_id attester evidence m now ∷ [])
                  r.attestations other),
          )
    ])
  ]
    where
      some_injective : {x y : ModelEntry} → ◌≡◌ {A = Option ModelEntry} (some x) (some y) → x ≡ y
      some_injective h = cc

      true-ne-false : true ≡ false → ⊥
      true-ne-false h = cc

  set_status-Frozen :
      (at_id : String) (status : ModelStatus) (now : ℕ)
      → is_active status ≡ false
      → Frozen id r (set_status at_id status now r).1
  unfolding set_status
  set_status-Frozen at_id status now closed = elim (Option-cases (lookup at_id r.models)) [
    | inl e ↦ rw (e, set_found) (off, refl)
    | inr (m, e) ↦
        rw (e, set_found)
          (elim (Bool-cases (str_eq at_id id)) [
            | inl q ↦
                let same : at_id ≡ id = (eq_iff at_id id).0 q in
                (
                  (
                    with_status status now m,
                    rw same (lookup-insert_self id (with_status status now m) r.models),
                    closed,
                  ),
                  refl,
                )
            | inr q ↦
                let (old, found, inactive) = off in
                (
                  (
                    old,
                    lookup-insert_other at_id id (with_status status now m) r.models q ∙ found,
                    inactive,
                  ),
                  refl,
                )
          ])
  ]

call-Frozen :
    (lib : Library) (id : String) (c : Call) (r : Registry)
    → Inactive id r
    → Frozen id r (call lib c r)
unfolding call
call-Frozen lib id (Call.enrol name owner hash cid schema draws now) r off =
    register-Frozen id r off lib name owner hash cid schema draws now
call-Frozen lib id (Call.testify at_id attester evidence now) r off =
    attest-Frozen id r off at_id attester evidence now
call-Frozen lib id (Call.retire at_id now) r off =
    set_status-Frozen id r off at_id deprecated now refl
call-Frozen lib id (Call.withdraw at_id now) r off =
    set_status-Frozen id r off at_id revoked now refl

-- Once a model is deprecated or revoked, it is never active again whatever is called, and its
-- attestations stay as they are.
pub run-Frozen :
    (lib : Library) (id : String) (calls : List Call) (r : Registry)
    → Inactive id r
    → Inactive id (run lib calls r)
      × (list_attestations id (run lib calls r) ≡ list_attestations id r)
unfolding run
run-Frozen lib id [] r off = (off, refl)
run-Frozen lib id (c ∷ calls) r off =
    let (next, same) = call-Frozen lib id c r off in
    let (end, kept) = run-Frozen lib id calls (call lib c r) next in (end, kept ∙ same)
