-- ===== src/Audit/Redaction.antt =====
-- engine/internal/decision/audit.go: what a record shows, and that it checks.
use mathlib.Core.Path.{subst}
use casper_prover.Prelude.{
  ℕ, String, Bool, true, false, some, List, [], ◌∷◌, ◌≡◌, str_eq, eq_iff, Bool-cases, inl, inr, ap,
}
use casper_prover.Prelude.Assoc.{Assoc, lookup}
use casper_prover.Hex.{bytes_eq_refl}
use casper_prover.Audit.{
  Library, kept, Label, is_sensitive, redact_value, redact_metadata, build_record, verify_record,
  chain_root,
}

module _ (lib : Library) where
  kept_value :
      (k v w : String) → redact_value lib k v ≡ kept w → (is_sensitive lib k ≡ false) × (v ≡ w)
  kept_value k v w h = elim (Bool-cases (is_sensitive lib k)) [
    | inl e ↦ cc (rw e at h)
    | inr e ↦ (e, cc (rw e at h))
  ]

  -- A metadata value that a record shows as it was given stands under a key that is not sensitive.
  pub redact_metadata-hides :
      (metadata : Assoc String) (k v : String)
      → lookup k (redact_metadata lib metadata) ≡ some (kept v)
      → (is_sensitive lib k ≡ false) × (lookup k metadata ≡ some v)
  unfolding redact_metadata lookup
  redact_metadata-hides [] k v h = cc
  redact_metadata-hides ((j, w) ∷ rest) k v h = elim (Bool-cases (str_eq j k)) [
    | inr e ↦ rw e (redact_metadata-hides rest k v (rw e at h))
    | inl e ↦
        let (s, q) = kept_value j w v (cc (rw e at h)) in
        (subst (λ i. is_sensitive lib i ≡ false) ((eq_iff j k).0 e) s, rw e (ap some q))
  ]

  -- `VerifyRecord` accepts every record of `BuildRecord`.
  pub verify-build_record :
      (id agent model model_version : String) (raw_request raw_response : List ℕ)
      (metadata : Assoc String) (verdict : Label) (risk_tier policy_id parent_id : String)
      (preview_opt_in : Bool) (now : ℕ)
      → verify_record lib (
          build_record lib id agent model model_version raw_request raw_response metadata verdict
            risk_tier policy_id parent_id preview_opt_in now)
        ≡ true
  unfolding verify_record build_record chain_root
  verify-build_record id agent model model_version raw_request raw_response metadata verdict
        risk_tier policy_id parent_id preview_opt_in now =
      bytes_eq_refl _
