-- ===== src/Examples/Models.antt =====
-- Runs of the model registry on small inputs.
use casper_prover.Prelude.{◌≡◌, false, List, [], ◌∷◌, String, some, refl, length}
use casper_prover.Prelude.Assoc.{lookup, insert}
use casper_prover.Registry.{
  Library, ModelEntry, ModelStatus, Registry, new_registry, get, get_by_hash, list_attestations,
  hex_run, fresh_id, register, attest, set_status, new_entry, attested, with_status,
}
use casper_prover.Registry.History.{Call, call, run, run-get_by_hash}
use casper_prover.Registry.Frozen.{Inactive, run-Frozen}

abbrev plain : Library
plain = record { byte_len = λ _. 4; to_lower = λ s. s; has_prefix = λ _ _. false }

abbrev hash_one : String
hash_one = "aaaaaaaaaaaaaaaaaaaaaaaaaaaaaaaa0123456789abcdef0123456789abcdef"

abbrev attested_calls : List Call
attested_calls =
    Call.enrol "risk" "anna" hash_one "cid" [] ("m1" ∷ []) 10 ∷ Call.testify "m1" "bob" "e" 20 ∷ []

abbrev entry : ModelEntry
entry = new_entry "m1" "risk" "anna" hash_one "cid" [] 10

present : get "m1" (run plain attested_calls new_registry) ≡ some (attested 20 entry)
unfolding run call register attest hex_run fresh_id lookup insert
present = refl

run-get_by_hash_example :
    ◌≡◌ {A = String} "m1" "m1"
    × (get_by_hash hash_one (run plain attested_calls new_registry) ≡ some (attested 20 entry))
    × ((attested 20 entry).attestation_count
        ≡ length (list_attestations "m1" (run plain attested_calls new_registry)))
run-get_by_hash_example = run-get_by_hash plain attested_calls "m1" (attested 20 entry) present

abbrev revoked_calls : List Call
revoked_calls =
    Call.enrol "risk" "anna" hash_one "cid" [] ("m1" ∷ []) 10
    ∷ Call.testify "m1" "bob" "e" 20
    ∷ Call.withdraw "m1" 30
    ∷ []

abbrev off_registry : Registry
off_registry = run plain revoked_calls new_registry

off_lookup :
    lookup "m1" off_registry.models ≡ some (with_status ModelStatus.revoked 30 (attested 20 entry))
unfolding run call register attest set_status hex_run fresh_id lookup insert
off_lookup = refl

off : Inactive "m1" off_registry
off = (with_status ModelStatus.revoked 30 (attested 20 entry), off_lookup, refl)

run-Frozen_example :
    Inactive "m1" (run plain (Call.testify "m1" "eve" "x" 40 ∷ []) off_registry)
    × (list_attestations "m1" (run plain (Call.testify "m1" "eve" "x" 40 ∷ []) off_registry)
        ≡ list_attestations "m1" off_registry)
run-Frozen_example = run-Frozen plain "m1" (Call.testify "m1" "eve" "x" 40 ∷ []) off_registry off
