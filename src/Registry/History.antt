-- ===== src/Registry/History.antt =====
-- engine/internal/model/registry.go: a registry under any sequence of calls.
use casper_prover.Prelude.{ℕ, String, List, [], ◌∷◌, ◌≡◌, some, length}
use casper_prover.Prelude.Assoc.{lookup}
use casper_prover.Registry.{
  ModelStatus, ModelEntry, get, get_by_hash, list_attestations, Registry, new_registry, Library,
  register, attest, deprecate, revoke,
}
use casper_prover.Registry.Consistent.{
  IsConsistent, new_registry-IsConsistent, set_status-IsConsistent, attest-IsConsistent,
  register-IsConsistent,
}

-- The methods that change the registry.
pub data Call : Type 0 where
  enrol : String → String → String → String → List String → List String → ℕ → Call
  testify : String → String → String → ℕ → Call
  retire : String → ℕ → Call
  withdraw : String → ℕ → Call

unfoldable pub call : Library → Call → Registry → Registry
call lib (enrol name owner hash cid schema draws now) r =
    (register lib name owner hash cid schema draws now r).1
call lib (testify id attester evidence now) r = (attest id attester evidence now r).1
call lib (retire id now) r = (deprecate id now r).1
call lib (withdraw id now) r = (revoke id now r).1

unfoldable pub run : Library → List Call → Registry → Registry
unfolding call
run lib [] r = r
run lib (c ∷ calls) r = run lib calls (call lib c r)

call-IsConsistent :
    (lib : Library) (c : Call) (r : Registry) → IsConsistent r → IsConsistent (call lib c r)
unfolding call
call-IsConsistent lib (enrol name owner hash cid schema draws now) r v =
    register-IsConsistent lib name owner hash cid schema draws now r v
call-IsConsistent lib (testify id attester evidence now) r v =
    attest-IsConsistent id attester evidence now r v
call-IsConsistent lib (retire id now) r v =
    set_status-IsConsistent id ModelStatus.deprecated now r v
call-IsConsistent lib (withdraw id now) r v = set_status-IsConsistent id ModelStatus.revoked now r v

run_from :
    (lib : Library) (calls : List Call) (r : Registry)
    → IsConsistent r
    → IsConsistent (run lib calls r)
unfolding run
run_from lib [] r v = v
run_from lib (c ∷ calls) r v = run_from lib calls (call lib c r) (call-IsConsistent lib c r v)

pub run-IsConsistent :
    (lib : Library) (calls : List Call) → IsConsistent (run lib calls new_registry)
run-IsConsistent lib calls = run_from lib calls new_registry new_registry-IsConsistent

found_by_hash :
    (id : String) (m : ModelEntry) (r : Registry)
    → lookup m.hash r.by_hash ≡ some id
    → lookup id r.models ≡ some m
    → get_by_hash m.hash r ≡ some m
found_by_hash id m r leads found = rw leads found

-- After any calls on a new registry, a model found under an id has that id, is the one that
-- GetByHash finds for its hash, so no other model has the hash, and its count is the number of its
-- attestations.
pub run-get_by_hash :
    (lib : Library) (calls : List Call) (id : String) (m : ModelEntry)
    → get id (run lib calls new_registry) ≡ some m
    → (m.id ≡ id)
      × (get_by_hash m.hash (run lib calls new_registry) ≡ some m)
      × (m.attestation_count ≡ length (list_attestations id (run lib calls new_registry)))
run-get_by_hash lib calls id m found =
    let v = run-IsConsistent lib calls in
    (
      v.named id m found,
      found_by_hash id m (run lib calls new_registry) (v.hash_leads id m found) found,
      v.counted id m found,
    )
