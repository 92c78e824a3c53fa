-- ===== src/Examples/Signing.antt =====
-- Runs of the signer registry and the quorum check on small inputs.
use casper_prover.Prelude.{ok, ℕ, ◌-◌, ◌/◌, ◌<◌, ◌≡◌, [], ◌∷◌, String, some, none, count, refl, pos}
use casper_prover.Prelude.Assoc.{lookup}
use casper_prover.Prelude.Sort.{sort}
use casper_prover.Quorum.{
  active, SignerRecord, Registry, active_count, active_pub_keys, aggregate_pub_keys, verify,
}
use casper_prover.Quorum.Verifier.{
  QuorumWitness, effective_threshold, verify_quorum, check_quorum, witness,
}
use casper_prover.Quorum.Lifecycle.{
  run, signers_endure, Kept, slash_call, retire_call, register_call,
}
use casper_prover.Quorum.Witness.{Attests, verified_quorum}
use casper_prover.Quorum.Intersection.{shared, active_ids, quorums_intersect}
use casper_prover.Examples.{toy_crypto}

abbrev signer : String → ℕ → SignerRecord ℕ
signer id pk = record {
  id = id;
  public_key_hex = [];
  bond = 5;
  status = active;
  registered_at = 0;
  slashed_at = none;
  slash_reason = "";
  pk = some pk;
}

abbrev committee : Registry toy_crypto
committee =
    ("a", signer "a" 1) ∷ ("b", signer "b" 2) ∷ ("c", signer "c" 3) ∷ ("d", signer "d" 4) ∷ []

found : lookup "b" committee ≡ some (signer "b" 2)
unfolding lookup
found = refl

signer_remains : Kept toy_crypto "b" (signer "b" 2) (
    run toy_crypto
      (slash_call "b" "equivocation" 7 ∷ retire_call "b" ∷ register_call "b" (some 9) 1 8 ∷ [])
      committee)
signer_remains =
    signers_endure toy_crypto
      (slash_call "b" "equivocation" 7 ∷ retire_call "b" ∷ register_call "b" (some 9) 1 8 ∷ [])
      committee "b" (signer "b" 2) found

-- One message of one byte, signed by three of the four; then one of two bytes by another three.
abbrev first_witness : QuorumWitness
first_witness = witness toy_crypto committee (9 ∷ []) ("c" ∷ "a" ∷ "b" ∷ []) 6 3 0 6

abbrev second_witness : QuorumWitness
second_witness = witness toy_crypto committee (9 ∷ 9 ∷ []) ("d" ∷ "b" ∷ "c" ∷ []) 18 3 1 9

first_verified :
    verify_quorum toy_crypto (some committee) (9 ∷ []) ("c" ∷ "a" ∷ "b" ∷ []) (some 6) (pos 0) 0
    ≡ ok first_witness
unfolding verify_quorum check_quorum active_pub_keys aggregate_pub_keys verify active_count sort
    lookup
first_verified = refl

second_verified :
    verify_quorum toy_crypto
      (some committee)
      (9 ∷ 9 ∷ [])
      ("d" ∷ "b" ∷ "c" ∷ [])
      (some 18)
      (pos 0)
      1
    ≡ ok second_witness
unfolding verify_quorum check_quorum active_pub_keys aggregate_pub_keys verify active_count sort
    lookup
second_verified = refl

verified_quorum_example :
    Attests toy_crypto committee
      (9 ∷ [])
      ("c" ∷ "a" ∷ "b" ∷ [])
      6
      (effective_threshold (pos 0) (active_count toy_crypto committee))
      first_witness
verified_quorum_example =
    verified_quorum toy_crypto committee (9 ∷ []) ("c" ∷ "a" ∷ "b" ∷ []) 6 (pos 0) 0 first_witness
      first_verified

quorums_intersect_example :
    (active_count toy_crypto committee - 1) / 3
    < count (shared toy_crypto first_witness second_witness) (active_ids toy_crypto committee)
quorums_intersect_example =
    quorums_intersect toy_crypto committee (9 ∷ []) (9 ∷ 9 ∷ []) ("c" ∷ "a" ∷ "b" ∷ [])
      ("d" ∷ "b" ∷ "c" ∷ []) 6 18 0 1 first_witness second_witness first_verified second_verified
