-- ===== src/Quorum/Verifier.antt =====
-- engine/internal/quorum/verifier.go: the quorum check and its witness; the threshold is of bls.go.
use casper_prover.Prelude.{
  err, ok, ◌>>=◌, ℕ, zero, suc, ◌+◌, ◌*◌, ◌/◌, String, Option, none, some, List, [], ◌∷◌, ◌++◌, ltb,
  ◌==◌, if◌then◌else◌, length, ℤ, pos, negsuc,
}
use casper_prover.Prelude.Sort.{sort, str_ltb}
use casper_prover.Quorum.{
  Crypto, Registry, Result, nil_registry, empty_message, empty_bitset, invalid_signature,
  threshold_not_met, active_count, active_pub_keys, aggregate_pub_keys, verify,
}

-- `SchemeBLS12381G1V1`
abbrev pub scheme_v1 : String
scheme_v1 = "bls12-381-g1-agg-v1"

pub record QuorumWitness : Type 0 where
  pub scheme : String
  pub evidence_root_hex : List ℕ
  pub signer_bitset : List String
  pub aggregate_pub_key_hex : List ℕ
  pub aggregate_sig_hex : List ℕ
  pub threshold : ℕ
  pub active_signers : ℕ
  pub verdict : String
  pub verified_at : ℕ
  pub witness_hash_hex : List ℕ

-- `ByzantineThreshold` on a count, which is not negative.
abbrev pub byzantine_threshold : ℕ → ℕ
byzantine_threshold n = if n == 0 then 0 else (if ltb n (2 * n / 3 + 1) then n else 2 * n / 3 + 1)

abbrev pub positive : ℕ → ℕ
positive n = if ltb n 1 then 1 else n

-- The threshold that `VerifyQuorum` uses for the one it is given.
abbrev pub effective_threshold : ℤ → ℕ → ℕ
effective_threshold (pos zero) n = positive (byzantine_threshold n)
effective_threshold (pos (suc t)) n = suc t
effective_threshold (negsuc t) n = positive (byzantine_threshold n)

module _ (c : Crypto) where
  open c use {G1, G2}

  abbrev each_id : List String → List ℕ
  each_id [] = []
  each_id (id ∷ ids) = c.bytes id ++ (30 ∷ each_id ids)

  -- `commitmentHash`: the digest of every field but the digest.
  unfoldable pub commitment_hash : QuorumWitness → List ℕ
  commitment_hash w = c.hex (
      c.sha256 (
        c.bytes w.scheme
        ++ (0 ∷ w.evidence_root_hex)
        ++ (0 ∷ each_id w.signer_bitset)
        ++ (0 ∷ w.aggregate_pub_key_hex)
        ++ (0 ∷ w.aggregate_sig_hex)
        ++ (0 ∷ c.bytes "t=")
        ++ c.decimal w.threshold
        ++ c.bytes ";n="
        ++ c.decimal w.active_signers
        ++ c.bytes ";v="
        ++ c.bytes w.verdict))

  -- `SortSignerIDs`
  abbrev pub sort_signer_ids : List String → List String
  sort_signer_ids ids = sort str_ltb ids

  abbrev pub sealed : QuorumWitness → QuorumWitness
  sealed w = record w { witness_hash_hex = commitment_hash w }

  -- The witness that `VerifyQuorum` builds for an aggregate key.
  abbrev pub witness : Registry c → List ℕ → List String → G1 → ℕ → ℕ → G2 → QuorumWitness
  witness reg root bitset sig threshold now agg = sealed (record {
    scheme = scheme_v1;
    evidence_root_hex = c.hex root;
    signer_bitset = sort_signer_ids bitset;
    aggregate_pub_key_hex = c.g2_hex agg;
    aggregate_sig_hex = c.g1_hex sig;
    threshold = threshold;
    active_signers = active_count c reg;
    verdict = "APPROVE";
    verified_at = now;
    witness_hash_hex = [];
  })

  -- The checks of `VerifyQuorum` from the threshold on.
  unfoldable pub check_quorum :
      Registry c → List ℕ → List String → G1 → ℕ → ℕ → Result QuorumWitness
  check_quorum reg root bitset sig threshold now =
      if ltb (length bitset) threshold
      then err (threshold_not_met (length bitset) threshold (active_count c reg))
      else do
        pks ← active_pub_keys c reg [] (sort_signer_ids bitset)
        agg ← aggregate_pub_keys c pks
        _ ← verify c agg root sig
        ok (witness reg root bitset sig threshold now agg)

  -- `VerifyQuorum` at the clock's `now`; a nil registry or signature is none.
  unfoldable pub verify_quorum :
      Option (Registry c) → List ℕ → List String → Option G1 → ℤ → ℕ → Result QuorumWitness
  unfolding check_quorum
  verify_quorum none root bitset sig threshold now = err nil_registry
  verify_quorum (some reg) [] bitset sig threshold now = err empty_message
  verify_quorum (some reg) (b ∷ root) [] sig threshold now = err empty_bitset
  verify_quorum (some reg) (b ∷ root) (id ∷ ids) none threshold now = err invalid_signature
  verify_quorum (some reg) (b ∷ root) (id ∷ ids) (some sig) threshold now =
      check_quorum reg (b ∷ root) (id ∷ ids) sig
        (effective_threshold threshold (active_count c reg)) now
