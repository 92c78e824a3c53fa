-- ===== src/Examples/Trees.antt =====
-- Runs of the Merkle trees on small inputs.
use casper_prover.Prelude.{
  ok, ℕ, ◌≡◌, ◌⊎◌, true, false, List, [], ◌∷◌, ◌++◌, some, refl, arith, pos, replicate,
}
use casper_prover.Hex.{bytes_eq, encode, decode, decode-encode}
use casper_prover.Merkle.Digest.{hash_pair}
use casper_prover.Merkle.Levels.{pad_odd, pairs}
use casper_prover.Merkle.Climb.{Apex}
use casper_prover.Merkle.Tree.{done, root, get_path, verify_path}
use casper_prover.Merkle.TreeRoot.{leaf_hashes, root-Apex}
use casper_prover.Merkle.Complete.{verify_path-get_path}
use casper_prover.Merkle.Binding.{hashed, Collides, verify_path-binding}
use casper_prover.Merkle.Incremental
use casper_prover.Merkle.Accumulate.{root-append_all, append_all-new}
use casper_prover.Merkle.Receipts.{verify-append_batch, append_batch-ok}
use casper_prover.Merkle.Limits.{inner_node_verifies}
use casper_prover.Merkle.Recursion
use casper_prover.Merkle.Recursion.{MerkleRecursionProof, MerkleInclusionProof}
use casper_prover.Merkle.Inclusion.{verify-build, leaf_index_unbound}
use casper_prover.Examples.{toy_sha, toy_sum}

abbrev three : List (List ℕ)
three = (1 ∷ []) ∷ (2 ∷ 3 ∷ []) ∷ (4 ∷ 5 ∷ 6 ∷ []) ∷ []

decode-encode_example : decode (encode (7 ∷ 255 ∷ [])) ≡ some (7 ∷ 255 ∷ [])
decode-encode_example = decode-encode (7 ∷ 255 ∷ []) (omega arith, (omega arith, tt))

root-Apex_example :
    (r : List ℕ) × (root toy_sha three ≡ done (encode r))
    × Apex (hash_pair toy_sha) (pad_odd (leaf_hashes toy_sha three)) r
root-Apex_example = root-Apex toy_sha three (λ h. cc)

verify_path-get_path_example :
    (text : List ℕ) × (root toy_sha three ≡ done text)
    × (verify_path toy_sha (2 ∷ 3 ∷ []) (get_path toy_sha three (pos 1)) text 1 ≡ true)
verify_path-get_path_example = verify_path-get_path toy_sha three 1 (2 ∷ 3 ∷ []) refl

abbrev digest_input : ℕ → List ℕ
digest_input b = b ∷ []

-- The toy digest of an input is its length.
verified : (leaf : ℕ) → verify_path toy_sha (leaf ∷ []) [] (encode (toy_sum (0 ∷ []))) 0 ≡ true
unfolding verify_path bytes_eq encode
verified leaf = refl

verify_path-binding_example :
    (digest_input 1 ≡ digest_input 2)
    ⊎ Collides toy_sha (hashed toy_sha (1 ∷ []) [] 0) (hashed toy_sha (2 ∷ []) [] 0)
verify_path-binding_example =
    verify_path-binding toy_sha (1 ∷ []) (2 ∷ []) [] [] (encode (toy_sum (0 ∷ []))) 0 refl
      (verified 1) (verified 2)

root-append_all_example :
    root toy_sha three
    ≡ done (Incremental.root toy_sha (Incremental.append_all toy_sha Incremental.new three).0)
root-append_all_example = root-append_all toy_sha three

abbrev one_leaf : List (List ℕ)
one_leaf = (1 ∷ []) ∷ []

abbrev one_leaf_tree : Incremental.IncrementalMerkle
one_leaf_tree = (Incremental.append_all toy_sha Incremental.new one_leaf).0

ran :
    (m' : Incremental.IncrementalMerkle) × (rc : Incremental.BatchReceipt)
    × (Incremental.append_batch toy_sha one_leaf_tree three ≡ (m', ok rc))
ran =
    let (m', rc, e, _, _, _) =
      append_batch-ok toy_sha one_leaf_tree one_leaf (1 ∷ []) ((2 ∷ 3 ∷ []) ∷ (4 ∷ 5 ∷ 6 ∷ []) ∷ [])
        (append_all-new toy_sha one_leaf) in
    (m', rc, e)

verify-append_batch_example :
    Incremental.verify_receipt_transition toy_sha one_leaf_tree ran.1 ≡ ok true
verify-append_batch_example = verify-append_batch toy_sha one_leaf_tree ran.0 three ran.1 ran.2

inner_node_verifies_example :
    (text : List ℕ) × (root toy_sha ((1 ∷ []) ∷ (2 ∷ []) ∷ []) ≡ done text)
    × (verify_path toy_sha (toy_sum (1 ∷ []) ++ toy_sum (2 ∷ [])) [] text 0 ≡ true)
inner_node_verifies_example = inner_node_verifies toy_sha (1 ∷ []) (2 ∷ [])

abbrev digest : ℕ → List ℕ
digest b = b ∷ replicate 31 0

abbrev agg_of_three : MerkleRecursionProof
agg_of_three = record {
  scheme = Recursion.scheme_v1;
  count = 3;
  tree_height = 2;
  root_hex = encode (digest 65);
}

aggregated : Recursion.aggregate_merkle_recursion toy_sha three ≡ ok agg_of_three
unfolding Recursion.aggregate_merkle_recursion Recursion.hash_leaves Recursion.climb pad_odd pairs
aggregated = refl

verify-build_example :
    (proof : MerkleInclusionProof) × (Recursion.build_inclusion_proof toy_sha three (pos 2)
      ≡ ok proof)
    × (Recursion.verify_merkle_inclusion toy_sha agg_of_three proof ≡ ok true)
verify-build_example = verify-build toy_sha three agg_of_three 2 aggregated (omega arith)

abbrev agg_of_two : MerkleRecursionProof
agg_of_two = record {
  scheme = Recursion.scheme_v1;
  count = 2;
  tree_height = 1;
  root_hex = encode (digest 65);
}

abbrev left_leaf : ℕ → MerkleInclusionProof
left_leaf idx = record {
  leaf_index = pos idx;
  leaf_hex = encode (digest 2);
  path = encode (digest 3) ∷ [];
  positions = false ∷ [];
}

included : Recursion.verify_merkle_inclusion toy_sha agg_of_two (left_leaf 0) ≡ ok true
unfolding Recursion.verify_merkle_inclusion Recursion.fold_inclusion Recursion.decode_digest encode
    decode bytes_eq
included = refl

leaf_index_unbound_example :
    Recursion.verify_merkle_inclusion toy_sha agg_of_two (left_leaf 1) ≡ ok true
leaf_index_unbound_example =
    leaf_index_unbound toy_sha agg_of_two (left_leaf 0) 1 included (omega arith)
