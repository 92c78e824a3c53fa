-- ===== src/Merkle/Recursion.antt =====
-- engine/internal/aggregator/merkle_recursion.go: the tree over proof commitments, with tagged
-- leaf and node hashes, inclusion proofs, and their check.
use casper_prover.Prelude.{
  Outcome, ok, err, ◌>>=◌, ℕ, zero, suc, ◌+◌, ◌-◌, ◌/◌, ◌%◌, Bool, true, false, List, [], ◌∷◌, ◌++◌,
  Option, none, some, String, ltb, leb, ◌==◌, str_eq, if◌then◌else◌, length, get_elem?, ℤ, pos,
  negsuc,
}
use casper_prover.Hex.{bytes_eq, encode, decode}
use casper_prover.Merkle.Digest.{Sha256}
use casper_prover.Merkle.Levels.{pad_odd, pairs}

-- `SchemeMerkleRecursionV1`
abbrev pub scheme_v1 : String
scheme_v1 = "merkle-recursion-v1"

pub record MerkleRecursionProof : Type 0 where
  pub scheme : String
  pub count : ℕ
  pub tree_height : ℕ
  pub root_hex : List ℕ

pub record MerkleInclusionProof : Type 0 where
  pub leaf_index : ℤ
  pub leaf_hex : List ℕ
  pub path : List (List ℕ)
  pub positions : List Bool

pub data Error : Type 0 where
  empty_leaf_list : Error
  empty_leaf : ℕ → Error
  leaf_index_out_of_range : ℤ → ℕ → Error
  unsupported_scheme : String → Error
  height_mismatch : ℕ → ℕ → Error
  positions_mismatch : ℕ → ℕ → Error
  bad_leaf_hex : Error
  bad_path_hex : ℕ → Error
  root_mismatch : Error
  -- an index out of range, and the end of the model's fuel
  panic no_fuel : Error

-- leafIndex < 0 || leafIndex >= count
abbrev pub out_of_range : ℤ → ℕ → Bool
out_of_range (pos i) count = leb count i
out_of_range (negsuc i) count = true

abbrev pub Result {ℓ} : Type ℓ → Type ℓ
Result A = Outcome Error A

-- `level[siblingIdx]` in front of the path that the rest of the loop collects.
abbrev pub add_sibling :
    Option (List ℕ) → Bool → List (List ℕ) × List Bool → Result (List (List ℕ) × List Bool)
add_sibling none right steps = err panic
add_sibling (some s) right (path, positions) = ok (encode s ∷ path, right ∷ positions)

abbrev pub finish_proof :
    ℤ → Option (List ℕ) → List (List ℕ) × List Bool → Result MerkleInclusionProof
finish_proof leaf_index none steps = err panic
finish_proof leaf_index (some leaf_hash) (path, positions) = ok (record {
  leaf_index = leaf_index;
  leaf_hex = encode leaf_hash;
  path = path;
  positions = positions;
})

module _ (sha : Sha256) where
  -- sha256 behind `merkleLeafTag`, and behind `merkleNodeTag`.
  abbrev pub tagged_leaf : List ℕ → List ℕ
  tagged_leaf leaf = sha.sum (0 ∷ leaf)

  abbrev pub tagged_node : List ℕ → List ℕ → List ℕ
  tagged_node left right = sha.sum (1 ∷ left ++ right)

  -- The loop that hashes the leaves, and refuses an empty one; `i` is its index.
  unfoldable pub hash_leaves : ℕ → List (List ℕ) → Result (List (List ℕ))
  hash_leaves i [] = ok []
  hash_leaves i ([] ∷ leaves) = err (empty_leaf i)
  hash_leaves i ((b ∷ bs) ∷ leaves) = do
    rest ← hash_leaves (i + 1) leaves
    ok (tagged_leaf (b ∷ bs) ∷ rest)

  -- The level above: padded, then combined.
  abbrev pub compact : List (List ℕ) → List (List ℕ)
  compact level = pairs tagged_node (pad_odd level)

  abbrev pub only : ℕ → List (List ℕ) → Result (List ℕ × ℕ)
  only height [] = err panic
  only height (r ∷ _) = ok (r, height)

  -- The loop over the levels: the last node and the height.
  unfoldable pub climb : ℕ → ℕ → List (List ℕ) → Result (List ℕ × ℕ)
  climb zero height level = err no_fuel
  climb (suc fuel) height level =
      let rest = climb fuel (height + 1) (compact level) in
      if ltb 1 (length level) then rest else only height level

  -- `AggregateMerkleRecursion`
  unfoldable pub aggregate_merkle_recursion : List (List ℕ) → Result MerkleRecursionProof
  aggregate_merkle_recursion [] = err empty_leaf_list
  aggregate_merkle_recursion (l ∷ ls) = do
    level ← hash_leaves 0 (l ∷ ls)
    (r, height) ← climb (suc (length (l ∷ ls))) 0 level
    ok (record {
      scheme = scheme_v1;
      count = length (l ∷ ls);
      tree_height = height;
      root_hex = encode r;
    })

  abbrev pub is_right : ℕ → Bool
  is_right cursor = if cursor % 2 == 1 then true else false

  abbrev pub sibling_index : ℕ → ℕ
  sibling_index cursor = if is_right cursor then cursor - 1 else cursor + 1

  -- The loop of `BuildInclusionProof`: the siblings' texts and the sides, bottom-up.
  unfoldable pub collect_path : ℕ → List (List ℕ) → ℕ → Result (List (List ℕ) × List Bool)
  collect_path zero level cursor = err no_fuel
  collect_path (suc fuel) level cursor =
      let rest =
        collect_path fuel (compact level) (cursor / 2)
        >>= add_sibling (get_elem? (pad_odd level) (sibling_index cursor)) (is_right cursor) in
      if ltb 1 (length level) then rest else ok ([], [])

  -- `BuildInclusionProof`
  unfoldable pub build_inclusion_proof : List (List ℕ) → ℤ → Result MerkleInclusionProof
  build_inclusion_proof leaves (negsuc i) = err (leaf_index_out_of_range (negsuc i) (length leaves))
  build_inclusion_proof leaves (pos i) =
      if out_of_range (pos i) (length leaves)
      then err (leaf_index_out_of_range (pos i) (length leaves))
      else do
        level ← hash_leaves 0 leaves
        collect_path (suc (length leaves)) level i >>= finish_proof (pos i) (get_elem? level i)

  -- hex.DecodeString and the test for 32 bytes.
  abbrev sized : Option (List ℕ) → Option (List ℕ)
  sized none = none
  sized (some bytes) = if length bytes == 32 then some bytes else none

  unfoldable pub decode_digest : List ℕ → Option (List ℕ)
  decode_digest hex = sized (decode hex)

  abbrev pub combine : Bool → List ℕ → List ℕ → List ℕ
  combine right acc sib = if right then tagged_node sib acc else tagged_node acc sib

  -- The loop of `VerifyMerkleInclusion`; the two lists have one length there.
  unfoldable pub fold_inclusion : ℕ → List ℕ → List (List ℕ) → List Bool → Result (List ℕ)
  fold_inclusion i acc [] positions = ok acc
  fold_inclusion i acc (sib_hex ∷ path) [] = err panic
  fold_inclusion i acc (sib_hex ∷ path) (right ∷ positions) = elim (decode_digest sib_hex) [
    | none ↦ err (bad_path_hex i)
    | some sib ↦ fold_inclusion (i + 1) (combine right acc sib) path positions
  ]

  abbrev pub check_root : List ℕ → List ℕ → Result Bool
  check_root acc root_hex = if bytes_eq (encode acc) root_hex then ok true else err root_mismatch

  -- `VerifyMerkleInclusion`
  unfoldable pub verify_merkle_inclusion : MerkleRecursionProof → MerkleInclusionProof → Result Bool
  verify_merkle_inclusion agg proof =
      if str_eq agg.scheme scheme_v1
      then (if agg.tree_height == length proof.path
          then (if length proof.path == length proof.positions
              then (if out_of_range proof.leaf_index agg.count
                  then err (leaf_index_out_of_range proof.leaf_index agg.count)
                  else (elim (decode_digest proof.leaf_hex) [
                    | none ↦ err bad_leaf_hex
                    | some leaf ↦ do
                      acc ← fold_inclusion 0 leaf proof.path proof.positions
                      check_root acc agg.root_hex
                  ]))
              else err (positions_mismatch (length proof.path) (length proof.positions)))
          else err (height_mismatch (length proof.path) agg.tree_height))
      else err (unsupported_scheme agg.scheme)
