-- ===== src/Merkle/Tree.antt =====
-- engine/internal/prover/merkle.go: the tree, its root, a leaf's path, and the check of a path.
-- A `MerkleNode` keeps its hash and its children. A position is an `int`, so it may be negative.
use casper_prover.Prelude.{
  ℕ, zero, suc, ◌/◌, Bool, true, false, List, [], ◌∷◌, ◌++◌, map, Option, none, some, ltb, leb,
  ◌==◌, if◌then◌else◌, length, get_elem?, ℤ, pos, negsuc,
}
use casper_prover.Hex.{bytes_eq, encode, decode}
use casper_prover.Merkle.Digest.{Sha256, hash_pair}
use casper_prover.Merkle.Levels.{pad_odd, pairs, sibling, join}

pub data MerkleNode : Type 0 where
  leaf_node : List ℕ → MerkleNode
  inner_node : List ℕ → MerkleNode → MerkleNode → MerkleNode

abbrev pub node_hash : MerkleNode → List ℕ
node_hash (leaf_node h) = h
node_hash (inner_node h _ _) = h

-- How a call ends: with a value, by an index out of range, or out of the model's fuel.
pub data Run {ℓ} (A : Type ℓ) : Type ℓ where
  done : A → Run A
  panic : Run A
  no_fuel : Run A

infixl 5 ◌>>=◌
abbrev pub ◌>>=◌ {ℓ κ} : {A : Type ℓ} {B : Type κ} → Run A → (A → Run B) → Run B
done a >>= f = f a
panic >>= f = panic
no_fuel >>= f = no_fuel

-- `if len(next) > 1 && len(next)%2 != 0 { append the last }`
abbrev pub pad_next {ℓ} : {A : Type ℓ} → List A → List A
pad_next next = if ltb 1 (length next) then pad_odd next else next

-- nodes[0]
abbrev pub first : List MerkleNode → Run MerkleNode
first [] = panic
first (a ∷ _) = done a

abbrev pub root_text : Option MerkleNode → List ℕ
root_text none = []
root_text (some tree) = encode (node_hash tree)

-- `path = append(path, ...)`, if the sibling is in range.
abbrev pub extend : List (List ℕ) → Option (List ℕ) → List (List ℕ)
extend path none = path
extend path (some s) = path ++ encode s ∷ []

abbrev pub matches : Option (List ℕ) → List ℕ → Bool
matches none root = false
matches (some h) root = bytes_eq (encode h) root

module _ (sha : Sha256) where
  -- The inner loop of `BuildTree`, which reads `nodes[i+1]`.
  unfoldable pub pair_nodes : List MerkleNode → Run (List MerkleNode)
  pair_nodes [] = done []
  pair_nodes (a ∷ []) = panic
  pair_nodes (a ∷ b ∷ nodes) = do
    next ← pair_nodes nodes
    done (inner_node (hash_pair sha (node_hash a) (node_hash b)) a b ∷ next)

  -- The loop over the levels.
  unfoldable pub build_levels : ℕ → List MerkleNode → Run MerkleNode
  build_levels zero nodes = no_fuel
  build_levels (suc fuel) nodes =
      let rest = (do next ← pair_nodes nodes; build_levels fuel (pad_next next)) in
      if ltb 1 (length nodes) then rest else first nodes

  -- `BuildTree`; `none` is nil. Each round halves the nodes, and there are at most
  -- len(leaves) + 1 of them.
  unfoldable pub build_tree : List (List ℕ) → Run (Option MerkleNode)
  unfolding build_levels pair_nodes
  build_tree [] = done none
  build_tree (l ∷ ls) = do
    root ←
        build_levels (suc (length (l ∷ ls))) (pad_odd (map (λ x. leaf_node (sha.sum x)) (l ∷ ls)))
    done (some root)

  -- `Root`
  unfoldable pub root : List (List ℕ) → Run (List ℕ)
  unfolding build_tree
  root leaves = do tree ← build_tree leaves; done (root_text tree)

  -- The loop of `GetPath`, on fuel; out of fuel it returns the path so far.
  unfoldable pub path_levels : ℕ → List (List ℕ) → ℕ → List (List ℕ) → List (List ℕ)
  path_levels zero hashes place path = path
  path_levels (suc fuel) hashes place path =
      let rest =
        path_levels fuel (pad_next (pairs (hash_pair sha) hashes)) (place / 2)
          (extend path (get_elem? hashes (sibling place))) in
      if ltb 1 (length hashes) then rest else path

  -- `GetPath`; nil is the empty path.
  unfoldable pub get_path : List (List ℕ) → ℤ → List (List ℕ)
  unfolding path_levels
  get_path leaves (negsuc _) = []
  get_path leaves (pos idx) =
      if leb (length leaves) idx
      then []
      else path_levels (suc (length leaves)) (map sha.sum (pad_odd leaves)) idx []

  -- The loop of `VerifyPath`: the final hash, or `none` on an early `return false`.
  unfoldable pub fold_path : List ℕ → List (List ℕ) → ℕ → Option (List ℕ)
  fold_path h [] place = some h
  fold_path h (sib ∷ path) place = elim (decode sib) [
    | none ↦ none
    | some bytes ↦ elim (length bytes == 32) [
      | true ↦ fold_path (join (hash_pair sha) place h bytes) path (place / 2)
      | false ↦ none
    ]
  ]

  -- `VerifyPath`, for an index that is not negative.
  unfoldable pub verify_path : List ℕ → List (List ℕ) → List ℕ → ℕ → Bool
  unfolding fold_path
  verify_path leaf path root idx = matches (fold_path (sha.sum leaf) path idx) root
