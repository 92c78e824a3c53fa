-- ===== src/Merkle/TreeRoot.antt =====
-- engine/internal/prover/merkle.go, `BuildTree` and `Root`: they always return, and with the
-- single node above the padded leaf hashes.
use casper_prover.Prelude.{
  ℕ, zero, suc, ◌+◌, ◌/◌, ◌%◌, ◌≤◌, ◌≡◌, ◌≢◌, ◌↔◌, ◌⊎◌, inl, inr, refl, ap, sym, ◌∙◌, true, false,
  List, [], ◌∷◌, map, arith, ltb, if◌then◌else◌, length, length-map, Bool-cases, lt→ltb,
}
use mathlib.Core.Path.{subst}
use native.Mathlib.Decide.{dec_lt}
use casper_prover.Hex.{encode}
use casper_prover.Merkle.Digest.{Sha256, hash_pair}
use casper_prover.Merkle.Levels.{pad_odd, up, length-up}
use casper_prover.Merkle.Padding.{length-pad_odd, map-pad_odd}
use casper_prover.Merkle.Climb.{Apex, Apex-up, Apex-pad_odd, Apex-one}
use casper_prover.Merkle.Tree.{
  MerkleNode, leaf_node, inner_node, node_hash, done, pair_nodes, pad_next, build_levels, root,
}

-- What the loop keeps: the nodes are one, or even in number.
abbrev pub IsLevel : ℕ → Type 0
IsLevel n = (n ≡ 1) ⊎ (n % 2 ≡ 0)

module _ {ℓ} {A : Type ℓ} where
  pub length-pad_next :
      (next : List A)
      → 1 ≤ length next
      → IsLevel (length (pad_next next))
        × (length (pad_next next)
            ≤ length next + (if ltb 1 (length next) then length next % 2 else 0))
        × (1 ≤ length (pad_next next))
  length-pad_next next pos = elim (Bool-cases (ltb 1 (length next))) [
    | inl e ↦ rw e (ground (arith, length-pad_odd next))
    | inr e ↦ rw e (ground arith)
  ]

  pub pad_next_big : (xs : List A) → 2 ≤ length xs → pad_next xs ≡ pad_odd xs
  pad_next_big xs h = rw (lt→ltb 1 (length xs) h)

  pub pad_next_small : (xs : List A) → length xs ≤ 1 → pad_next xs ≡ xs
  pad_next_small xs h = let e : ltb 1 (length xs) ≡ false = ground arith in rw e

pub map-pad_next {ℓ κ} :
    {A : Type ℓ} {B : Type κ} (f : A → B) (xs : List A) → map f (pad_next xs) ≡ pad_next (map f xs)
map-pad_next f xs = elim (Bool-cases (ltb 1 (length xs))) [
  | inl e ↦ rw (length-map f xs, e) (map-pad_odd f xs)
  | inr e ↦ rw (length-map f xs, e)
]

module _ (sha : Sha256) where
  abbrev hashes : List MerkleNode → List (List ℕ)
  hashes = map node_hash

  -- On an even number of nodes the inner loop stays in range and makes the level above.
  pair_nodes-done :
      (nodes : List MerkleNode)
      → length nodes % 2 ≡ 0
      → (next : List MerkleNode) × (pair_nodes sha nodes ≡ done next)
        × (hashes next ≡ up (hash_pair sha) (hashes nodes))
  unfolding pair_nodes up
  pair_nodes-done [] e = ([], refl, refl)
  pair_nodes-done (a ∷ []) e = absurd (omega arith)
  pair_nodes-done (a ∷ b ∷ nodes) e =
      let (next, p, q) = pair_nodes-done nodes (omega arith) in
      (
        inner_node (hash_pair sha (node_hash a) (node_hash b)) a b ∷ next,
        rw p,
        ap (◌∷◌ (hash_pair sha (node_hash a) (node_hash b))) q,
      )

  pub Apex-pad_next :
      (xs : List (List ℕ)) (r : List ℕ)
      → Apex (hash_pair sha) (pad_next xs) r ↔ Apex (hash_pair sha) xs r
  Apex-pad_next xs r = elim (dec_lt 1 (length xs)) [
    | yes two ↦
        subst (λ ys. Apex (hash_pair sha) ys r ↔ Apex (hash_pair sha) xs r)
          (sym (pad_next_big xs two)) (Apex-pad_odd (hash_pair sha) xs r two)
    | no few ↦
        subst (λ ys. Apex (hash_pair sha) ys r ↔ Apex (hash_pair sha) xs r)
          (sym (pad_next_small xs (omega arith))) (λ a. a, λ a. a)
  ]

  -- A level and the padded level above it have the same single node above.
  pub Apex-next :
      (xs next : List (List ℕ)) (r : List ℕ)
      → 2 ≤ length xs
      → next ≡ up (hash_pair sha) xs
      → Apex (hash_pair sha) (pad_next next) r ↔ Apex (hash_pair sha) xs r
  Apex-next xs next r two q = (
    λ a.
        (Apex-up (hash_pair sha) xs r two).1
          (subst (λ ys. Apex (hash_pair sha) ys r) q ((Apex-pad_next next r).0 a)),
    λ a.
        (Apex-pad_next next r).1 (
          subst (λ ys. Apex (hash_pair sha) ys r) (sym q) ((Apex-up (hash_pair sha) xs r two).0 a)),
  )

  build_levels-done :
      (fuel : ℕ) (nodes : List MerkleNode)
      → length nodes ≤ fuel
      → nodes ≢ []
      → IsLevel (length nodes)
      → (t : MerkleNode) × (build_levels sha fuel nodes ≡ done t)
        × Apex (hash_pair sha) (hashes nodes) (node_hash t)
  unfolding build_levels
  build_levels-done fuel [] le ne lv = absurd (ne refl)
  build_levels-done zero (a ∷ nodes) le ne lv = absurd (omega arith)
  build_levels-done (suc fuel) (a ∷ []) le ne lv = (a, refl, Apex-one (hash_pair sha) (node_hash a))
  build_levels-done (suc fuel) (a ∷ b ∷ nodes) le ne lv =
      let (next, p, q) = pair_nodes-done (a ∷ b ∷ nodes) (omega arith) in
      let size : length next ≡ (length (a ∷ b ∷ nodes) + 1) / 2 = omega (
        arith,
        ap length q,
        length-map node_hash next,
        length-map node_hash nodes,
        length-up (hash_pair sha) (hashes (a ∷ b ∷ nodes)),
      ) in
      let (level, fits, some_node) = length-pad_next next (omega arith) in
      let (t, pt, apex) =
        build_levels-done fuel (pad_next next) (ground arith) (λ e. omega (arith, ap length e))
          level in
      let big : ltb 1 (suc (suc (length nodes))) ≡ true = ground arith in
      (
        t,
        rw (big, p) pt,
        (Apex-next (hashes (a ∷ b ∷ nodes)) (hashes next) (node_hash t) (omega arith) q).0 (
            subst (λ ys. Apex (hash_pair sha) ys (node_hash t)) (map-pad_next node_hash next) apex),
      )

  abbrev pub leaf_hashes : List (List ℕ) → List (List ℕ)
  leaf_hashes = map sha.sum

  abbrev leaf_nodes : List (List ℕ) → List MerkleNode
  leaf_nodes = map (λ x. leaf_node (sha.sum x))

  node_hashes : (leaves : List (List ℕ)) → hashes (leaf_nodes leaves) ≡ leaf_hashes leaves
  node_hashes [] = refl
  node_hashes (l ∷ ls) = ap (◌∷◌ (sha.sum l)) (node_hashes ls)

  hashes-leaf_nodes :
      (leaves : List (List ℕ)) → hashes (pad_odd (leaf_nodes leaves)) ≡ pad_odd (leaf_hashes leaves)
  hashes-leaf_nodes leaves =
      map-pad_odd node_hash (leaf_nodes leaves) ∙ ap pad_odd (node_hashes leaves)

  -- `Root` of any list of leaves that is not empty returns, and what it returns is the text of the
  -- single node above the padded hashes of the leaves.
  pub root-Apex :
      (leaves : List (List ℕ))
      → leaves ≢ []
      → (r : List ℕ) × (root sha leaves ≡ done (encode r))
        × Apex (hash_pair sha) (pad_odd (leaf_hashes leaves)) r
  unfolding root
  root-Apex [] ne = absurd (ne refl)
  root-Apex (l ∷ ls) ne =
      let nodes = leaf_nodes (l ∷ ls) in
      let size : length nodes ≡ suc (length ls) =
        length-map (λ x. leaf_node (sha.sum x)) (l ∷ ls) in
      let (t, p, apex) =
        build_levels-done (suc (length (l ∷ ls))) (pad_odd nodes)
          (omega (arith, length-pad_odd nodes))
          (λ e. omega (arith, ap length e, length-pad_odd nodes))
          (inr (omega (arith, length-pad_odd nodes))) in
      (
        node_hash t,
        rw p,
        subst (λ ys. Apex (hash_pair sha) ys (node_hash t)) (hashes-leaf_nodes (l ∷ ls)) apex,
      )
