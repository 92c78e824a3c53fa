-- ===== src/Merkle/Limits.antt =====
-- engine/internal/prover/merkle.go: what a root does not bind. Leaves and inner nodes are hashed
-- alike, and an odd level is padded with its last node.
use mathlib.Core.List.{map-append}
use casper_prover.Prelude.{
  ℕ, ◌%◌, ◌≡◌, ◌≢◌, refl, ap, sym, ◌∙◌, true, List, [], ◌∷◌, ◌++◌, arith, length, length-map,
  length-append,
}
use casper_prover.Hex.{encode, bytes_eq_refl}
use casper_prover.Merkle.Digest.{Sha256, hash_pair}
use casper_prover.Merkle.Levels.{pad_odd, pad_odd-cons, ups}
use casper_prover.Merkle.Climb.{ceil_log2}
use casper_prover.Merkle.Padding.{pad_odd_of_even}
use casper_prover.Merkle.Tree.{done, root, verify_path}
use casper_prover.Merkle.TreeRoot.{leaf_hashes, root-Apex}

pad_odd-append_one {ℓ} :
    {A : Type ℓ} (xs : List A) (x : A)
    → length xs % 2 ≡ 0
    → pad_odd (xs ++ x ∷ []) ≡ xs ++ x ∷ x ∷ []
unfolding pad_odd
pad_odd-append_one [] x e = refl
pad_odd-append_one (a ∷ []) x e = absurd (omega arith)
pad_odd-append_one (a ∷ b ∷ xs) x e =
    rw (pad_odd-cons a b (xs ++ x ∷ []))
      (ap (λ zs. a ∷ b ∷ zs) (pad_odd-append_one xs x (omega arith)))

module _ (sha : Sha256) where
  -- Leaf lists whose padded hashes are the same have the same root.
  root_of_same_padding :
      (xs ys : List (List ℕ))
      → xs ≢ []
      → ys ≢ []
      → pad_odd (leaf_hashes sha xs) ≡ pad_odd (leaf_hashes sha ys)
      → root sha xs ≡ root sha ys
  root_of_same_padding xs ys nx ny e =
      let (r, p, a) = root-Apex sha xs nx in
      let (s, q, b) = root-Apex sha ys ny in
      let same : r ∷ [] ≡ s ∷ [] =
        sym a ∙ ap (λ zs. ups (hash_pair sha) (ceil_log2 (length zs)) zs) e ∙ b in
      let equal : r ≡ s = cc in p ∙ ap (λ (t : List ℕ). done (encode t)) equal ∙ sym q

  -- A list with an odd number of leaves and the list with its last leaf doubled have one root.
  pub root-double_last :
      (leaves : List (List ℕ)) (leaf : List ℕ)
      → length leaves % 2 ≡ 0
      → root sha (leaves ++ leaf ∷ []) ≡ root sha (leaves ++ leaf ∷ leaf ∷ [])
  root-double_last leaves leaf even =
      root_of_same_padding (leaves ++ leaf ∷ []) (leaves ++ leaf ∷ leaf ∷ [])
        (λ e. omega (arith, ap length e, length-append leaves (leaf ∷ [])))
        (λ e. omega (arith, ap length e, length-append leaves (leaf ∷ leaf ∷ [])))
        (rw (map-append sha.sum leaves (leaf ∷ []), map-append sha.sum leaves (leaf ∷ leaf ∷ []))
          (pad_odd-append_one (leaf_hashes sha leaves) (sha.sum leaf)
              (omega (arith, length-map sha.sum leaves))
            ∙ sym (
                pad_odd_of_even (leaf_hashes sha leaves ++ sha.sum leaf ∷ sha.sum leaf ∷ []) (
                  omega (
                    arith,
                    length-map sha.sum leaves,
                    length-append (leaf_hashes sha leaves) (sha.sum leaf ∷ sha.sum leaf ∷ []),
                  )))))

  -- For any two leaves, the 64 bytes of their two hashes pass `VerifyPath` with an empty path
  -- against the root of the two leaves.
  pub inner_node_verifies :
      (a b : List ℕ)
      → (text : List ℕ) × (root sha (a ∷ b ∷ []) ≡ done text)
        × (verify_path sha (sha.sum a ++ sha.sum b) [] text 0 ≡ true)
  unfolding root verify_path pad_odd
  inner_node_verifies a b = (
    encode (sha.sum (sha.sum a ++ sha.sum b)),
    refl,
    bytes_eq_refl (encode (sha.sum (sha.sum a ++ sha.sum b))),
  )
