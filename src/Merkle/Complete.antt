-- ===== src/Merkle/Complete.antt =====
-- engine/internal/prover/merkle.go: `VerifyPath` accepts the path that `GetPath` gives.
use mathlib.Core.Path.{subst}
use mathlib.Core.List.{append_assoc, append-nil}
use casper_prover.Prelude.{
  ℕ, zero, suc, ◌/◌, ◌%◌, ◌≤◌, ◌≡◌, inl, inr, refl, ap, sym, ◌∙◌, true, false, List, [], ◌∷◌, ◌++◌,
  map, some, arith, ltb, leb, length, get_elem?, All, length-map, pos, get_elem?-lt, get_elem?-map,
  All-map, Bool-cases,
}
use casper_prover.Hex.{encode, decode-encode, bytes_eq_refl}
use casper_prover.Merkle.Digest.{Sha256, IsDigest, hash_pair}
use casper_prover.Merkle.Levels.{
  pad_odd, pairs, up, sibling, join, length-up, pairs-pad_odd, parent,
}
use casper_prover.Merkle.Padding.{
  length-pad_odd, map-pad_odd, pad_odd_of_even, get_elem?-pad_odd, All-pad_odd, All-get_elem?,
  All-up,
}
use casper_prover.Merkle.Climb.{Apex, Apex-one}
use casper_prover.Merkle.Tree.{done, pad_next, path_levels, get_path, fold_path, verify_path, root}
use casper_prover.Merkle.TreeRoot.{IsLevel, length-pad_next, Apex-next, root-Apex}

pub All-pad_next : (P : List ℕ → Type 0) (xs : List (List ℕ)) → All P xs → All P (pad_next xs)
All-pad_next P xs h = elim (Bool-cases (ltb 1 (length xs))) [
  | inl e ↦ rw e (All-pad_odd P xs h)
  | inr e ↦ rw e h
]

pub get_elem?-pad_next :
    (xs : List (List ℕ)) (i : ℕ) (x : List ℕ)
    → get_elem? xs i ≡ some x
    → get_elem? (pad_next xs) i ≡ some x
get_elem?-pad_next xs i x h = elim (Bool-cases (ltb 1 (length xs))) [
  | inl e ↦ rw e (get_elem?-pad_odd xs i x h)
  | inr e ↦ rw e h
]

module _ (sha : Sha256) where
  -- A step of `VerifyPath` along the text of a digest.
  fold_path-encode :
      (h s : List ℕ) (path : List (List ℕ)) (place : ℕ)
      → IsDigest s
      → fold_path sha h (encode s ∷ path) place
        ≡ fold_path sha (join (hash_pair sha) place h s) path (place / 2)
  unfolding fold_path
  fold_path-encode h s path place d = ground (arith, decode-encode s d.bytes)

  -- The part of the path that the loop adds leads from the node at this place to the single node
  -- above.
  abbrev Leads : ℕ → List (List ℕ) → ℕ → List (List ℕ) → List ℕ → List ℕ → Type 0
  Leads fuel hashes place path x r =
      (more : List (List ℕ)) × (path_levels sha fuel hashes place path ≡ path ++ more)
      × (fold_path sha x more place ≡ some r)

  path_levels-Leads :
      (fuel : ℕ) (hashes : List (List ℕ)) (place : ℕ) (path : List (List ℕ)) (x r : List ℕ)
      → length hashes ≤ fuel
      → IsLevel (length hashes)
      → All IsDigest hashes
      → get_elem? hashes place ≡ some x
      → Apex (hash_pair sha) hashes r
      → Leads fuel hashes place path x r
  unfolding path_levels
  path_levels-Leads fuel [] place path x r le lv ds e a = cc
  path_levels-Leads zero (y ∷ hashes) place path x r le lv ds e a = absurd (omega arith)
  path_levels-Leads (suc fuel) (y ∷ []) zero path x r le lv ds e a =
      ([], sym (append-nil path), unfold fold_path in cc (Apex-one (hash_pair sha) y))
  path_levels-Leads (suc fuel) (y ∷ []) (suc place) path x r le lv ds e a = cc
  path_levels-Leads (suc fuel) (y ∷ z ∷ hashes) place path x r le lv ds e a =
      let xs = y ∷ z ∷ hashes in
      let even : length xs % 2 ≡ 0 = omega arith in
      let whole = pad_odd_of_even xs even in
      let (s, padded_at, above) = parent (hash_pair sha) xs place x e in
      let at : get_elem? xs (sibling place) ≡ some s =
        subst (λ ys. get_elem? ys (sibling place) ≡ some s) whole padded_at in
      let next : pairs (hash_pair sha) xs ≡ up (hash_pair sha) xs =
        ap (pairs (hash_pair sha)) (sym whole) ∙ pairs-pad_odd (hash_pair sha) xs in
      let size = length-up (hash_pair sha) xs in
      let (level, fits, some_node) = length-pad_next (up (hash_pair sha) xs) (omega arith) in
      let (more, p, q) =
        path_levels-Leads fuel (pad_next (up (hash_pair sha) xs)) (place / 2)
          (path ++ encode s ∷ []) (join (hash_pair sha) place x s) r (ground arith) level
          (All-pad_next IsDigest (up (hash_pair sha) xs)
            (All-up IsDigest (hash_pair sha) (λ a b. sha.sum-IsDigest (a ++ b)) xs))
          (get_elem?-pad_next (up (hash_pair sha) xs) (place / 2) _ above)
          ((Apex-next sha xs (up (hash_pair sha) xs) r (omega arith) refl).1 a) in
      let big : ltb 1 (suc (suc (length hashes))) ≡ true = ground arith in
      (
        encode s ∷ more,
        rw (big, next, at) (p ∙ append_assoc path (encode s ∷ []) more),
        fold_path-encode x s more place (All-get_elem? IsDigest xs (sibling place) s ds at) ∙ q,
      )

  -- For every leaf of a list, `VerifyPath` accepts the leaf with the path that `GetPath` gives
  -- against the text that `Root` returns.
  pub verify_path-get_path :
      (leaves : List (List ℕ)) (idx : ℕ) (leaf : List ℕ)
      → get_elem? leaves idx ≡ some leaf
      → (text : List ℕ) × (root sha leaves ≡ done text)
        × (verify_path sha leaf (get_path sha leaves (pos idx)) text idx ≡ true)
  unfolding verify_path get_path
  verify_path-get_path leaves idx leaf e =
      let lt = get_elem?-lt leaves idx leaf e in
      let inside : leb (length leaves) idx ≡ false = ground arith in
      let (r, p, apex) = root-Apex sha leaves (λ q. omega (arith, ap length q)) in
      let (more, found, folded) =
        path_levels-Leads (suc (length leaves)) (map sha.sum (pad_odd leaves)) idx [] (sha.sum leaf)
          r (omega (arith, length-map sha.sum (pad_odd leaves), length-pad_odd leaves))
          (inr (omega (arith, length-map sha.sum (pad_odd leaves), length-pad_odd leaves)))
          (All-map IsDigest sha.sum sha.sum-IsDigest (pad_odd leaves))
          (get_elem?-map sha.sum (pad_odd leaves) idx leaf (get_elem?-pad_odd leaves idx leaf e))
          (subst (λ ys. Apex (hash_pair sha) ys r) (sym (map-pad_odd sha.sum leaves)) apex) in
      (encode r, p, rw (inside, found, folded, bytes_eq_refl (encode r)) refl)
