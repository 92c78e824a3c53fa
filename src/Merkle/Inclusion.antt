-- ===== src/Merkle/Inclusion.antt =====
-- engine/internal/aggregator/merkle_recursion.go: inclusion proofs of the aggregate's own leaves
-- are accepted, and what an accepted proof leaves open.
use mathlib.Core.Path.{subst}
use casper_prover.Prelude.{
  ok, succeeds_through, ℕ, zero, suc, ◌+◌, ◌/◌, ◌≤◌, ◌<◌, ◌≡◌, ◌≢◌, refl, ap, sym, ◌∙◌, Bool, true,
  false, List, [], ◌∷◌, ◌++◌, some, arith, ltb, leb, eq_refl, length, get_elem?, get_elem?-some,
  All, pos,
}
use casper_prover.Hex.{encode, decode-encode, bytes_eq_refl}
use casper_prover.Merkle.Digest.{Sha256, IsDigest}
use casper_prover.Merkle.Levels.{pad_odd, up, sibling, join, length-up, pairs-pad_odd, parent}
use casper_prover.Merkle.Padding.{All-pad_odd, All-up, All-get_elem?}
use casper_prover.Merkle.Climb.{
  ceil_log2, ceil_log2-half, ceil_log2-one, Apex, Apex-up, Apex-one, apex,
}
use casper_prover.Merkle.Recursion.{
  MerkleRecursionProof, MerkleInclusionProof, scheme_v1, tagged_leaf, tagged_node, hash_leaves,
  compact, climb, aggregate_merkle_recursion, is_right, sibling_index, collect_path,
  build_inclusion_proof, decode_digest, combine, fold_inclusion, verify_merkle_inclusion,
}

abbrev aggregate : ℕ → ℕ → List ℕ → MerkleRecursionProof
aggregate count height r = record {
  scheme = scheme_v1;
  count = count;
  tree_height = height;
  root_hex = encode r;
}

module _ (sha : Sha256) where
  compact-up : (level : List (List ℕ)) → compact sha level ≡ up (tagged_node sha) level
  compact-up level = pairs-pad_odd (tagged_node sha) level

  -- The loop returns the single node above, and the number of levels climbed.
  climb-Apex :
      (fuel height : ℕ) (level : List (List ℕ)) (r : List ℕ)
      → length level ≤ fuel
      → level ≢ []
      → Apex (tagged_node sha) level r
      → climb sha fuel height level ≡ ok (r, height + ceil_log2 (length level))
  unfolding climb
  climb-Apex fuel height [] r le ne a = absurd (ne refl)
  climb-Apex zero height (x ∷ level) r le ne a = absurd (omega arith)
  climb-Apex (suc fuel) height (x ∷ []) r le ne a =
      let same : x ∷ [] ≡ r ∷ [] = sym (Apex-one (tagged_node sha) x) ∙ a in
      let q : x ≡ r = cc in
      let n : height ≡ height + ceil_log2 1 = omega (arith, ceil_log2-one) in cc
  climb-Apex (suc fuel) height (x ∷ y ∷ level) r le ne a =
      let zs = x ∷ y ∷ level in
      let big : ltb 1 (suc (suc (length level))) ≡ true = ground arith in
      let size = length-up (tagged_node sha) zs in
      let n : height + 1 + ceil_log2 (length (up (tagged_node sha) zs))
          ≡ height + ceil_log2 (length zs) =
        omega (arith, ap ceil_log2 size, ceil_log2-half (length zs) (omega arith)) in
      rw (big, compact-up zs)
        (climb-Apex fuel (height + 1) (up (tagged_node sha) zs) r (omega (arith, size))
            (λ e. omega (arith, size, ap length e))
            ((Apex-up (tagged_node sha) zs r (omega arith)).0 a)
          ∙ ap (λ (k : ℕ). ok (r, k)) n)

  sides :
      (cursor : ℕ) (x s : List ℕ)
      → combine sha (is_right sha cursor) x s ≡ join (tagged_node sha) cursor x s
  sides cursor x s = ground arith

  sibling_same : (cursor : ℕ) → sibling_index sha cursor ≡ sibling cursor
  unfolding sibling
  sibling_same cursor = ground arith

  decode_digest-encode : (d : List ℕ) → IsDigest d → decode_digest sha (encode d) ≡ some d
  unfolding decode_digest
  decode_digest-encode d w = ground (arith, decode-encode d w.bytes, w.size)

  fold_inclusion-encode :
      (i : ℕ) (acc s : List ℕ) (path : List (List ℕ)) (positions : List Bool) (right : Bool)
      → IsDigest s
      → fold_inclusion sha i acc (encode s ∷ path) (right ∷ positions)
        ≡ fold_inclusion sha (i + 1) (combine sha right acc s) path positions
  unfolding fold_inclusion
  fold_inclusion-encode i acc s path positions right d = ground (arith, decode_digest-encode s d)

  -- A path that leads from a node to the single node above.
  abbrev Leads : ℕ → List (List ℕ) → ℕ → List ℕ → List ℕ → Type 0
  Leads fuel level cursor x r =
      (path : List (List ℕ)) × (positions : List Bool) × (collect_path sha fuel level cursor
        ≡ ok (path, positions))
      × (length path ≡ ceil_log2 (length level))
      × (length positions ≡ ceil_log2 (length level))
      × ((i : ℕ) → fold_inclusion sha i x path positions ≡ ok r)

  collect_path-Leads :
      (fuel : ℕ) (level : List (List ℕ)) (cursor : ℕ) (x r : List ℕ)
      → length level ≤ fuel
      → All IsDigest level
      → get_elem? level cursor ≡ some x
      → Apex (tagged_node sha) level r
      → Leads fuel level cursor x r
  unfolding collect_path fold_inclusion
  collect_path-Leads fuel [] cursor x r le ds e a = cc
  collect_path-Leads zero (y ∷ level) cursor x r le ds e a = absurd (omega arith)
  collect_path-Leads (suc fuel) (y ∷ []) (suc cursor) x r le ds e a = cc
  collect_path-Leads (suc fuel) (y ∷ []) zero x r le ds e a =
      let same : y ∷ [] ≡ r ∷ [] = sym (Apex-one (tagged_node sha) y) ∙ a in
      ([], [], refl, omega (arith, ceil_log2-one), omega (arith, ceil_log2-one), λ i. cc)
  collect_path-Leads (suc fuel) (y ∷ z ∷ level) cursor x r le ds e a =
      let zs = y ∷ z ∷ level in
      let big : ltb 1 (suc (suc (length level))) ≡ true = ground arith in
      let size = length-up (tagged_node sha) zs in
      let half : ceil_log2 (length zs) ≡ suc (ceil_log2 (length (up (tagged_node sha) zs))) =
        omega (arith, ap ceil_log2 size, ceil_log2-half (length zs) (omega arith)) in
      let (s, padded_at, above) = parent (tagged_node sha) zs cursor x e in
      let (path, positions, p, n, m, f) =
        collect_path-Leads fuel (up (tagged_node sha) zs) (cursor / 2)
          (join (tagged_node sha) cursor x s) r (omega (arith, size))
          (All-up IsDigest (tagged_node sha) (λ l r. sha.sum-IsDigest (1 ∷ l ++ r)) zs) above
          ((Apex-up (tagged_node sha) zs r (omega arith)).0 a) in
      let d =
        All-get_elem? IsDigest (pad_odd zs) (sibling cursor) s (All-pad_odd IsDigest zs ds)
          padded_at in
      (
        encode s ∷ path,
        is_right sha cursor ∷ positions,
        rw (big, compact-up zs, p, sibling_same cursor, padded_at) refl,
        omega (arith, n, half),
        omega (arith, m, half),
        λ i.
            fold_inclusion-encode i x s path positions (is_right sha cursor) d
            ∙ rw (sides cursor x s) (f (i + 1)),
      )

  hash_leaves-digests :
      (i : ℕ) (leaves level : List (List ℕ))
      → hash_leaves sha i leaves ≡ ok level
      → All IsDigest level × (length level ≡ length leaves)
  unfolding hash_leaves
  hash_leaves-digests i [] level h =
      let q : [] ≡ level = cc in subst (λ l. All IsDigest l × (length l ≡ 0)) q (tt, refl)
  hash_leaves-digests i ([] ∷ leaves) level h = cc
  hash_leaves-digests i ((b ∷ bs) ∷ leaves) level h =
      let (rest, p, q) = succeeds_through (hash_leaves sha (i + 1) leaves) _ h in
      let e : tagged_leaf sha (b ∷ bs) ∷ rest ≡ level = cc in
      let (ds, n) = hash_leaves-digests (i + 1) leaves rest p in
      subst (λ l. All IsDigest l × (length l ≡ suc (length leaves))) e
        ((sha.sum-IsDigest (0 ∷ b ∷ bs), ds), ap suc n)

  -- An inclusion proof that meets every test.
  accepted :
      (count height idx : ℕ) (path : List (List ℕ)) (positions : List Bool) (x r : List ℕ)
      → idx < count
      → length path ≡ height
      → length positions ≡ height
      → IsDigest x
      → fold_inclusion sha 0 x path positions ≡ ok r
      → verify_merkle_inclusion sha
          (record { scheme = scheme_v1; count = count; tree_height = height; root_hex = encode r })
          (record { leaf_index = pos idx; leaf_hex = encode x; path = path; positions = positions })
        ≡ ok true
  unfolding verify_merkle_inclusion
  accepted count height idx path positions x r lt n m d f =
      ground (arith, eq_refl scheme_v1, decode_digest-encode x d, bytes_eq_refl (encode r))

  abbrev Accepts : MerkleInclusionProof → MerkleRecursionProof → Type 0
  Accepts proof agg = verify_merkle_inclusion sha agg proof ≡ ok true

  built :
      (leaves level : List (List ℕ)) (idx : ℕ) (path : List (List ℕ)) (positions : List Bool)
      (x : List ℕ)
      → leb (length leaves) idx ≡ false
      → hash_leaves sha 0 leaves ≡ ok level
      → collect_path sha (suc (length leaves)) level idx ≡ ok (path, positions)
      → get_elem? level idx ≡ some x
      → build_inclusion_proof sha leaves (pos idx)
        ≡ ok (record {
          leaf_index = pos idx;
          leaf_hex = encode x;
          path = path;
          positions = positions;
        })
  unfolding build_inclusion_proof
  built leaves level idx path positions x inside p c e = rw (inside, p, c, e) refl

  -- For any leaves that are aggregated and any index among them, `BuildInclusionProof` returns a
  -- proof, and `VerifyMerkleInclusion` accepts it against the aggregate.
  pub verify-build :
      (leaves : List (List ℕ)) (agg : MerkleRecursionProof) (idx : ℕ)
      → aggregate_merkle_recursion sha leaves ≡ ok agg
      → idx < length leaves
      → (proof : MerkleInclusionProof) × (build_inclusion_proof sha leaves (pos idx) ≡ ok proof)
        × (verify_merkle_inclusion sha agg proof ≡ ok true)
  unfolding aggregate_merkle_recursion
  verify-build [] agg idx h lt = cc
  verify-build (l ∷ ls) agg idx h lt =
      let (level, p, h') = succeeds_through (hash_leaves sha 0 (l ∷ ls)) _ h in
      let (ds, size) = hash_leaves-digests 0 (l ∷ ls) level p in
      let full : level ≢ [] = λ e. omega (arith, size, ap length e) in
      let (r, a) = apex (tagged_node sha) level full in
      let climbed = climb-Apex (suc (length (l ∷ ls))) 0 level r (omega (arith, size)) full a in
      let height = 0 + ceil_log2 (length level) in
      let q : aggregate (length (l ∷ ls)) height r ≡ agg = cc (rw climbed at h') in
      let (x, e) = get_elem?-some level idx (omega (arith, size)) in
      let (path, positions, c, n, m, f) =
        collect_path-Leads (suc (length (l ∷ ls))) level idx x r (omega (arith, size)) ds e a in
      let inside : leb (suc (length ls)) idx ≡ false = ground arith in
      (
        record { leaf_index = pos idx; leaf_hex = encode x; path = path; positions = positions },
        built (l ∷ ls) level idx path positions x inside p c e,
        subst
            (Accepts (record {
              leaf_index = pos idx;
              leaf_hex = encode x;
              path = path;
              positions = positions;
            }))
            q
            (accepted (length (l ∷ ls)) height idx path positions x r lt (omega (arith, n))
              (omega (arith, m)) (All-get_elem? IsDigest level idx x ds e) (f 0)),
      )

  -- `VerifyMerkleInclusion` does not tie the sides to the index: an accepted proof is accepted
  -- under every other index below the count.
  pub leaf_index_unbound :
      (agg : MerkleRecursionProof) (proof : MerkleInclusionProof) (j : ℕ)
      → verify_merkle_inclusion sha agg proof ≡ ok true
      → j < agg.count
      → verify_merkle_inclusion sha agg (record proof { leaf_index = pos j }) ≡ ok true
  unfolding verify_merkle_inclusion
  leaf_index_unbound agg proof j h lt = ground arith
