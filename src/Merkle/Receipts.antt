-- ===== src/Merkle/Receipts.antt =====
-- engine/internal/prover/incremental.go, `AppendBatch` and `VerifyReceiptTransition`.
use mathlib.Core.Path.{subst}
use mathlib.Core.List.{map-append}
use casper_prover.Prelude.{
  ok, ℕ, suc, ◌≡◌, ◌≢◌, refl, ap, sym, true, false, Bool-cases, inl, inr, List, [], ◌∷◌, ◌++◌,
  arith, All, All-map, length-map, length-append, zero, ◌==◌, length,
}
use casper_prover.Hex.{bytes_eq, encode, decode-encode, bytes_eq_refl, encode-ne-nil}
use casper_prover.Merkle.Digest.{Sha256, IsDigest, hash_pair}
use casper_prover.Merkle.Levels.{pad_odd, up, ups}
use casper_prover.Merkle.Climb.{ceil_log2}
use casper_prover.Merkle.Padding.{All-pad_odd, All-up}
use casper_prover.Merkle.Tree
use casper_prover.Merkle.Tree.{done}
use casper_prover.Merkle.Incremental.{
  IncrementalMerkle, BatchReceipt, root, fold_in, append, append_all, append_batch, receipt, replay,
  verify_receipt_transition,
}
use casper_prover.Merkle.Accumulate.{Holds, root-Apex, append_all-Holds, root-Holds}
use casper_prover.Merkle.TreeRoot.{leaf_hashes}

module _ (sha : Sha256) where
  -- Replaying the texts of the leaf hashes does to the clone what appending did.
  replay-append_all :
      (m : IncrementalMerkle) (leaves : List (List ℕ))
      → replay sha m (append_all sha m leaves).1 ≡ ok (append_all sha m leaves).0
  unfolding replay append_all append
  replay-append_all m [] = refl
  replay-append_all m (leaf ∷ leaves) =
      let d = sha.sum-IsDigest leaf in
      ground (
        arith,
        decode-encode (sha.sum leaf) d.bytes,
        d.size,
        replay-append_all (fold_in sha m (sha.sum leaf)) leaves,
      )

  length-append_all :
      (m : IncrementalMerkle) (leaves : List (List ℕ))
      → length (append_all sha m leaves).1 ≡ length leaves
  unfolding append_all append
  length-append_all m [] = refl
  length-append_all m (leaf ∷ leaves) =
      ap suc (length-append_all (fold_in sha m (sha.sum leaf)) leaves)

  receipt_accepted :
      (m : IncrementalMerkle) (leaves : List (List ℕ))
      → verify_receipt_transition sha m (receipt sha m leaves (append_all sha m leaves)) ≡ ok true
  unfolding verify_receipt_transition
  receipt_accepted m leaves =
      let same : (length leaves == length leaves) ≡ true = ground arith in
      rw
        (
          length-append_all m leaves,
          same,
          bytes_eq_refl (root sha m),
          replay-append_all m leaves,
          bytes_eq_refl (root sha (append_all sha m leaves).0),
        )
        refl

  -- Every receipt that `AppendBatch` returns, `VerifyReceiptTransition` accepts against the
  -- accumulator as it was before the batch.
  pub verify-append_batch :
      (m m' : IncrementalMerkle) (leaves : List (List ℕ)) (rc : BatchReceipt)
      → append_batch sha m leaves ≡ (m', ok rc)
      → verify_receipt_transition sha m rc ≡ ok true
  unfolding append_batch
  verify-append_batch m m' [] rc h = cc
  verify-append_batch m m' (leaf ∷ leaves) rc h =
      elim (Bool-cases (bytes_eq (root sha (append_all sha m (leaf ∷ leaves)).0) [])) [
        | inl e ↦ cc (rw e at h)
        | inr e ↦
            let q : receipt sha m (leaf ∷ leaves) (append_all sha m (leaf ∷ leaves)) ≡ rc =
              cc (rw e at h) in
            subst (λ r. verify_receipt_transition sha m r ≡ ok true) q
              (receipt_accepted m (leaf ∷ leaves))
      ]

  text_ne_nil : (r : List ℕ) → length r ≡ 32 → bytes_eq (encode r) [] ≡ false
  text_ne_nil [] h = absurd (omega arith)
  text_ne_nil (b ∷ bs) h = encode-ne-nil b bs

  All-ups : (k : ℕ) (xs : List (List ℕ)) → All IsDigest xs → All IsDigest (ups (hash_pair sha) k xs)
  unfolding ups
  All-ups zero xs d = d
  All-ups (suc k) xs d =
      All-ups k (up (hash_pair sha) xs)
        (All-up IsDigest (hash_pair sha) (λ a b. sha.sum-IsDigest (a ++ b)) xs)

  -- The root of an accumulator that holds a leaf is not the empty text.
  root-ne-nil :
      (m : IncrementalMerkle) (leaves : List (List ℕ))
      → Holds sha m (leaf_hashes sha leaves)
      → leaf_hashes sha leaves ≢ []
      → bytes_eq (root sha m) [] ≡ false
  root-ne-nil m leaves w ne =
      let (r, p, a) = root-Apex sha m (leaf_hashes sha leaves) w ne in
      let padded = pad_odd (leaf_hashes sha leaves) in
      let digests : All IsDigest padded =
        All-pad_odd IsDigest (leaf_hashes sha leaves)
          (All-map IsDigest sha.sum sha.sum-IsDigest leaves) in
      let d : All IsDigest (r ∷ []) =
        subst (All IsDigest) a (All-ups (ceil_log2 (length padded)) padded digests) in
      rw p (text_ne_nil r d.0.size)

  -- On an accumulator that holds some leaves, `AppendBatch` of a batch that is not empty succeeds;
  -- its receipt goes from the root of those leaves to the root of those leaves and the batch.
  pub append_batch-ok :
      (m : IncrementalMerkle) (before : List (List ℕ)) (leaf : List ℕ) (leaves : List (List ℕ))
      → Holds sha m (leaf_hashes sha before)
      → (m' : IncrementalMerkle) × (rc : BatchReceipt) × (append_batch sha m (leaf ∷ leaves)
          ≡ (m', ok rc))
        × (Tree.root sha before ≡ done rc.prev_root)
        × (Tree.root sha (before ++ leaf ∷ leaves) ≡ done rc.new_root)
        × (rc.start_index ≡ length before)
  unfolding append_batch
  append_batch-ok m before leaf leaves w =
      let after = append_all sha m (leaf ∷ leaves) in
      let all_of_them : leaf_hashes sha before ++ leaf_hashes sha (leaf ∷ leaves)
          ≡ leaf_hashes sha (before ++ leaf ∷ leaves) =
        sym (map-append sha.sum before (leaf ∷ leaves)) in
      let held : Holds sha after.0 (leaf_hashes sha (before ++ leaf ∷ leaves)) =
        subst (Holds sha after.0) all_of_them
          (append_all-Holds sha m (leaf_hashes sha before) (leaf ∷ leaves) w) in
      let long : leaf_hashes sha (before ++ leaf ∷ leaves) ≢ [] = λ e. omega (
        arith,
        ap length e,
        length-map sha.sum (before ++ leaf ∷ leaves),
        length-append before (leaf ∷ leaves),
      ) in
      (
        after.0,
        receipt sha m (leaf ∷ leaves) after,
        rw (root-ne-nil after.0 (before ++ leaf ∷ leaves) held long) refl,
        root-Holds sha m before w,
        root-Holds sha after.0 (before ++ leaf ∷ leaves) held,
        omega (arith, w.size, length-map sha.sum before),
      )
