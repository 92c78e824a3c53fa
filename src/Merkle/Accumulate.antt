-- ===== src/Merkle/Accumulate.antt =====
-- engine/internal/prover/incremental.go, `Root`: the accumulator's root is the tree's.
use mathlib.Core.List.{append_assoc, append-nil}
use mathlib.Core.Path.{subst}
use casper_prover.Prelude.{
  ℕ, ◌+◌, ◌-◌, ◌≤◌, ◌≡◌, ◌≢◌, refl, ap, sym, ◌∙◌, true, false, List, [], ◌∷◌, ◌++◌, none, some,
  arith, ◌==◌, length, length-append,
}
use casper_prover.Hex.{encode}
use casper_prover.Merkle.Digest.{Sha256, hash_pair}
use casper_prover.Merkle.Levels.{pad_odd, up, ups, self_up}
use casper_prover.Merkle.Climb.{ceil_log2, ceil_log2-half, ceil_log2-one, Apex, Apex-pad_odd}
use casper_prover.Merkle.Tree
use casper_prover.Merkle.Tree.{done}
use casper_prover.Merkle.TreeRoot
use casper_prover.Merkle.TreeRoot.{leaf_hashes}
use casper_prover.Merkle.Incremental.{
  IncrementalMerkle, new, fold_in, append, append_all, root, collect, target_level,
}
use casper_prover.Merkle.Frontier.{Rep, fold_slots-Rep}
use casper_prover.Merkle.Collect.{raise-some, collect-Collected}

module _ (sha : Sha256) where
  -- An accumulator that holds these leaf hashes.
  pub record Holds (m : IncrementalMerkle) (hashes : List (List ℕ)) : Type 0 where
    pub frontier : Rep sha m.frontier hashes
    pub size : m.size ≡ length hashes

  pub new-Holds : Holds new []
  new-Holds = record { frontier = refl; size = refl }

  pub fold_in-Holds :
      (m : IncrementalMerkle) (hashes : List (List ℕ)) (h : List ℕ)
      → Holds m hashes
      → Holds (fold_in sha m h) (hashes ++ h ∷ [])
  unfolding fold_in
  fold_in-Holds m hashes h w = record {
    frontier = fold_slots-Rep sha m.frontier hashes h w.frontier;
    size = omega (arith, w.size, length-append hashes (h ∷ []));
  }

  root_of_collected :
      (m : IncrementalMerkle) (c : List ℕ) (cl target : ℕ)
      → 1 ≤ m.size
      → collect sha 0 m.frontier none ≡ some (c, cl)
      → target_level sha m.size ≡ target
      → cl ≤ target
      → root sha m ≡ encode (self_up (hash_pair sha) (target - cl) c)
  unfolding root
  root_of_collected m c cl target some_leaf e t le =
      let nonzero : (m.size == 0) ≡ false = ground arith in
      rw (nonzero, e, t, raise-some sha target c cl le)

  one_leaf :
      (x c : List ℕ) (cl : ℕ)
      → cl ≡ 0
      → Apex (hash_pair sha) (x ∷ []) (self_up (hash_pair sha) (0 + ceil_log2 1 - cl) c)
      → Apex (hash_pair sha) (pad_odd (x ∷ [])) (self_up (hash_pair sha) (1 - cl) c)
  unfolding self_up ups up pad_odd ceil_log2
  one_leaf x c cl zero_level a =
      subst (λ k. ups (hash_pair sha) 1 (x ∷ x ∷ []) ≡ self_up (hash_pair sha) (1 - k) c ∷ [])
        (sym zero_level)
        (ap (up (hash_pair sha))
          (subst (λ k. x ∷ [] ≡ self_up (hash_pair sha) (0 - k) c ∷ []) zero_level a))

  -- The accumulator's root is the text of the single node above its padded leaf hashes.
  pub root-Apex :
      (m : IncrementalMerkle) (hashes : List (List ℕ))
      → Holds m hashes
      → hashes ≢ []
      → (r : List ℕ) × (root sha m ≡ encode r) × Apex (hash_pair sha) (pad_odd hashes) r
  root-Apex m [] w ne = absurd (ne refl)
  root-Apex m (x ∷ []) w ne =
      let (c, cl, e, le, a) =
        collect-Collected sha m.frontier 0 none (x ∷ []) (x ∷ []) w.frontier refl (omega arith) in
      let one : target_level sha m.size ≡ 1 = ground (arith, ap ceil_log2 w.size, ceil_log2-one) in
      (
        self_up (hash_pair sha) (1 - cl) c,
        root_of_collected m c cl 1 (omega (arith, w.size)) e one (omega (arith, ceil_log2-one)),
        one_leaf x c cl (omega (arith, ceil_log2-one)) a,
      )
  root-Apex m (x ∷ y ∷ hashes) w ne =
      let zs = x ∷ y ∷ hashes in
      let (c, cl, e, le, a) =
        collect-Collected sha m.frontier 0 none zs zs w.frontier refl (omega arith) in
      let half = ceil_log2-half (length zs) (omega arith) in
      let top : target_level sha m.size ≡ 0 + ceil_log2 (length zs) =
        ground (arith, ap ceil_log2 w.size, half) in
      (
        self_up (hash_pair sha) (0 + ceil_log2 (length zs) - cl) c,
        root_of_collected m c cl (0 + ceil_log2 (length zs)) (omega (arith, w.size)) e top le,
        (Apex-pad_odd (hash_pair sha) zs _ (omega arith)).1 a,
      )

  -- Appending leaves adds their hashes, in order.
  pub append_all-Holds :
      (m : IncrementalMerkle) (hashes leaves : List (List ℕ))
      → Holds m hashes
      → Holds (append_all sha m leaves).0 (hashes ++ leaf_hashes sha leaves)
  unfolding append_all append
  append_all-Holds m hashes [] w = rw append-nil w
  append_all-Holds m hashes (leaf ∷ leaves) w =
      subst (Holds (append_all sha (fold_in sha m (sha.sum leaf)) leaves).0)
        (append_assoc hashes (sha.sum leaf ∷ []) (leaf_hashes sha leaves))
        (append_all-Holds (fold_in sha m (sha.sum leaf)) (hashes ++ sha.sum leaf ∷ []) leaves
          (fold_in-Holds m hashes (sha.sum leaf) w))

  pub append_all-new :
      (leaves : List (List ℕ)) → Holds (append_all sha new leaves).0 (leaf_hashes sha leaves)
  append_all-new leaves = append_all-Holds new [] leaves new-Holds

  pub root-Holds :
      (m : IncrementalMerkle) (leaves : List (List ℕ))
      → Holds m (leaf_hashes sha leaves)
      → Tree.root sha leaves ≡ done (root sha m)
  root-Holds m [] w =
      let empty : (m.size == 0) ≡ true = ground (arith, w.size) in unfold Tree.root root in rw empty
  root-Holds m (l ∷ ls) w =
      let (r, p, a) = root-Apex m (leaf_hashes sha (l ∷ ls)) w (λ e. cc) in
      let (r', p', a') = TreeRoot.root-Apex sha (l ∷ ls) (λ e. cc) in
      let same : r ≡ r' = cc (a, a') in
      p' ∙ ap (λ (t : List ℕ). done (encode t)) (sym same) ∙ ap (λ (t : List ℕ). done t) (sym p)

  -- Appending leaves one by one to an empty accumulator gives the root that `Root` gives for the
  -- whole list of leaves, whatever its length.
  pub root-append_all :
      (leaves : List (List ℕ))
      → Tree.root sha leaves ≡ done (root sha (append_all sha new leaves).0)
  root-append_all leaves = root-Holds (append_all sha new leaves).0 leaves (append_all-new leaves)
