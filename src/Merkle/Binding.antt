-- ===== src/Merkle/Binding.antt =====
-- engine/internal/prover/merkle.go, `VerifyPath`: what an accepted path proves.
use mathlib.Core.Path.{subst}
use casper_prover.Prelude.{
  ℕ, ◌/◌, ◌%◌, ◌≡◌, ◌≢◌, ◌⊎◌, if◌then◌else◌, inl, inr, refl, ap, sym, ◌∙◌, true, List, [], ◌∷◌,
  ◌++◌, Option, none, some, arith, ◌==◌, length, Bool-cases, Option-cases,
}
use casper_prover.Hex.{bytes_eq, encode, decode, decode-encode, bytes_eq_sound, bytes_eq_refl}
use casper_prover.Merkle.Digest.{Sha256, IsDigest, hash_pair}
use casper_prover.Merkle.Levels.{join}
use casper_prover.Merkle.Tree.{fold_path, matches, verify_path}

append_inj {ℓ} :
    {A : Type ℓ} (xs ys us vs : List A)
    → length xs ≡ length ys
    → xs ++ us ≡ ys ++ vs
    → (xs ≡ ys) × (us ≡ vs)
append_inj [] [] us vs l e = (refl, e)
append_inj [] (y ∷ ys) us vs l e = absurd (omega arith)
append_inj (x ∷ xs) [] us vs l e = absurd (omega arith)
append_inj (x ∷ xs) (y ∷ ys) us vs l e =
    let (p, q) = append_inj xs ys us vs (omega arith) (cc) in (cc, q)

encode-injective : (r s : List ℕ) → IsDigest r → IsDigest s → encode r ≡ encode s → r ≡ s
encode-injective r s d d' e = cc (ap decode e, decode-encode r d.bytes, decode-encode s d'.bytes)

module _ (sha : Sha256) where
  -- What a step of `VerifyPath` hashes: the node and its sibling, the left one first.
  abbrev pub joined : ℕ → List ℕ → List ℕ → List ℕ
  joined place h s = if place % 2 == 0 then h ++ s else s ++ h

  -- The inputs hashed on the way up from a node.
  unfoldable pub hashed_above : List ℕ → List (List ℕ) → ℕ → List (List ℕ)
  hashed_above h [] place = []
  hashed_above h (sib ∷ path) place = elim (decode sib) [
    | none ↦ []
    | some s ↦ joined place h s ∷ hashed_above (sha.sum (joined place h s)) path (place / 2)
  ]

  -- All the inputs that `VerifyPath` hashes for a leaf, the leaf first.
  abbrev pub hashed : List ℕ → List (List ℕ) → ℕ → List (List ℕ)
  hashed leaf path idx = leaf ∷ hashed_above (sha.sum leaf) path idx

  -- At one place of the two lists stand different inputs with one digest.
  abbrev pub Collides : List (List ℕ) → List (List ℕ) → Type 0
  Collides [] ys = ⊥
  Collides (x ∷ xs) [] = ⊥
  Collides (x ∷ xs) (y ∷ ys) = ((x ≢ y) × (sha.sum x ≡ sha.sum y)) ⊎ Collides xs ys

  -- Two inputs with one digest are equal, or they collide.
  same_or_differ :
      (x y : List ℕ) → sha.sum x ≡ sha.sum y → (x ≡ y) ⊎ ((x ≢ y) × (sha.sum x ≡ sha.sum y))
  same_or_differ x y e = elim (Bool-cases (bytes_eq x y)) [
    | inl q ↦ inl (bytes_eq_sound x y q)
    | inr q ↦ inr (λ p. cc (q, ap (bytes_eq x) p, bytes_eq_refl x), e)
  ]

  join-joined :
      (place : ℕ) (h s : List ℕ) → join (hash_pair sha) place h s ≡ sha.sum (joined place h s)
  join-joined place h s = ground arith

  joined_same :
      (place : ℕ) (h s h' s' : List ℕ)
      → length h ≡ length h'
      → length s ≡ length s'
      → joined place h s ≡ joined place h' s'
      → h ≡ h'
  joined_same place h s h' s' l l' e = elim (Bool-cases (place % 2 == 0)) [
    | inl q ↦ (append_inj h h' s s' l (rw q at e)).0
    | inr q ↦ (append_inj s s' h h' l' (rw q at e)).1
  ]

  join-IsDigest : (place : ℕ) (h s : List ℕ) → IsDigest (join (hash_pair sha) place h s)
  join-IsDigest place h s = elim (Bool-cases (place % 2 == 0)) [
    | inl q ↦ rw q (sha.sum-IsDigest (h ++ s))
    | inr q ↦ rw q (sha.sum-IsDigest (s ++ h))
  ]

  -- A step of an accepted path reads a sibling of 32 bytes.
  fold_path_step :
      (h sib : List ℕ) (path : List (List ℕ)) (place : ℕ) (r : List ℕ)
      → fold_path sha h (sib ∷ path) place ≡ some r
      → (s : List ℕ) × (length s ≡ 32)
        × (decode sib ≡ some s)
        × (fold_path sha (join (hash_pair sha) place h s) path (place / 2) ≡ some r)
  unfolding fold_path
  fold_path_step h sib path place r e = elim (Option-cases (decode sib)) [
    | inl p ↦ absurd (ground arith)
    | inr (b, p) ↦ (b, ground arith, p, ground arith)
  ]

  fold_path-IsDigest :
      (h : List ℕ) (path : List (List ℕ)) (place : ℕ) (r : List ℕ)
      → IsDigest h
      → fold_path sha h path place ≡ some r
      → IsDigest r
  unfolding fold_path
  fold_path-IsDigest h [] place r d e = let q : h ≡ r = cc in subst IsDigest q d
  fold_path-IsDigest h (sib ∷ path) place r d e =
      let (s, l, _, e') = fold_path_step h sib path place r e in
      fold_path-IsDigest (join (hash_pair sha) place h s) path (place / 2) r
        (join-IsDigest place h s) e'

  hashed_above-cons :
      (h sib s : List ℕ) (path : List (List ℕ)) (place : ℕ)
      → decode sib ≡ some s
      → hashed_above h (sib ∷ path) place
        ≡ joined place h s ∷ hashed_above (join (hash_pair sha) place h s) path (place / 2)
  unfolding hashed_above
  hashed_above-cons h sib s path place e =
      rw (e, hashed_above)
        (ap (λ (x : List ℕ). joined place h s ∷ hashed_above x path (place / 2))
          (sym (join-joined place h s)))

  fold_path-binding :
      (h h' : List ℕ) (path path' : List (List ℕ)) (place : ℕ) (r : List ℕ)
      → IsDigest h
      → IsDigest h'
      → length path ≡ length path'
      → fold_path sha h path place ≡ some r
      → fold_path sha h' path' place ≡ some r
      → (h ≡ h') ⊎ Collides (hashed_above h path place) (hashed_above h' path' place)
  unfolding fold_path
  fold_path-binding h h' [] [] place r d d' l e e' = inl (cc)
  fold_path-binding h h' [] (t ∷ path') place r d d' l e e' = absurd (omega arith)
  fold_path-binding h h' (s ∷ path) [] place r d d' l e e' = absurd (omega arith)
  fold_path-binding h h' (sib ∷ path) (sib' ∷ path') place r d d' l e e' =
      let (s, k, p, f) = fold_path_step h sib path place r e in
      let (s', k', p', f') = fold_path_step h' sib' path' place r e' in
      let above = join (hash_pair sha) place in
      rw (hashed_above-cons h sib s path place p, hashed_above-cons h' sib' s' path' place p')
        (elim (fold_path-binding (above h s) (above h' s') path path' (place / 2) r
          (join-IsDigest place h s) (join-IsDigest place h' s') (omega arith) f f') [
            | inr c ↦ inr (inr c)
            | inl q ↦
                elim (same_or_differ (joined place h s) (joined place h' s')
                  (sym (join-joined place h s) ∙ q ∙ join-joined place h' s')) [
                    | inl j ↦
                        inl (joined_same place h s h' s' (d.size ∙ sym d'.size) (k ∙ sym k') j)
                    | inr c ↦ inr (inl c)
                  ]
          ])

  matches-some :
      (o : Option (List ℕ)) (text : List ℕ)
      → matches o text ≡ true
      → (r : List ℕ) × (o ≡ some r) × (encode r ≡ text)
  matches-some none text h = cc
  matches-some (some r) text h = (r, refl, bytes_eq_sound (encode r) text h)

  -- Two leaves that `VerifyPath` accepts at one index against one root, by paths of one length,
  -- are the same leaf, or at some height of the two checks different inputs were hashed to one digest.
  pub verify_path-binding :
      (leaf leaf' : List ℕ) (path path' : List (List ℕ)) (text : List ℕ) (idx : ℕ)
      → length path ≡ length path'
      → verify_path sha leaf path text idx ≡ true
      → verify_path sha leaf' path' text idx ≡ true
      → (leaf ≡ leaf') ⊎ Collides (hashed leaf path idx) (hashed leaf' path' idx)
  unfolding verify_path
  verify_path-binding leaf leaf' path path' text idx l h h' =
      let (r, f, t) = matches-some (fold_path sha (sha.sum leaf) path idx) text h in
      let (r', f', t') = matches-some (fold_path sha (sha.sum leaf') path' idx) text h' in
      let d = sha.sum-IsDigest leaf in
      let d' = sha.sum-IsDigest leaf' in
      let same : r ≡ r' =
        encode-injective r r' (fold_path-IsDigest (sha.sum leaf) path idx r d f)
          (fold_path-IsDigest (sha.sum leaf') path' idx r' d' f') (t ∙ sym t') in
      elim (fold_path-binding (sha.sum leaf) (sha.sum leaf') path path' idx r d d' l f
        (f' ∙ ap (λ (w : List ℕ). some w) (sym same))) [
          | inl q ↦ elim (same_or_differ leaf leaf' q) [ inl p ↦ inl p | inr c ↦ inr (inl c) ]
          | inr c ↦ inr (inr c)
        ]
