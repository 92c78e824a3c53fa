-- ===== src/Quorum/Intersection.antt =====
-- engine/internal/quorum: two quorums of one committee share signers.
use casper_prover.Prelude.{
  Distinct, among, ok, ℕ, suc, ◌+◌, ◌-◌, ◌/◌, ◌≤◌, ◌<◌, String, Bool, true, false, ◌&&◌, some, List,
  [], ◌∷◌, ◌≡◌, arith, refl, length, any, count, str_eq, if◌then◌else◌, Bool-cases, inl, inr, pos,
  All, sym, ap, ◌∙◌, eq_iff,
}
use mathlib.Core.Logic.{∥∥₁_elim}
use mathlib.Core.List.{Perm, Permᴰ}
use casper_prover.Prelude.Assoc.{lookup}
use casper_prover.Quorum.{Crypto, Registry, SignerRecord, is_active, active_count}
use casper_prover.Quorum.Verifier.{QuorumWitness, verify_quorum}
use casper_prover.Quorum.Threshold.{byzantine_overlap}
use casper_prover.Quorum.Witness.{IsActive, verified_quorum}

length-Permᴰ {ℓ} : {A : Type ℓ} {xs ys : List A} → Permᴰ xs ys → length xs ≡ length ys
length-Permᴰ Permᴰ.nil = refl
length-Permᴰ (Permᴰ.cons e h) = ap suc (length-Permᴰ h)
length-Permᴰ (Permᴰ.swap e f) = refl
length-Permᴰ (Permᴰ.trans h k) = length-Permᴰ h ∙ length-Permᴰ k

nat_set : IsSet ℕ
nat_set = hlevel

length-Perm {ℓ} : {A : Type ℓ} {xs ys : List A} → Perm xs ys → length xs ≡ length ys
length-Perm p = ∥∥₁_elim p (nat_set _ _) λ d. length-Permᴰ d

count-or :
    (x : String) (xs us : List String)
    → any (str_eq x) xs ≡ false
    → count (λ u. str_eq u x) us + count (among xs) us ≤ count (among (x ∷ xs)) us
count-or x xs [] h = omega arith
count-or x xs (u ∷ us) h = ground (arith, count-or x xs us h, eq_iff u x)

named : (x : String) (us : List String) → among us x ≡ true → 0 < count (λ u. str_eq u x) us
named x [] h = cc
named x (u ∷ us) h = ground (arith, named x us, eq_iff u x, eq_iff x u)

-- Distinct names among others are at most as many as the others that they name.
Distinct-fit :
    (xs us : List String)
    → Distinct xs
    → All (λ x. among us x ≡ true) xs
    → length xs ≤ count (among xs) us
Distinct-fit [] us d h = omega arith
Distinct-fit (x ∷ xs) us (apart, d) (h, hs) =
    omega (arith, Distinct-fit xs us d hs, count-or x xs us apart, named x us h)

count-both :
    (p q : String → Bool) (us : List String)
    → count p us + count q us ≤ length us + count (λ u. p u && q u) us
count-both p q [] = omega arith
count-both p q (u ∷ us) = ground (arith, count-both p q us)

module _ (c : Crypto) where
  open c use {G1, G2}

  -- The ids of the active signers.
  abbrev pub active_ids : Registry c → List String
  active_ids [] = []
  active_ids ((id, r) ∷ s) =
      let rest = active_ids s in if is_active r.status then id ∷ rest else rest

  length-active_ids : (s : Registry c) → length (active_ids s) ≡ active_count c s
  unfolding active_count
  length-active_ids [] = refl
  length-active_ids ((id, r) ∷ s) = ground (arith, length-active_ids s)

  active-among : (s : Registry c) (x : String) → IsActive c s x → among (active_ids s) x ≡ true
  unfolding lookup
  active-among [] x (r, q, a) = cc
  active-among ((id, r') ∷ s) x (r, q, a) = elim (Bool-cases (str_eq id x)) [
    | inl e ↦
        let one : r' ≡ r = cc (rw e at q) in
        let lit : is_active r'.status ≡ true =
          ap is_active (ap (λ (z : SignerRecord G2). z.status) one ∙ a) in
        rw lit (rw ((eq_iff x id).1 (sym ((eq_iff id x).0 e))) refl)
    | inr e ↦ let rest = active-among s x (r, (rw e at q), a) in ground (arith, rest)
  ]

  All-among :
      (s : Registry c) (xs : List String)
      → All (IsActive c s) xs
      → All (λ x. among (active_ids s) x ≡ true) xs
  All-among s [] h = tt
  All-among s (x ∷ xs) (h, hs) = (active-among s x h, All-among s xs hs)

  abbrev pub shared : QuorumWitness → QuorumWitness → String → Bool
  shared w v id = among w.signer_bitset id && among v.signer_bitset id

  -- Any two witnesses that `VerifyQuorum` returns at the default threshold for one registry, for
  -- whatever evidence, share more active signers than the committee tolerates faults.
  pub quorums_intersect :
      (reg : Registry c) (root root' : List ℕ) (bitset bitset' : List String) (sig sig' : G1)
      (now now' : ℕ) (w v : QuorumWitness)
      → verify_quorum c (some reg) root bitset (some sig) (pos 0) now ≡ ok w
      → verify_quorum c (some reg) root' bitset' (some sig') (pos 0) now' ≡ ok v
      → (active_count c reg - 1) / 3 < count (shared w v) (active_ids reg)
  quorums_intersect reg root root' bitset bitset' sig sig' now now' w v h h' =
      let (p, _, d, a, _, t, _) = verified_quorum c reg root bitset sig (pos 0) now w h in
      let (p', _, d', a', _, t', _) = verified_quorum c reg root' bitset' sig' (pos 0) now' v h' in
      let ids = active_ids reg in
      omega (
        arith,
        length-active_ids reg,
        length-Perm p,
        length-Perm p',
        t,
        t',
        Distinct-fit w.signer_bitset ids d (All-among reg w.signer_bitset a),
        Distinct-fit v.signer_bitset ids d' (All-among reg v.signer_bitset a'),
        count-both (among w.signer_bitset) (among v.signer_bitset) ids,
        byzantine_overlap (active_count c reg) (length bitset) (length bitset') t t',
      )
