-- ===== src/Quorum/Witness.antt =====
-- engine/internal/quorum/verifier.go: what a witness of `VerifyQuorum` stands for.
use mathlib.Core.Path.{subst}
use mathlib.Core.List.{Perm}
use casper_prover.Prelude.{
  Distinct, ok, succeeds_through, ℕ, ◌≤◌, String, Bool, true, false, some, List, [], ◌∷◌, ◌≡◌,
  arith, refl, length, any, str_eq, ltb, Bool-cases, inl, inr, Option-cases, ℤ, All, ap, ◌∙◌,
  eq_iff,
}
use casper_prover.Prelude.Assoc.{lookup}
use casper_prover.Prelude.Sort.{sort-perm, str_ltb}
use casper_prover.Prelude.Ascending.{Ascending, sort-Ascending}
use casper_prover.Quorum.{
  Crypto, Registry, SignerRecord, active, active_count, active_key, active_pub_keys, key_of,
  aggregate_pub_keys, verify,
}
use casper_prover.Quorum.Verifier.{
  QuorumWitness, effective_threshold, check_quorum, verify_quorum, sort_signer_ids, witness,
}

fresh :
    (x : String) (seen ids : List String)
    → All (λ j. any (str_eq j) (x ∷ seen) ≡ false) ids
    → (any (str_eq x) ids ≡ false) × All (λ j. any (str_eq j) seen ≡ false) ids
fresh x seen [] h = (refl, tt)
fresh x seen (j ∷ ids) (h, hs) =
    let (apart, old) = fresh x seen ids hs in
    (ground (arith, eq_iff x j, eq_iff j x), (ground arith, old))

module _ (c : Crypto) where
  open c use {G1, G2}

  abbrev pub IsActive : Registry c → String → Type 0
  IsActive reg id = (r : SignerRecord G2) × (lookup id reg ≡ some r) × (r.status ≡ active)

  key_of-ok :
      (id : String) (r : SignerRecord G2) (pk : G2) → key_of c id r ≡ ok pk → r.status ≡ active
  key_of-ok id r pk h = ground arith

  active_key-ok :
      (reg : Registry c) (seen : List String) (id : String) (pk : G2)
      → active_key c reg seen id ≡ ok pk
      → (any (str_eq id) seen ≡ false) × IsActive reg id
  active_key-ok reg seen id pk h = elim (Bool-cases (any (str_eq id) seen)) [
    | inl e ↦ cc (rw e at h)
    | inr e ↦ (
      e,
      elim (Option-cases (lookup id reg)) [
        | inl q ↦ cc (rw (e, q) at h)
        | inr (r, q) ↦ (r, q, key_of-ok id r pk (rw (e, q) at h))
      ],
    )
  ]

  -- The ids that the loop accepted are new, distinct and active.
  active_pub_keys-ok :
      (reg : Registry c) (seen ids : List String) (pks : List G2)
      → active_pub_keys c reg seen ids ≡ ok pks
      → Distinct ids × All (IsActive reg) ids × All (λ id. any (str_eq id) seen ≡ false) ids
  unfolding active_pub_keys
  active_pub_keys-ok reg seen [] pks h = (tt, tt, tt)
  active_pub_keys-ok reg seen (id ∷ ids) pks h =
      let (pk, p, h') = succeeds_through (active_key c reg seen id) _ h in
      let (rest, q, _) = succeeds_through (active_pub_keys c reg (id ∷ seen) ids) _ h' in
      let (new, act) = active_key-ok reg seen id pk p in
      let (ds, acts, ns) = active_pub_keys-ok reg (id ∷ seen) ids rest q in
      let (apart, old) = fresh id seen ids ns in ((apart, ds), (act, acts), (new, old))

  verify-true :
      (pk : G2) (msg : List ℕ) (sig : G1) (good : Bool)
      → verify c pk msg sig ≡ ok good
      → good ≡ true
  unfolding verify
  verify-true pk [] sig good h = cc
  verify-true pk (b ∷ msg) sig good h = ground arith

  -- The claims that a witness makes on a registry, with the threshold that was in force.
  abbrev pub Attests : Registry c → List ℕ → List String → G1 → ℕ → QuorumWitness → Type 0
  Attests reg root bitset sig t w =
      Perm w.signer_bitset bitset
      × Ascending w.signer_bitset
      × Distinct w.signer_bitset
      × All (IsActive reg) w.signer_bitset
      × (w.threshold ≡ t)
      × (t ≤ length bitset)
      × ((pks : List G2) × (agg : G2) × (active_pub_keys c reg [] w.signer_bitset ≡ ok pks)
          × (aggregate_pub_keys c pks ≡ ok agg)
          × (verify c agg root sig ≡ ok true)
          × (w.aggregate_pub_key_hex ≡ c.g2_hex agg))

  attests :
      (reg : Registry c) (root : List ℕ) (bitset : List String) (sig : G1) (t now : ℕ)
      (pks : List G2) (agg : G2) (good : Bool)
      → t ≤ length bitset
      → active_pub_keys c reg [] (sort_signer_ids c bitset) ≡ ok pks
      → aggregate_pub_keys c pks ≡ ok agg
      → verify c agg root sig ≡ ok good
      → Attests reg root bitset sig t (witness c reg root bitset sig t now agg)
  attests reg root bitset sig t now pks agg good le p q v =
      let (ds, acts, _) = active_pub_keys-ok reg [] (sort_signer_ids c bitset) pks p in
      (
        sort-perm str_ltb bitset,
        sort-Ascending bitset,
        ds,
        acts,
        refl,
        le,
        (pks, agg, p, q, v ∙ ap ok (verify-true agg root sig good v), refl),
      )

  check_quorum-Attests :
      (reg : Registry c) (root : List ℕ) (bitset : List String) (sig : G1) (t now : ℕ)
      (w : QuorumWitness)
      → check_quorum c reg root bitset sig t now ≡ ok w
      → Attests reg root bitset sig t w
  unfolding check_quorum
  check_quorum-Attests reg root bitset sig t now w h = elim (Bool-cases (ltb (length bitset) t)) [
    | inl e ↦ cc (rw e at h)
    | inr e ↦
        let (pks, p, h2) =
          succeeds_through (active_pub_keys c reg [] (sort_signer_ids c bitset)) _ (rw e at h) in
        let (agg, q, h3) = succeeds_through (aggregate_pub_keys c pks) _ h2 in
        let (good, v, h4) = succeeds_through (verify c agg root sig) _ h3 in
        let same : witness c reg root bitset sig t now agg ≡ w = cc in
        subst (Attests reg root bitset sig t) same
          (attests reg root bitset sig t now pks agg good (ground arith) p q v)
  ]

  -- A witness of `VerifyQuorum` lists the given signers, sorted as strings: they are distinct,
  -- registered and active, they are at least as many as the threshold, and the sum of their keys passes the
  -- signature check on the evidence root.
  pub verified_quorum :
      (reg : Registry c) (root : List ℕ) (bitset : List String) (sig : G1) (threshold : ℤ) (now : ℕ)
      (w : QuorumWitness)
      → verify_quorum c (some reg) root bitset (some sig) threshold now ≡ ok w
      → Attests reg root bitset sig (effective_threshold threshold (active_count c reg)) w
  unfolding verify_quorum
  verified_quorum reg [] bitset sig threshold now w h = cc
  verified_quorum reg (b ∷ root) [] sig threshold now w h = cc
  verified_quorum reg (b ∷ root) (id ∷ ids) sig threshold now w h =
      check_quorum-Attests reg (b ∷ root) (id ∷ ids) sig _ now w h
