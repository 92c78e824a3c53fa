-- ===== src/Quorum/Lifecycle.antt =====
-- engine/internal/quorum/registry.go: a signer's life under any sequence of calls.
use mathlib.Core.Path.{subst}
use casper_prover.Prelude.{
  ℕ, String, Option, none, some, List, [], ◌∷◌, ◌≡◌, arith, refl, str_eq, Bool-cases, inl, inr,
  eq_iff, Option-cases, sym, ap, ◌∙◌,
}
use casper_prover.Prelude.Assoc.{lookup, insert, lookup-insert}
use casper_prover.Quorum.{
  Crypto, Registry, SignerRecord, SignerStatus, active, slashed, removed, register, slash, retire,
  with_slash, without_membership, slash_found, retire_found,
}

module _ (c : Crypto) where
  open c use {G2}

  -- A call that changes the registry.
  pub data Call : Type 0 where
    -- id, key, bond and the clock
    register_call : String → Option G2 → ℕ → ℕ → Call
    -- id, reason and the clock
    slash_call : String → String → ℕ → Call
    retire_call : String → Call

  abbrev pub step : Call → Registry c → Registry c
  step (register_call id pk bond now) s = (register c id pk bond now s).1
  step (slash_call id reason now) s = (slash c id reason now s).1
  step (retire_call id) s = (retire c id s).1

  unfoldable pub run : List Call → Registry c → Registry c
  run [] s = s
  run (k ∷ ks) s = run ks (step k s)

  -- What no call takes away from a signer.
  abbrev pub Later : SignerRecord G2 → SignerRecord G2 → Type 0
  Later r u =
      (u.id ≡ r.id)
      × (u.pk ≡ r.pk)
      × (u.bond ≡ r.bond)
      × (u.status ≡ active → u ≡ r)
      × (r.status ≡ slashed → u ≡ r)

  Later-refl : (r : SignerRecord G2) → Later r r
  Later-refl r = (refl, refl, refl, λ h. refl, λ h. refl)

  abbrev pub Kept : String → SignerRecord G2 → Registry c → Type 0
  Kept id r s = (u : SignerRecord G2) × (lookup id s ≡ some u) × Later r u

  register-keeps :
      (k : String) (pk : Option G2) (bond now : ℕ) (s : Registry c) (id : String)
      (r : SignerRecord G2)
      → lookup id s ≡ some r
      → lookup id (register c k pk bond now s).1 ≡ some r
  unfolding register
  register-keeps k none bond now s id r h = h
  register-keeps k (some pk) bond now s id r h = ground (
    arith,
    lookup-insert k id
        (record {
          id = k;
          public_key_hex = c.g2_hex pk;
          bond = bond;
          status = active;
          registered_at = now;
          slashed_at = none;
          slash_reason = "";
          pk = some pk;
        })
        s,
    eq_iff k id,
  )

  -- Writing back a changed record of one signer.
  write-keeps :
      (k : String) (v w : SignerRecord G2) (s : Registry c) (id : String) (r : SignerRecord G2)
      → lookup k s ≡ some v
      → lookup id s ≡ some r
      → Later v w
      → Kept id r (insert k w s)
  write-keeps k v w s id r q h l = elim (Bool-cases (str_eq k id)) [
    | inr n ↦ (r, lookup-insert k id w s ∙ rw n h, Later-refl r)
    | inl y ↦
        let same : k ≡ id = (eq_iff k id).0 y in
        let one : v ≡ r = cc in
        (w, lookup-insert k id w s ∙ rw y refl, subst (λ z. Later z w) one l)
  ]

  slash-keeps :
      (k reason : String) (now : ℕ) (s : Registry c) (id : String) (r : SignerRecord G2)
      → lookup id s ≡ some r
      → Kept id r (slash c k reason now s).1
  unfolding slash
  slash-keeps k reason now s id r h = elim (Option-cases (lookup k s)) [
    | inl q ↦ rw (q, slash) (r, h, Later-refl r)
    | inr (v, q) ↦ rw (q, slash) (found v q v.status refl)
  ]
    where
      found :
          (v : SignerRecord G2)
          → lookup k s ≡ some v
          → (st : SignerStatus) → v.status ≡ st
          → Kept id r (slash_found c k reason now v st s).1
      found v q slashed e = (r, h, Later-refl r)
      found v q active e =
          write-keeps k v (with_slash c now reason v) s id r q h
            (refl, refl, refl, λ a. cc, λ a. cc)
      found v q removed e =
          write-keeps k v (with_slash c now reason v) s id r q h
            (refl, refl, refl, λ a. cc, λ a. cc)

  retire-keeps :
      (k : String) (s : Registry c) (id : String) (r : SignerRecord G2)
      → lookup id s ≡ some r
      → Kept id r (retire c k s).1
  unfolding retire
  retire-keeps k s id r h = elim (Option-cases (lookup k s)) [
    | inl q ↦ rw (q, retire) (r, h, Later-refl r)
    | inr (v, q) ↦ rw (q, retire) (found v q v.status refl)
  ]
    where
      found :
          (v : SignerRecord G2)
          → lookup k s ≡ some v
          → (st : SignerStatus) → v.status ≡ st
          → Kept id r (retire_found c k v st s).1
      found v q slashed e = (r, h, Later-refl r)
      found v q removed e = (r, h, Later-refl r)
      found v q active e =
          write-keeps k v (without_membership c v) s id r q h (refl, refl, refl, λ a. cc, λ a. cc)

  step-keeps :
      (k : Call) (s : Registry c) (id : String) (r : SignerRecord G2)
      → lookup id s ≡ some r
      → Kept id r (step k s)
  step-keeps (register_call i pk bond now) s id r h =
      (r, register-keeps i pk bond now s id r h, Later-refl r)
  step-keeps (slash_call i reason now) s id r h = slash-keeps i reason now s id r h
  step-keeps (retire_call i) s id r h = retire-keeps i s id r h

  Later-trans : (r u v : SignerRecord G2) → Later r u → Later u v → Later r v
  Later-trans r u v (i, p, b, a, s) (i', p', b', a', s') = (
    i' ∙ i,
    p' ∙ p,
    b' ∙ b,
    λ h. a' h ∙ a (ap (λ (w : SignerRecord G2). w.status) (sym (a' h)) ∙ h),
    λ h. s' (ap (λ (w : SignerRecord G2). w.status) (s h) ∙ h) ∙ s h,
  )

  -- Through any calls, a registered signer stays registered with its id, key and bond; one that is
  -- slashed never changes again, and one that is active after the calls has not changed in them.
  pub signers_endure :
      (ks : List Call) (s : Registry c) (id : String) (r : SignerRecord G2)
      → lookup id s ≡ some r
      → Kept id r (run ks s)
  unfolding run
  signers_endure [] s id r h = (r, h, Later-refl r)
  signers_endure (k ∷ ks) s id r h =
      let (u, q, l) = step-keeps k s id r h in
      let (v, p, m) = signers_endure ks (step k s) id u q in (v, p, Later-trans r u v l m)
