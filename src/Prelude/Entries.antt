-- ===== src/Prelude/Entries.antt =====
-- What holds of every entry of a map: how it is kept by an insertion and a deletion, and read by a
-- lookup.
use mathlib.Core.Logic.{inl, inr, ◌⊎◌}
use text.Mathlib.TextPositions.{eq_refl}
use casper_prover.Prelude.Lists.{All, any}
use casper_prover.Prelude.Tests.{Bool-cases}
use casper_prover.Prelude.Names.{Distinct, held}
use casper_prover.Prelude.Assoc.{Assoc, lookup, insert, delete, keys, lookup-insert}
use mathlib.Core.Path.{◌≡◌, refl, subst}
use mathlib.Core.Bool.{true, false}
use mathlib.Core.Option.{some}
use mathlib.Core.List.{List, [], ◌∷◌}
use native.Mathlib.Omega.{arith}
use Prim.Native.String.{String}
use text.Mathlib.Text.{◌==◌ as str_eq}
use text.Mathlib.TextEquality.{eq_iff}

module _ {ℓ κ} {V : Type ℓ} (P : String × V → Type κ) where
  pub All-insert : (k : String) (v : V) (m : Assoc V) → P (k, v) → All P m → All P (insert k v m)
  unfolding insert
  All-insert k v [] p h = (p, tt)
  All-insert k v ((j, w) ∷ m) p (q, h) = elim (Bool-cases (str_eq j k)) [
    | inl e ↦ rw e (p, h)
    | inr e ↦ rw e (q, All-insert k v m p h)
  ]

  pub All-delete : (k : String) (m : Assoc V) → All P m → All P (delete k m)
  unfolding delete
  All-delete k [] h = tt
  All-delete k ((j, w) ∷ m) (q, h) = elim (Bool-cases (str_eq j k)) [
    | inl e ↦ rw e (All-delete k m h)
    | inr e ↦ rw e (q, All-delete k m h)
  ]

  pub All-lookup : (k : String) (m : Assoc V) {v : V} → All P m → lookup k m ≡ some v → P (k, v)
  unfolding lookup
  All-lookup k [] h e = cc
  All-lookup k ((j, w) ∷ m) {v} (q, h) e = elim (Bool-cases (str_eq j k)) [
    | inl same ↦
        let names : j ≡ k = (eq_iff j k).0 same in
        let here : w ≡ v = ground (arith) in
        subst (λ (x : V). P (k, x)) here (subst (λ (s : String). P (s, w)) names q)
    | inr other ↦ All-lookup k m h (rw other at e)
  ]

module _ {ℓ} {V : Type ℓ} where
  -- Whether the map has the key.
  abbrev pub Known : Assoc V → String → Type 0
  Known m k = held (lookup k m) ≡ true

  pub Known-insert : (k j : String) (v : V) (m : Assoc V) → Known m j → Known (insert k v m) j
  Known-insert k j v m h = ground (arith, lookup-insert k j v m)

  pub Known-insert_self : (k : String) (v : V) (m : Assoc V) → Known (insert k v m) k
  Known-insert_self k v m = ground (arith, lookup-insert k k v m, eq_iff k k)

  any-keys-insert :
      (k j : String) (v : V) (m : Assoc V)
      → str_eq k j ≡ false
      → any (str_eq j) (keys m) ≡ false
      → any (str_eq j) (keys (insert k v m)) ≡ false
  unfolding insert
  any-keys-insert k j v [] n h = ground (arith, eq_iff k j, eq_iff j k)
  any-keys-insert k j v ((i, w) ∷ m) n h =
      ground (arith, eq_iff k j, eq_iff j k, eq_iff i k, any-keys-insert k j v m n)

  pub Distinct-keys-insert :
      (k : String) (v : V) (m : Assoc V) → Distinct (keys m) → Distinct (keys (insert k v m))
  unfolding insert
  Distinct-keys-insert k v [] d = (refl, tt)
  Distinct-keys-insert k v ((j, w) ∷ m) (n, d) = elim (Bool-cases (str_eq j k)) [
    | inl e ↦ let names : j ≡ k = (eq_iff j k).0 e in rw e (rw (← names) n, d)
    | inr e ↦ rw e (
      any-keys-insert k j v m (ground (arith, eq_iff j k, eq_iff k j)) n,
      Distinct-keys-insert k v m d,
    )
  ]

  any-keys-delete :
      (k j : String) (m : Assoc V)
      → any (str_eq j) (keys m) ≡ false
      → any (str_eq j) (keys (delete k m)) ≡ false
  unfolding delete
  any-keys-delete k j [] h = refl
  any-keys-delete k j ((i, w) ∷ m) h = ground (arith, eq_iff i k, any-keys-delete k j m)

  pub Distinct-keys-delete :
      (k : String) (m : Assoc V) → Distinct (keys m) → Distinct (keys (delete k m))
  unfolding delete
  Distinct-keys-delete k [] d = tt
  Distinct-keys-delete k ((j, w) ∷ m) (n, d) = elim (Bool-cases (str_eq j k)) [
    | inl e ↦ rw e (Distinct-keys-delete k m d)
    | inr e ↦ rw e (any-keys-delete k j m n, Distinct-keys-delete k m d)
  ]

  Known-cons : (k j : String) (v : V) (m : Assoc V) → Known m j → Known ((k, v) ∷ m) j
  unfolding lookup
  Known-cons k j v m h = ground (arith, eq_iff k j)

  All-Known-cons :
      (k : String) (v : V) (m : Assoc V) (ks : List String)
      → All (Known m) ks
      → All (Known ((k, v) ∷ m)) ks
  All-Known-cons k v m [] h = tt
  All-Known-cons k v m (j ∷ ks) (q, h) = (Known-cons k j v m q, All-Known-cons k v m ks h)

  pub All-Known-keys : (m : Assoc V) → All (Known m) (keys m)
  unfolding lookup
  All-Known-keys [] = tt
  All-Known-keys ((k, v) ∷ m) =
      (ground (arith, eq_iff k k), All-Known-cons k v m (keys m) (All-Known-keys m))

  -- An entry that a lookup of its key finds.
  abbrev pub Stored : Assoc V → String × V → Type ℓ
  Stored m e = lookup e.0 m ≡ some e.1

  All-Stored-cons :
      (k : String) (v : V) (all others : Assoc V)
      → any (str_eq k) (keys others) ≡ false
      → All (Stored all) others
      → All (Stored ((k, v) ∷ all)) others
  unfolding lookup
  All-Stored-cons k v all [] n h = tt
  All-Stored-cons k v all ((j, w) ∷ others) n (q, h) =
      (ground (arith, eq_iff k j), All-Stored-cons k v all others (ground (arith, eq_iff k j)) h)

  pub All-Stored : (m : Assoc V) → Distinct (keys m) → All (Stored m) m
  unfolding lookup
  All-Stored [] d = tt
  All-Stored ((k, v) ∷ m) (n, d) =
      (ground (arith, eq_iff k k), All-Stored-cons k v m m n (All-Stored m d))

  pub lookup-insert_cases :
      (k j : String) (v : V) (m : Assoc V) {w : V}
      → lookup j (insert k v m) ≡ some w
      → ((k ≡ j) × (v ≡ w)) ⊎ ((str_eq k j ≡ false) × (lookup j m ≡ some w))
  lookup-insert_cases k j v m {w} h = elim (Bool-cases (str_eq k j)) [
    | inl e ↦
        let found : lookup j (insert k v m) ≡ some v = rw (lookup-insert k j v m, e) refl in
        inl ((eq_iff k j).0 e, cc)
    | inr e ↦
        let kept : lookup j (insert k v m) ≡ lookup j m = rw (lookup-insert k j v m, e) refl in
        inr (e, cc)
  ]

  pub lookup-insert_self : (k : String) (v : V) (m : Assoc V) → lookup k (insert k v m) ≡ some v
  lookup-insert_self k v m = rw (lookup-insert k k v m, eq_refl k) refl

  pub lookup-insert_other :
      (k j : String) (v : V) (m : Assoc V)
      → str_eq k j ≡ false
      → lookup j (insert k v m) ≡ lookup j m
  lookup-insert_other k j v m h = rw (lookup-insert k j v m, h) refl
