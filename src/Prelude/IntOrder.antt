-- ===== src/Prelude/IntOrder.antt =====
-- The order of the signed numbers, and a list in descending order of a signed measure.
use mathlib.Core.Logic.{inl, inr}
use mathlib.Core.Path.{◌≡◌, refl}
use mathlib.Core.Bool.{Bool, true, false}
use mathlib.Core.List.{List, [], ◌∷◌}
use native.Mathlib.Omega.{arith}
use Prim.Native.Nat.{zero, suc}
use casper_prover.Prelude.Tests.{Bool-cases}
use casper_prover.Prelude.Lists.{All}
use casper_prover.Prelude.Int.{ℤ, pos, negsuc, inc, dec, leb_int, ltb_int}
use casper_prover.Prelude.Sort.{sort, insert_sorted}

pub leb_int_refl : (a : ℤ) → leb_int a a ≡ true
leb_int_refl (pos a) = ground arith
leb_int_refl (negsuc a) = ground arith

pub leb_int_trans : (a b c : ℤ) → leb_int a b ≡ true → leb_int b c ≡ true → leb_int a c ≡ true
leb_int_trans (pos a) (pos b) (pos c) h k = ground arith
leb_int_trans (pos a) (pos b) (negsuc c) h k = ground arith
leb_int_trans (pos a) (negsuc b) c h k = cc
leb_int_trans (negsuc a) (pos b) (pos c) h k = refl
leb_int_trans (negsuc a) (pos b) (negsuc c) h k = cc
leb_int_trans (negsuc a) (negsuc b) (pos c) h k = refl
leb_int_trans (negsuc a) (negsuc b) (negsuc c) h k = ground arith

-- Either a < b or b <= a.
pub ltb_int-false : (a b : ℤ) → ltb_int a b ≡ false → leb_int b a ≡ true
ltb_int-false (pos a) (pos b) h = ground arith
ltb_int-false (pos a) (negsuc b) h = refl
ltb_int-false (negsuc zero) (pos b) h = ground arith
ltb_int-false (negsuc (suc a)) (pos b) h = cc
ltb_int-false (negsuc zero) (negsuc b) h = ground arith
ltb_int-false (negsuc (suc a)) (negsuc b) h = ground arith

pub ltb_int-true : (a b : ℤ) → ltb_int a b ≡ true → leb_int a b ≡ true
ltb_int-true (pos a) (pos b) h = ground arith
ltb_int-true (pos a) (negsuc b) h = cc
ltb_int-true (negsuc zero) (pos b) h = refl
ltb_int-true (negsuc (suc a)) (pos b) h = refl
ltb_int-true (negsuc zero) (negsuc b) h = cc
ltb_int-true (negsuc (suc a)) (negsuc b) h = ground arith

pub leb_int-false : (a b : ℤ) → leb_int a b ≡ false → leb_int (inc b) a ≡ true
leb_int-false (pos a) (pos b) h = ground arith
leb_int-false (pos a) (negsuc zero) h = ground arith
leb_int-false (pos a) (negsuc (suc b)) h = refl
leb_int-false (negsuc a) (pos b) h = cc
leb_int-false (negsuc a) (negsuc zero) h = ground arith
leb_int-false (negsuc a) (negsuc (suc b)) h = ground arith

pub dec-leb_int : (a : ℤ) → leb_int (dec a) a ≡ true
dec-leb_int (pos zero) = refl
dec-leb_int (pos (suc a)) = ground arith
dec-leb_int (negsuc a) = ground arith

module _ {ℓ κ} {A : Type ℓ} (P : A → Type κ) (less : A → A → Bool) where
  pub All-insert_sorted : (x : A) (ys : List A) → P x → All P ys → All P (insert_sorted less x ys)
  unfolding insert_sorted
  All-insert_sorted x [] p h = (p, tt)
  All-insert_sorted x (y ∷ ys) p (q, h) = elim (Bool-cases (less y x)) [
    | inl e ↦ rw e (q, All-insert_sorted x ys p h)
    | inr e ↦ rw e (p, (q, h))
  ]

  pub All-sort : (xs : List A) → All P xs → All P (sort less xs)
  unfolding sort
  All-sort [] h = tt
  All-sort (x ∷ xs) (p, h) = All-insert_sorted x (sort less xs) p (All-sort xs h)

module _ {ℓ} {A : Type ℓ} (measure : A → ℤ) where
  abbrev pub AtMost : ℤ → A → Type 0
  AtMost bound y = leb_int (measure y) bound ≡ true

  -- Each element's measure is at least that of every later one.
  abbrev pub Descending : List A → Type 0
  Descending [] = Unit
  Descending (x ∷ xs) = All (AtMost (measure x)) xs × Descending xs

  abbrev pub precedes : A → A → Bool
  precedes a b = ltb_int (measure b) (measure a)

  All-AtMost : (a b : ℤ) (xs : List A) → leb_int a b ≡ true → All (AtMost a) xs → All (AtMost b) xs
  All-AtMost a b [] le h = tt
  All-AtMost a b (x ∷ xs) le (q, h) = (leb_int_trans (measure x) a b q le, All-AtMost a b xs le h)

  insert_sorted-Descending :
      (x : A) (ys : List A) → Descending ys → Descending (insert_sorted precedes x ys)
  unfolding insert_sorted
  insert_sorted-Descending x [] d = (tt, tt)
  insert_sorted-Descending x (y ∷ ys) (b, d) = elim (Bool-cases (precedes y x)) [
    | inl e ↦ rw e (
      All-insert_sorted (AtMost (measure y)) precedes x ys (ltb_int-true (measure x) (measure y) e)
          b,
      insert_sorted-Descending x ys d,
    )
    | inr e ↦
        let le = ltb_int-false (measure x) (measure y) e in
        rw e ((le, All-AtMost (measure y) (measure x) ys le b), (b, d))
  ]

  pub sort-Descending : (xs : List A) → Descending (sort precedes xs)
  unfolding sort
  sort-Descending [] = tt
  sort-Descending (x ∷ xs) = insert_sorted-Descending x (sort precedes xs) (sort-Descending xs)
