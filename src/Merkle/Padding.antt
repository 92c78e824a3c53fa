-- ===== src/Merkle/Padding.antt =====
-- Lemmas on the padding of a level.
use casper_prover.Prelude.{
  ℕ, zero, suc, ◌+◌, ◌%◌, ◌≡◌, refl, ap, List, [], ◌∷◌, map, arith, length, get_elem?, All, some,
}
use casper_prover.Merkle.Levels.{pad_odd, pad_odd-cons, up}

module _ {ℓ} {A : Type ℓ} where
  pub length-pad_odd : (xs : List A) → length (pad_odd xs) ≡ length xs + length xs % 2
  unfolding pad_odd
  length-pad_odd [] = refl
  length-pad_odd (x ∷ []) = refl
  length-pad_odd (x ∷ y ∷ xs) = rw (pad_odd-cons x y xs) (omega (arith, length-pad_odd xs))

  pub pad_odd_of_even : (xs : List A) → length xs % 2 ≡ 0 → pad_odd xs ≡ xs
  unfolding pad_odd
  pad_odd_of_even xs h = ground arith

  pub get_elem?-pad_odd :
      (xs : List A) (i : ℕ) (x : A) → get_elem? xs i ≡ some x → get_elem? (pad_odd xs) i ≡ some x
  unfolding pad_odd
  get_elem?-pad_odd [] i x h = h
  get_elem?-pad_odd (a ∷ []) zero x h = h
  get_elem?-pad_odd (a ∷ []) (suc i) x h = cc
  get_elem?-pad_odd (a ∷ b ∷ xs) zero x h = rw (pad_odd-cons a b xs) h
  get_elem?-pad_odd (a ∷ b ∷ xs) (suc zero) x h = rw (pad_odd-cons a b xs) h
  get_elem?-pad_odd (a ∷ b ∷ xs) (suc (suc i)) x h =
      rw (pad_odd-cons a b xs) (get_elem?-pad_odd xs i x h)

  pub map-pad_odd {κ} :
      {B : Type κ} (f : A → B) (xs : List A) → map f (pad_odd xs) ≡ pad_odd (map f xs)
  unfolding pad_odd
  map-pad_odd f [] = refl
  map-pad_odd f (x ∷ []) = refl
  map-pad_odd f (x ∷ y ∷ xs) =
      rw (pad_odd-cons x y xs, pad_odd-cons (f x) (f y) (map f xs))
        (ap (λ zs. f x ∷ f y ∷ zs) (map-pad_odd f xs))

  pub All-pad_odd {κ} : (P : A → Type κ) (xs : List A) → All P xs → All P (pad_odd xs)
  unfolding pad_odd
  All-pad_odd P [] h = h
  All-pad_odd P (x ∷ []) h = (h.0, (h.0, tt))
  All-pad_odd P (x ∷ y ∷ xs) h = rw (pad_odd-cons x y xs) (h.0, (h.1.0, All-pad_odd P xs h.1.1))

  pub All-get_elem? {κ} :
      (P : A → Type κ) (xs : List A) (i : ℕ) (x : A) → All P xs → get_elem? xs i ≡ some x → P x
  All-get_elem? P [] i x h e = cc
  All-get_elem? P (a ∷ xs) zero x h e = let q : a ≡ x = cc in rw q at h.0
  All-get_elem? P (a ∷ xs) (suc i) x h e = All-get_elem? P xs i x h.1 e

  pub up-pad_odd : (h : A → A → A) (xs : List A) → up h (pad_odd xs) ≡ up h xs
  unfolding pad_odd up
  up-pad_odd h [] = refl
  up-pad_odd h (x ∷ []) = refl
  up-pad_odd h (x ∷ y ∷ xs) = rw (pad_odd-cons x y xs) (ap (◌∷◌ (h x y)) (up-pad_odd h xs))

  pub All-up {κ} :
      (P : A → Type κ) (h : A → A → A) → ((x y : A) → P (h x y)) → (xs : List A) → All P (up h xs)
  unfolding up
  All-up P h all [] = tt
  All-up P h all (x ∷ []) = (all x x, tt)
  All-up P h all (x ∷ y ∷ xs) = (all x y, All-up P h all xs)
