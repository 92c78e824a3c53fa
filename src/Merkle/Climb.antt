-- ===== src/Merkle/Climb.antt =====
-- engine/internal/prover/incremental.go, `ceilLog2`: it is the number of levels from a list of
-- nodes up to a single one.
use casper_prover.Prelude.{
  ℕ, zero, suc, ◌+◌, ◌-◌, ◌/◌, ◌≤◌, ◌<◌, ◌≡◌, ◌≢◌, ◌↔◌, refl, ap, ◌∙◌, sym, List, [], ◌∷◌, arith,
  false, leb, ◌==◌, if◌then◌else◌, length,
}
use mathlib.Core.Path.{subst}
use casper_prover.Merkle.Levels.{up, ups, pad_odd, length-up}
use casper_prover.Merkle.Padding.{length-pad_odd, up-pad_odd}

-- `for v > 0 { v >>= 1; l++ }`, on fuel.
unfoldable pub count_bits : ℕ → ℕ → ℕ → ℕ
count_bits zero v l = l
count_bits (suc fuel) v l = let rest = count_bits fuel (v / 2) (l + 1) in if v == 0 then l else rest

-- `ceilLog2`; the fuel is more than the number whose bits are counted.
unfoldable pub ceil_log2 : ℕ → ℕ
unfolding count_bits
ceil_log2 n = if leb n 1 then 0 else count_bits n (n - 1) 0

count_bits-more : (fuel v l : ℕ) → v < fuel → count_bits (suc fuel) v l ≡ count_bits fuel v l
unfolding count_bits
count_bits-more zero v l h = absurd (omega arith)
count_bits-more (suc fuel) v l h = ground (arith, count_bits-more fuel (v / 2) (l + 1))

count_bits_enough :
    (extra fuel v l : ℕ) → v < fuel → count_bits (fuel + extra) v l ≡ count_bits fuel v l
count_bits_enough zero fuel v l h = ap (λ k. count_bits k v l) (omega arith)
count_bits_enough (suc extra) fuel v l h =
    ap (λ k. count_bits k v l) (omega arith)
    ∙ count_bits-more (fuel + extra) v l (omega arith)
    ∙ count_bits_enough extra fuel v l h

-- Any two amounts of fuel above the number give the same count.
pub count_bits_any : (a b v l : ℕ) → v < a → v < b → count_bits a v l ≡ count_bits b v l
count_bits_any a b v l p q =
    sym (count_bits_enough b a v l p)
    ∙ ap (λ k. count_bits k v l) (omega arith)
    ∙ count_bits_enough a b v l q

count_bits-suc : (fuel v l : ℕ) → count_bits fuel v (l + 1) ≡ suc (count_bits fuel v l)
unfolding count_bits
count_bits-suc zero v l = omega arith
count_bits-suc (suc fuel) v l = ground (arith, count_bits-suc fuel (v / 2) (l + 1))

count_bits-zero : (fuel l : ℕ) → count_bits fuel 0 l ≡ l
unfolding count_bits
count_bits-zero zero l = refl
count_bits-zero (suc fuel) l = refl

count_bits_first : (k : ℕ) → 1 ≤ k → count_bits (suc k) k 0 ≡ suc (count_bits k (k / 2) 0)
unfolding count_bits
count_bits_first k h = ground (arith, count_bits-suc k (k / 2) 0)

pub ceil_log2-half : (n : ℕ) → 2 ≤ n → ceil_log2 n ≡ suc (ceil_log2 ((n + 1) / 2))
unfolding ceil_log2
ceil_log2-half zero h = absurd (omega arith)
ceil_log2-half (suc zero) h = absurd (omega arith)
ceil_log2-half (suc (suc zero)) h = refl
ceil_log2-half (suc (suc (suc j))) h =
    let m = suc (suc j) in
    let e : suc m - 1 ≡ m = omega arith in
    let e' : (suc m + 1) / 2 - 1 ≡ m / 2 = omega arith in
    let big : leb ((suc m + 1) / 2) 1 ≡ false = ground arith in
    let small : leb (suc m) 1 ≡ false = ground arith in
    rw (e, e', small, big, count_bits_first m (omega arith))
      (ap suc (count_bits_any m ((suc m + 1) / 2) (m / 2) 0 (omega arith) (omega arith)))

pub ceil_log2-one : ceil_log2 1 ≡ 0
unfolding ceil_log2
ceil_log2-one = refl

module _ {ℓ} {A : Type ℓ} (h : A → A → A) where
  -- From a level to the single node above it.
  abbrev pub Apex : List A → A → Type ℓ
  Apex xs r = ups h (ceil_log2 (length xs)) xs ≡ r ∷ []

  -- A level with at least two nodes and the level above it have the same single node above.
  pub Apex-up : (xs : List A) (r : A) → 2 ≤ length xs → Apex xs r ↔ Apex (up h xs) r
  unfolding ups
  Apex-up xs r two = rw (ceil_log2-half (length xs) two, ← length-up h xs) (λ a. a, λ a. a)

  -- Padding does not change the single node above.
  pub Apex-pad_odd : (xs : List A) (r : A) → 2 ≤ length xs → Apex (pad_odd xs) r ↔ Apex xs r
  Apex-pad_odd xs r two =
      let big : 2 ≤ length (pad_odd xs) = omega (arith, length-pad_odd xs) in
      (
        λ a.
            (Apex-up xs r two).1
              (subst (λ ys. Apex ys r) (up-pad_odd h xs) ((Apex-up (pad_odd xs) r big).0 a)),
        λ a.
            (Apex-up (pad_odd xs) r big).1
              (subst (λ ys. Apex ys r) (sym (up-pad_odd h xs)) ((Apex-up xs r two).0 a)),
      )

  up-ne-nil : (x : A) (xs : List A) → up h (x ∷ xs) ≢ []
  unfolding up
  up-ne-nil x [] e = cc
  up-ne-nil x (y ∷ xs) e = cc

  pub Apex-one : (x : A) → Apex (x ∷ []) x
  unfolding ups ceil_log2
  Apex-one x = refl

  apex_bounded : (fuel : ℕ) (xs : List A) → length xs ≤ fuel → xs ≢ [] → (r : A) × Apex xs r
  apex_bounded fuel [] le ne = absurd (ne refl)
  apex_bounded fuel (x ∷ []) le ne = (x, Apex-one x)
  apex_bounded zero (x ∷ y ∷ xs) le ne = absurd (omega arith)
  apex_bounded (suc fuel) (x ∷ y ∷ xs) le ne =
      let (r, a) =
        apex_bounded fuel (up h (x ∷ y ∷ xs)) (omega (arith, length-up h (x ∷ y ∷ xs)))
          (up-ne-nil x (y ∷ xs)) in
      (r, (Apex-up (x ∷ y ∷ xs) r (omega arith)).1 a)

  -- Every level that is not empty has a single node above it.
  pub apex : (xs : List A) → xs ≢ [] → (r : A) × Apex xs r
  apex xs ne = apex_bounded (length xs) xs (omega arith) ne
