-- ===== src/Merkle/Levels.antt =====
-- The reference for all trees: a level, the level above it, and how many levels there are. A level
-- with an odd number of nodes is paired up after its last node has been doubled.
use casper_prover.Prelude.{
  ℕ, zero, suc, ◌+◌, ◌-◌, ◌/◌, ◌%◌, ◌≡◌, refl, ap, List, [], ◌∷◌, ◌++◌, arith, ◌==◌, if◌then◌else◌,
  length, get_elem?, some,
}

module _ {ℓ} {A : Type ℓ} where
  -- nodes[len(nodes)-1:], empty for an empty list
  unfoldable pub last : List A → List A
  last [] = []
  last (x ∷ []) = x ∷ []
  last (x ∷ y ∷ xs) = last (y ∷ xs)

  -- `if len(nodes)%2 != 0 { nodes = append(nodes, nodes[len(nodes)-1]) }`
  unfoldable pub pad_odd : List A → List A
  unfolding last
  pad_odd xs = if length xs % 2 == 0 then xs else xs ++ last xs

  pub pad_odd-cons : (x y : A) (xs : List A) → pad_odd (x ∷ y ∷ xs) ≡ x ∷ y ∷ pad_odd xs
  unfolding pad_odd
  pad_odd-cons x y [] = refl
  pad_odd-cons x y (z ∷ xs) = ground arith

module _ {ℓ} {A : Type ℓ} (h : A → A → A) where
  -- The loop that combines neighbours; a node with no neighbour is passed on as it is.
  unfoldable pub pairs : List A → List A
  pairs [] = []
  pairs (x ∷ []) = x ∷ []
  pairs (x ∷ y ∷ xs) = h x y ∷ pairs xs

  unfoldable pub up : List A → List A
  up [] = []
  up (x ∷ []) = h x x ∷ []
  up (x ∷ y ∷ xs) = h x y ∷ up xs

  pub pairs-pad_odd : (xs : List A) → pairs (pad_odd xs) ≡ up xs
  unfolding pairs up pad_odd
  pairs-pad_odd [] = refl
  pairs-pad_odd (x ∷ []) = refl
  pairs-pad_odd (x ∷ y ∷ xs) = rw (pad_odd-cons x y xs) (ap (◌∷◌ (h x y)) (pairs-pad_odd xs))

  pub length-up : (xs : List A) → length (up xs) ≡ (length xs + 1) / 2
  unfolding up
  length-up [] = omega arith
  length-up (x ∷ []) = omega arith
  length-up (x ∷ y ∷ xs) = omega (arith, length-up xs)

  -- On an even number of nodes, two more nodes give one more above.
  pub up-append_two :
      (xs : List A) (x y : A) → length xs % 2 ≡ 0 → up (xs ++ x ∷ y ∷ []) ≡ up xs ++ h x y ∷ []
  unfolding up
  up-append_two [] x y e = refl
  up-append_two (a ∷ []) x y e = absurd (omega arith)
  up-append_two (a ∷ b ∷ xs) x y e = ap (◌∷◌ (h a b)) (up-append_two xs x y (omega arith))

  pub up-append_one :
      (xs : List A) (x : A) → length xs % 2 ≡ 0 → up (xs ++ x ∷ []) ≡ up xs ++ h x x ∷ []
  unfolding up
  up-append_one [] x e = refl
  up-append_one (a ∷ []) x e = absurd (omega arith)
  up-append_one (a ∷ b ∷ xs) x e = ap (◌∷◌ (h a b)) (up-append_one xs x (omega arith))

  -- The level that many levels above.
  unfoldable pub ups : ℕ → List A → List A
  ups zero xs = xs
  ups (suc k) xs = ups k (up xs)

  -- h applied up to a node and itself, that many times.
  unfoldable pub self_up : ℕ → A → A
  self_up zero x = x
  self_up (suc k) x = self_up k (h x x)

-- `if pos%2 == 0 { sibling = pos + 1 } else { sibling = pos - 1 }`
unfoldable pub sibling : ℕ → ℕ
sibling pos = if pos % 2 == 0 then pos + 1 else pos - 1

sibling-suc-suc : (i : ℕ) → sibling (suc (suc i)) ≡ suc (suc (sibling i))
unfolding sibling
sibling-suc-suc i = ground arith

half-suc-suc : (i : ℕ) → suc (suc i) / 2 ≡ suc (i / 2)
half-suc-suc i = omega arith

even-suc-suc : (i : ℕ) → (suc (suc i) % 2 == 0) ≡ (i % 2 == 0)
even-suc-suc i = ground arith

module _ {ℓ} {A : Type ℓ} (h : A → A → A) where
  -- A node at an even place is the left argument of its parent.
  abbrev pub join : ℕ → A → A → A
  join i x s = if i % 2 == 0 then h x s else h s x

  -- The neighbour of a node in the padded level, and where their parent stands.
  abbrev pub Parent : List A → ℕ → A → Type ℓ
  Parent xs i x =
      (s : A) × (get_elem? (pad_odd xs) (sibling i) ≡ some s)
      × (get_elem? (up h xs) (i / 2) ≡ some (join i x s))

  pub parent : (xs : List A) (i : ℕ) (x : A) → get_elem? xs i ≡ some x → Parent xs i x
  unfolding up pad_odd sibling
  parent [] i x e = cc
  parent (a ∷ []) zero x e = (a, refl, cc)
  parent (a ∷ []) (suc i) x e = cc
  parent (a ∷ b ∷ xs) zero x e = (b, rw pad_odd-cons, cc)
  parent (a ∷ b ∷ xs) (suc zero) x e = (a, rw (pad_odd-cons a b xs) refl, cc)
  parent (a ∷ b ∷ xs) (suc (suc i)) x e =
      let (s, p, q) = parent xs i x e in
      (s, rw (sibling-suc-suc i, pad_odd-cons a b xs) p, rw (half-suc-suc i, even-suc-suc i) q)
