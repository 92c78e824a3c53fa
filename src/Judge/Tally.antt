-- ===== src/Judge/Tally.antt =====
-- engine/internal/judge/facet_judge.go, the tally: what it counts, and its top value in any order of
-- the loop over it.
use mathlib.Core.List.{Perm, Permᴰ}
use mathlib.Core.List.Perm
use mathlib.Core.Logic.{∥∥₁_elim}
use mathlib.Core.Path.{subst}
use casper_prover.Prelude.{
  ℕ, suc, ◌+◌, ◌≤◌, String, Bool, true, false, ◌&&◌, Option, none, some, List, [], ◌∷◌, ◌≡◌, refl,
  sym, ◌∙◌, inl, inr, all, count, ltb, leb, le→leb, str_eq, eq_iff, if◌then◌else◌, Bool-cases,
  Option-cases, Distinct, arith,
}
use casper_prover.Prelude.Assoc.{Assoc, lookup, keys, lookup-insert}
use casper_prover.Prelude.Entries.{Distinct-keys-insert}
use casper_prover.Llm.{Response}
use casper_prover.Llm.Runner.{PollResult}
use casper_prover.Judge.{Library, tallied, bump, top_of, normalize_vote, ballot, tally_all}

Bool_set : IsSet Bool
Bool_set = hlevel

all-Permᴰ {ℓ} : {A : Type ℓ} (p : A → Bool) {xs ys : List A} → Permᴰ xs ys → all p xs ≡ all p ys
all-Permᴰ p Permᴰ.nil = refl
all-Permᴰ p (Permᴰ.cons e h) = rw (e, all-Permᴰ p h)
all-Permᴰ p (Permᴰ.swap e f) = rw (e, f) (ground arith)
all-Permᴰ p (Permᴰ.trans h k) = all-Permᴰ p h ∙ all-Permᴰ p k

pub all-perm {ℓ} : {A : Type ℓ} (p : A → Bool) {xs ys : List A} → Perm xs ys → all p xs ≡ all p ys
all-perm p perm = ∥∥₁_elim perm (Bool_set _ _) (λ q. all-Permᴰ p q)

-- What holds of the start and of every entry holds of the top.
pub top_of-all :
    (p : String × ℕ → Bool) (best : String × ℕ) (xs : List (String × ℕ))
    → p best ≡ true
    → all p xs ≡ true
    → p (top_of best xs) ≡ true
unfolding top_of
top_of-all p best [] b h = b
top_of-all p (top, n) ((v, c) ∷ xs) b h = elim (Bool-cases (ltb n c)) [
  | inl e ↦ rw e (top_of-all p (v, c) xs (ground arith) (ground arith))
  | inr e ↦ rw e (top_of-all p (top, n) xs b (ground arith))
]

abbrev pub at_most : ℕ → String × ℕ → Bool
at_most n e = leb e.1 n

top_of-ge : (best : String × ℕ) (xs : List (String × ℕ)) → best.1 ≤ (top_of best xs).1
unfolding top_of
top_of-ge best [] = omega arith
top_of-ge (top, n) ((v, c) ∷ xs) = elim (Bool-cases (ltb n c)) [
  | inl e ↦ rw e (let ih = top_of-ge (v, c) xs in ground arith)
  | inr e ↦ rw e (top_of-ge (top, n) xs)
]

pub and_true : (a b : Bool) → a ≡ true → b ≡ true → (a && b) ≡ true
and_true a b h k = ground arith

top_of_taken :
    (top v : String) (n c : ℕ) (xs : List (String × ℕ))
    → ltb n c ≡ true
    → top_of (top, n) ((v, c) ∷ xs) ≡ top_of (v, c) xs
unfolding top_of
top_of_taken top v n c xs e = rw e refl

top_of_kept :
    (top v : String) (n c : ℕ) (xs : List (String × ℕ))
    → ltb n c ≡ false
    → top_of (top, n) ((v, c) ∷ xs) ≡ top_of (top, n) xs
unfolding top_of
top_of_kept top v n c xs e = rw e refl

above : (a b m : ℕ) → ltb a b ≡ false → a ≤ m → leb b m ≡ true
above a b m h k = ground arith

Bounds : ℕ → List (String × ℕ) → String × ℕ → Type 0
Bounds c xs top = (leb c top.1 && all (at_most top.1) xs) ≡ true

pub top_of-at_most :
    (best : String × ℕ) (xs : List (String × ℕ)) → all (at_most (top_of best xs).1) xs ≡ true
unfolding Bounds
top_of-at_most best [] = refl
top_of-at_most (top, n) ((v, c) ∷ xs) = elim (Bool-cases (ltb n c)) [
  | inl e ↦
      subst (Bounds c xs) (sym (top_of_taken top v n c xs e))
        (and_true _ _ (le→leb c _ (top_of-ge (v, c) xs)) (top_of-at_most (v, c) xs))
  | inr e ↦
      subst (Bounds c xs) (sym (top_of_kept top v n c xs e))
        (and_true _ _ (above n c _ e (top_of-ge (top, n) xs)) (top_of-at_most (top, n) xs))
]

top_of-le :
    (best : String × ℕ) (xs ys : List (String × ℕ))
    → Perm xs ys
    → (top_of best xs).1 ≤ (top_of best ys).1
top_of-le best xs ys perm =
    let ge = top_of-ge best ys in
    let bound = all-perm (at_most (top_of best ys).1) perm ∙ top_of-at_most best ys in
    let top = top_of-all (at_most (top_of best ys).1) best xs (ground arith) bound in ground arith

-- The top count does not depend on the order.
pub top_of-perm :
    (best : String × ℕ) (xs ys : List (String × ℕ))
    → Perm xs ys
    → (top_of best xs).1 ≡ (top_of best ys).1
top_of-perm best xs ys perm =
    omega (arith, top_of-le best xs ys perm, top_of-le best ys xs (Perm.symm perm))

module _ (lib : Library) (allowed : List String) where
  -- An answer that the judge reads as `v`.
  abbrev pub votes : String → PollResult → Bool
  votes v p = elim p.resp [
    | none ↦ false
    | some r ↦ str_eq (normalize_vote lib r.content allowed) v
  ]

  ballot-count :
      (v : String) (p : PollResult) (m : Assoc ℕ)
      → str_eq v "" ≡ false
      → tallied (lookup v (ballot lib allowed p.resp m))
        ≡ tallied (lookup v m) + (if votes v p then 1 else 0)
  unfolding bump
  ballot-count v p m h = elim (Option-cases p.resp) [
    | inl e ↦ ground arith
    | inr (r, e) ↦
        let said = normalize_vote lib r.content allowed in
        ground (
          arith,
          lookup-insert said v (suc (tallied (lookup said m))) m,
          eq_iff said v,
          eq_iff said "",
          eq_iff v "",
        )
  ]

  -- The tally of a value is the number of answers read as it.
  pub tally_all-count :
      (v : String) (polls : List PollResult) (m : Assoc ℕ)
      → str_eq v "" ≡ false
      → tallied (lookup v (tally_all lib allowed polls m))
        ≡ tallied (lookup v m) + count (votes v) polls
  unfolding tally_all
  tally_all-count v [] m h = omega arith
  tally_all-count v (p ∷ polls) m h =
      let ih = tally_all-count v polls (ballot lib allowed p.resp m) h in
      let one = ballot-count v p m h in omega (arith, ih, one)

  ballot-keys :
      (o : Option Response) (m : Assoc ℕ)
      → Distinct (keys m)
      → Distinct (keys (ballot lib allowed o m))
  unfolding bump
  ballot-keys none m d = d
  ballot-keys (some r) m d =
      let said = normalize_vote lib r.content allowed in
      elim (Bool-cases (str_eq said "")) [
        | inl e ↦ rw (e, Distinct) d
        | inr e ↦ rw (e, Distinct) (Distinct-keys-insert said (suc (tallied (lookup said m))) m d)
      ]

  pub tally_all-keys :
      (polls : List PollResult) (m : Assoc ℕ)
      → Distinct (keys m)
      → Distinct (keys (tally_all lib allowed polls m))
  unfolding tally_all
  tally_all-keys [] m d = d
  tally_all-keys (p ∷ polls) m d =
      tally_all-keys polls (ballot lib allowed p.resp m) (ballot-keys p.resp m d)
