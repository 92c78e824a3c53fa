-- ===== src/Judge/Menu.antt =====
-- engine/internal/judge/facet_judge.go, `decideFacet` and `normalizeVote`: what a winner is.
use mathlib.Core.List.{Perm}
use mathlib.Core.Path.{subst}
use casper_prover.Prelude.{
  ℕ, suc, ◌≤◌, String, Bool, true, false, ◌&&◌, ◌||◌, not, Option, none, some, List, [], ◌∷◌, ◌≡◌,
  refl, sym, ◌∙◌, inl, inr, All, all, count, ◌==◌, str_eq, eq_iff, Bool-cases, Option-cases, among,
  arith, find?, ◌⊎◌,
}
use casper_prover.Prelude.Assoc.{Assoc, lookup, lookup-nil}
use casper_prover.Prelude.Entries.{Stored, All-Stored, All-insert, All-lookup}
use casper_prover.Llm.{Response}
use casper_prover.Llm.Runner.{PollResult}
use casper_prover.Judge.{
  Library, tallied, bump, top_of, exact, as_word, exact_or, normalize_vote, ballot, tally_all,
}
use casper_prover.Judge.Tally.{
  all-perm, and_true, top_of-all, top_of-at_most, at_most, votes, tally_all-count, tally_all-keys,
}

module _ {ℓ} {A : Type ℓ} (p : A → Bool) where
  all_of_All : (xs : List A) → All (λ x. p x ≡ true) xs → all p xs ≡ true
  all_of_All [] h = refl
  all_of_All (x ∷ xs) (q, h) = and_true (p x) (all p xs) q (all_of_All xs h)

  All_of_all : (xs : List A) → all p xs ≡ true → All (λ x. p x ≡ true) xs
  All_of_all [] h = tt
  All_of_all (x ∷ xs) h = (ground arith, All_of_all xs (ground arith))

  find?-holds : (xs : List A) {x : A} → find? p xs ≡ some x → p x ≡ true
  find?-holds [] h = cc
  find?-holds (y ∷ xs) {x} h = elim (Bool-cases (p y)) [
    | inl e ↦ let same : y ≡ x = ground arith in subst (λ (z : A). p z ≡ true) same e
    | inr e ↦ find?-holds xs (ground arith)
  ]

among-find? :
    (p : String → Bool) (xs : List String) (x : String) → find? p xs ≡ some x → among xs x ≡ true
among-find? p [] x h = cc
among-find? p (y ∷ xs) x h = elim (Bool-cases (p y)) [
  | inl e ↦ let same : y ≡ x = ground arith in ground (arith, eq_iff x y)
  | inr e ↦ ground (arith, among-find? p xs x)
]

-- With a menu, an answer is read as a value of the menu or as none.
pub normalize_vote-among :
    (lib : Library) (raw v : String) (vs : List String)
    → (normalize_vote lib raw (v ∷ vs) ≡ "")
      ⊎ (among (v ∷ vs) (normalize_vote lib raw (v ∷ vs)) ≡ true)
unfolding normalize_vote
normalize_vote-among lib raw v vs =
    split (find? (exact lib raw) (v ∷ vs)) (find? (as_word lib raw) (v ∷ vs))
      (among-find? (exact lib raw) (v ∷ vs)) (among-find? (as_word lib raw) (v ∷ vs))
  where
    split :
        (first second : Option String)
        → ((x : String) → first ≡ some x → among (v ∷ vs) x ≡ true)
        → ((x : String) → second ≡ some x → among (v ∷ vs) x ≡ true)
        → (exact_or lib first second ≡ "") ⊎ (among (v ∷ vs) (exact_or lib first second) ≡ true)
    split (some x) second f g = inr (f x refl)
    split none (some x) f g = inr (g x refl)
    split none none f g = inl refl

module _ (lib : Library) (allowed : List String) where
  -- A tallied value is one that an answer was read as.
  abbrev pub Spoken : (String → Bool) → Type 0
  Spoken ok_value =
      (raw : String)
      → (normalize_vote lib raw allowed ≡ "") ⊎ (ok_value (normalize_vote lib raw allowed) ≡ true)

  abbrev Fits : (String → Bool) → String × ℕ → Type 0
  Fits ok_value e = (ok_value e.0 && not (str_eq e.0 "")) ≡ true

  ballot-Fits :
      (ok_value : String → Bool)
      → Spoken ok_value
      → (o : Option Response) (m : Assoc ℕ) → All (Fits ok_value) m
      → All (Fits ok_value) (ballot lib allowed o m)
  unfolding bump
  ballot-Fits ok_value s none m h = h
  ballot-Fits ok_value s (some r) m h =
      let said = normalize_vote lib r.content allowed in
      elim (Bool-cases (str_eq said "")) [
        | inl e ↦ rw (e, All) h
        | inr e ↦
            rw (e, All)
              (All-insert (Fits ok_value) said (suc (tallied (lookup said m))) m
                (elim (s r.content) [
                  | inl empty ↦ ground (arith, eq_iff said "")
                  | inr fits ↦ and_true (ok_value said) (not (str_eq said "")) fits (ground arith)
                ])
                h)
      ]

  tally_all-Fits :
      (ok_value : String → Bool)
      → Spoken ok_value
      → (polls : List PollResult) (m : Assoc ℕ) → All (Fits ok_value) m
      → All (Fits ok_value) (tally_all lib allowed polls m)
  unfolding tally_all
  tally_all-Fits ok_value s [] m h = h
  tally_all-Fits ok_value s (p ∷ polls) m h =
      tally_all-Fits ok_value s polls (ballot lib allowed p.resp m)
        (ballot-Fits ok_value s p.resp m h)

  abbrev pub tally : List PollResult → Assoc ℕ
  tally polls = tally_all lib allowed polls []

  -- The start of the loop, or an entry of the tally with a fitting value.
  abbrev pub entry : (String → Bool) → Assoc ℕ → String × ℕ → Bool
  entry ok_value m e =
      e.1 == 0 || (ok_value e.0 && not (str_eq e.0 "") && tallied (lookup e.0 m) == e.1)

  entries :
      (ok_value : String → Bool) (m xs : Assoc ℕ)
      → All (Stored m) xs
      → All (Fits ok_value) xs
      → all (entry ok_value m) xs ≡ true
  entries ok_value m [] h g = refl
  entries ok_value m ((v, c) ∷ xs) (q, h) (f, g) =
      and_true (entry ok_value m (v, c)) (all (entry ok_value m) xs) (ground (arith))
        (entries ok_value m xs h g)

  -- The top of the tally, in any order: an entry with a fitting value if its count is not 0.
  pub top_entry :
      (ok_value : String → Bool)
      → Spoken ok_value
      → (polls : List PollResult) (xs : List (String × ℕ)) → Perm xs (tally polls)
      → entry ok_value (tally polls) (top_of ("", 0) xs) ≡ true
  top_entry ok_value s polls xs perm =
      let stored = All-Stored (tally polls) (tally_all-keys lib allowed polls [] tt) in
      let fits = tally_all-Fits ok_value s polls [] tt in
      top_of-all (entry ok_value (tally polls)) ("", 0) xs refl
        (all-perm (entry ok_value (tally polls)) perm
          ∙ entries ok_value (tally polls) (tally polls) stored fits)

  -- No value has a greater count than the top.
  pub top_greatest :
      (polls : List PollResult) (xs : List (String × ℕ)) (v : String)
      → Perm xs (tally polls)
      → str_eq v "" ≡ false
      → count (votes lib allowed v) polls ≤ (top_of ("", 0) xs).1
  top_greatest polls xs v perm h =
      let bound = sym (all-perm (at_most (top_of ("", 0) xs).1) perm) ∙ top_of-at_most ("", 0) xs in
      let counted = tally_all-count lib allowed v polls [] h in
      let start : tallied (lookup v []) ≡ 0 = rw (lookup-nil {V = ℕ} v) refl in
      elim (Option-cases (lookup v (tally polls))) [
        | inl e ↦ ground arith
        | inr (c, e) ↦
            let le =
              All-lookup (λ (x : String × ℕ). at_most (top_of ("", 0) xs).1 x ≡ true) v
                (tally polls) (All_of_all (at_most (top_of ("", 0) xs).1) (tally polls) bound) e in
            ground arith
      ]
