-- ===== src/Merkle/Frontier.antt =====
-- engine/internal/prover/incremental.go: what the frontier of the accumulator stands for.
use mathlib.Core.List.{append_assoc}
use mathlib.Core.Path.{subst}
use casper_prover.Prelude.{
  ℕ, ◌%◌, ◌≤◌, ◌≡◌, refl, ap, sym, ◌∙◌, Bool, true, false, List, [], ◌∷◌, ◌++◌, arith,
  if◌then◌else◌, length, length-append,
}
use casper_prover.Merkle.Digest.{Sha256, hash_pair}
use casper_prover.Merkle.Levels.{up, up-append_two}
use casper_prover.Merkle.Incremental.{Slot, fold_slots}

-- The nodes of a level: an even number of them that are paired up above, and the pending one.
abbrev pub below : Bool → List ℕ → List (List ℕ) → List (List ℕ)
below occupied h ys = if occupied then ys ++ h ∷ [] else ys

module _ (sha : Sha256) where
  -- The slots from a level upwards stand for the nodes of that level. The top slot stands for a
  -- level that is not empty.
  abbrev pub Rep : List Slot → List (List ℕ) → Type 0
  Rep [] xs = xs ≡ []
  Rep (s ∷ slots) xs =
      (1 ≤ length xs)
      × ((ys : List (List ℕ)) × (xs ≡ below s.occupied s.hash ys)
          × (length ys % 2 ≡ 0)
          × Rep slots (up (hash_pair sha) ys))

  -- Folding in a node adds it at the end of its level.
  pub fold_slots-Rep :
      (slots : List Slot) (xs : List (List ℕ)) (cur : List ℕ)
      → Rep slots xs
      → Rep (fold_slots sha cur slots) (xs ++ cur ∷ [])
  unfolding fold_slots up
  fold_slots-Rep [] xs cur e = rw e (omega arith, ([], refl, omega arith, refl))
  fold_slots-Rep (s ∷ slots) xs cur r = by_slot s.hash s.occupied r (fold_slots-Rep slots)
    where
      by_slot :
          (h : List ℕ) (o : Bool)
          → Rep (record { hash = h; occupied = o } ∷ slots) xs
          → ((ys : List (List ℕ)) (c : List ℕ)
              → Rep slots ys
              → Rep (fold_slots sha c slots) (ys ++ c ∷ []))
          → Rep (fold_slots sha cur (record { hash = h; occupied = o } ∷ slots)) (xs ++ cur ∷ [])
      by_slot h true (le, (ys, e, even, above)) rec = (
        omega (arith, length-append xs (cur ∷ [])),
        (
          ys ++ h ∷ cur ∷ [],
          ap (λ zs. zs ++ cur ∷ []) e ∙ append_assoc ys (h ∷ []) (cur ∷ []),
          omega (arith, length-append ys (h ∷ cur ∷ [])),
          subst (Rep (fold_slots sha (hash_pair sha h cur) slots))
              (sym (up-append_two (hash_pair sha) ys h cur even))
              (rec (up (hash_pair sha) ys) (hash_pair sha h cur) above),
        ),
      )
      by_slot h false (le, (ys, e, even, above)) rec = (
        omega (arith, length-append xs (cur ∷ [])),
        (ys, ap (λ zs. zs ++ cur ∷ []) e, even, above),
      )
