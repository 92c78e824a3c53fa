-- ===== src/Merkle/Collect.antt =====
-- engine/internal/prover/incremental.go, `Root`: the loop that collects the pending subtrees.
use mathlib.Core.List.{append_assoc}
use mathlib.Core.Path.{subst}
use casper_prover.Prelude.{
  ℕ, ◌+◌, ◌-◌, ◌%◌, ◌≤◌, ◌≡◌, refl, ap, sym, ◌∙◌, false, List, [], ◌∷◌, ◌++◌, none, some, arith,
  ltb, length, length-append, lt→ltb, Bool-cases, inl, inr,
}
use native.Mathlib.Decide.{dec_lt}
use casper_prover.Merkle.Digest.{Sha256, hash_pair}
use casper_prover.Merkle.Levels.{up, up-append_one, up-append_two, self_up, length-up}
use casper_prover.Merkle.Climb.{ceil_log2, ceil_log2-half, ceil_log2-one, Apex, Apex-up, Apex-one}
use casper_prover.Merkle.Incremental.{Slot, Carry, raise, collect}
use casper_prover.Merkle.Frontier.{Rep}

nil_of_length {ℓ} : {A : Type ℓ} (xs : List A) → length xs ≡ 0 → xs ≡ []
nil_of_length [] h = refl
nil_of_length (x ∷ xs) h = absurd (omega arith)

module _ (sha : Sha256) where
  -- A level with the pending carry, brought up to it, behind its nodes.
  abbrev Carried : ℕ → List (List ℕ) → Carry → List (List ℕ) → Type 0
  Carried lvl ys none zs = zs ≡ ys
  Carried lvl ys (some (c, cl)) zs =
      (cl ≤ lvl) × (zs ≡ ys ++ self_up (hash_pair sha) (lvl - cl) c ∷ [])

  -- The carry, brought up to the top, is the single node above a level.
  abbrev Collected : ℕ → Carry → List (List ℕ) → Type 0
  Collected lvl carry zs =
      (c : List ℕ) × (cl : ℕ) × (carry ≡ some (c, cl))
      × (cl ≤ lvl + ceil_log2 (length zs))
      × Apex (hash_pair sha) zs (self_up (hash_pair sha) (lvl + ceil_log2 (length zs) - cl) c)

  Collected-above :
      (lvl : ℕ) (carry : Carry) (zs : List (List ℕ))
      → 2 ≤ length zs
      → Collected (lvl + 1) carry (up (hash_pair sha) zs)
      → Collected lvl carry zs
  Collected-above lvl carry zs two (c, cl, e, le, a) =
      let size = length-up (hash_pair sha) zs in
      let half = ceil_log2-half (length zs) two in
      let same : lvl + 1 + ceil_log2 (length (up (hash_pair sha) zs))
          ≡ lvl + ceil_log2 (length zs) =
        omega (arith, ap ceil_log2 size, half) in
      (
        c,
        cl,
        e,
        omega (arith, same),
        (Apex-up (hash_pair sha) zs _ two).1 (
            subst
              (λ k.
                Apex (hash_pair sha) (up (hash_pair sha) zs) (self_up (hash_pair sha) (k - cl) c))
              same a),
      )

  -- `raise` brings the carry to the level, and changes nothing else.
  pub raise-some :
      (lvl : ℕ) (c : List ℕ) (cl : ℕ)
      → cl ≤ lvl
      → raise sha lvl (some (c, cl)) ≡ some (self_up (hash_pair sha) (lvl - cl) c, lvl)
  unfolding raise
  raise-some lvl c cl le = elim (dec_lt cl lvl) [
    | yes lt ↦ rw (lt→ltb cl lvl lt)
    | no ge ↦
        let top : ltb cl lvl ≡ false = ground arith in
        let here : lvl - cl ≡ 0 = omega arith in
        let q : cl ≡ lvl = omega arith in rw (top, here) (ap (λ k. some (c, k)) q)
  ]

  raise-none : (lvl : ℕ) → raise sha lvl none ≡ none
  unfolding raise
  raise-none lvl = refl

  Collected-one :
      (lvl : ℕ) (ys : List (List ℕ)) (c : List ℕ) (cl : ℕ) (zs : List (List ℕ))
      → ys ≡ []
      → Carried lvl ys (some (c, cl)) zs
      → Collected lvl (some (c, cl)) zs
  Collected-one lvl ys c cl zs r (le, e) =
      let alone = e ∙ ap (λ w. w ++ self_up (hash_pair sha) (lvl - cl) c ∷ []) r in
      let same : lvl - cl ≡ lvl + ceil_log2 1 - cl = omega (arith, ceil_log2-one) in
      (
        c,
        cl,
        refl,
        omega arith,
        subst
            (λ w.
              Apex (hash_pair sha) w (self_up (hash_pair sha) (lvl + ceil_log2 (length w) - cl) c))
            (sym alone)
            (subst
              (λ k.
                Apex (hash_pair sha) (self_up (hash_pair sha) (lvl - cl) c ∷ [])
                  (self_up (hash_pair sha) k c))
              same (Apex-one (hash_pair sha) (self_up (hash_pair sha) (lvl - cl) c))),
      )

  Rep-nil : (slots : List Slot) → Rep sha slots [] → slots ≡ []
  Rep-nil [] r = refl
  Rep-nil (s ∷ slots) r = absurd (omega arith)

  -- The rest of the loop, from the level above this one.
  module _ (slots : List Slot) (lvl : ℕ) where
    abbrev Rest : Type 0
    Rest =
        (carry : Carry) (ys zs : List (List ℕ))
        → Rep sha slots ys
        → Carried (lvl + 1) ys carry zs
        → 1 ≤ length zs
        → Collected (lvl + 1) (collect sha (lvl + 1) slots carry) zs

    module _ (rest : Rest) (ys zs : List (List ℕ)) (even : length ys % 2 ≡ 0)
        (above : Rep sha slots (up (hash_pair sha) ys)) where
      no_carry_free : zs ≡ ys → 1 ≤ length zs → Collected lvl (collect sha (lvl + 1) slots none) zs
      no_carry_free e le = Collected-above lvl _ zs (omega (arith, ap length e)) (
          rest none (up (hash_pair sha) ys) (up (hash_pair sha) zs) above
            (ap (up (hash_pair sha)) e) (omega (arith, length-up (hash_pair sha) zs)))

      carry_up :
          (c : List ℕ)
          → zs ≡ ys ++ c ∷ []
          → 1 ≤ length ys
          → Collected lvl (collect sha (lvl + 1) slots (some (c, lvl))) zs
      unfolding self_up
      carry_up c e le =
          let one : lvl + 1 - lvl ≡ 1 = omega arith in
          let long : 2 ≤ length zs = omega (arith, ap length e, length-append ys (c ∷ [])) in
          Collected-above lvl _ zs long (
            rest (some (c, lvl)) (up (hash_pair sha) ys) (up (hash_pair sha) zs) above
              (
                omega arith,
                rw one (ap (up (hash_pair sha)) e ∙ up-append_one (hash_pair sha) ys c even),
              )
              (omega (arith, length-up (hash_pair sha) zs)))

      carry_joined :
          (h c : List ℕ)
          → zs ≡ ys ++ h ∷ c ∷ []
          → Collected lvl (collect sha (lvl + 1) slots (some (hash_pair sha h c, lvl + 1))) zs
      unfolding self_up
      carry_joined h c e =
          let nought : lvl + 1 - (lvl + 1) ≡ 0 = omega arith in
          let long : 2 ≤ length zs = omega (arith, ap length e, length-append ys (h ∷ c ∷ [])) in
          Collected-above lvl _ zs long (
            rest (some (hash_pair sha h c, lvl + 1)) (up (hash_pair sha) ys) (up (hash_pair sha) zs)
              above
              (
                omega arith,
                rw nought (ap (up (hash_pair sha)) e ∙ up-append_two (hash_pair sha) ys h c even),
              )
              (omega (arith, length-up (hash_pair sha) zs)))

      no_carry_pending :
          (h : List ℕ)
          → zs ≡ ys ++ h ∷ []
          → Collected lvl (collect sha (lvl + 1) slots (some (h, lvl))) zs
      unfolding self_up collect up
      no_carry_pending h e = elim (dec_lt 0 (length ys)) [
        | yes some_node ↦ carry_up h e some_node
        | no none_there ↦
            let empty = nil_of_length ys (omega arith) in
            let top =
              Rep-nil slots (subst (λ w. Rep sha slots (up (hash_pair sha) w)) empty above) in
            let nought : lvl - lvl ≡ 0 = omega arith in
            subst (λ w. Collected lvl (collect sha (lvl + 1) w (some (h, lvl))) zs) (sym top)
              (Collected-one lvl [] h lvl zs refl
                (omega arith, rw nought (e ∙ ap (λ w. w ++ h ∷ []) empty)))
      ]

  pub collect-Collected :
      (slots : List Slot) (lvl : ℕ) (carry : Carry) (ys zs : List (List ℕ))
      → Rep sha slots ys
      → Carried lvl ys carry zs
      → 1 ≤ length zs
      → Collected lvl (collect sha lvl slots carry) zs
  unfolding collect
  collect-Collected [] lvl none ys zs r e le = absurd (omega (arith, ap length e, ap length r))
  collect-Collected [] lvl (some (c, cl)) ys zs r e le = Collected-one lvl ys c cl zs r e
  collect-Collected (s ∷ slots) lvl none ys zs (_, (below_ys, d, even, above)) e le =
      let rest = collect-Collected slots (lvl + 1) in
      elim (Bool-cases s.occupied) [
        | inl o ↦
            rw (raise-none lvl, o)
              (no_carry_pending slots lvl rest below_ys zs even above s.hash (e ∙ (rw o at d)))
        | inr o ↦
            rw (raise-none lvl, o)
              (no_carry_free slots lvl rest below_ys zs even above (e ∙ (rw o at d)) le)
      ]
  collect-Collected (s ∷ slots) lvl (some (c, cl)) ys zs (len, (below_ys, d, even, above)) (at, e)
        le =
      let rest = collect-Collected slots (lvl + 1) in
      let c' = self_up (hash_pair sha) (lvl - cl) c in
      let raised = raise-some lvl c cl at in
      elim (Bool-cases s.occupied) [
        | inl o ↦
            let below_this : ys ≡ below_ys ++ s.hash ∷ [] = rw o at d in
            rw (raised, o)
              (carry_joined slots lvl rest below_ys zs even above s.hash c' (
                e
                ∙ ap (λ w. w ++ c' ∷ []) below_this
                ∙ append_assoc below_ys (s.hash ∷ []) (c' ∷ [])))
        | inr o ↦
            let below_this : ys ≡ below_ys = rw o at d in
            rw (raised, o)
              (carry_up slots lvl rest below_ys zs even above c'
                (e ∙ ap (λ w. w ++ c' ∷ []) below_this) (omega (arith, ap length below_this)))
      ]
