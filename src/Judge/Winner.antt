-- ===== src/Judge/Winner.antt =====
-- engine/internal/judge/facet_judge.go, `decideFacet`: when a facet is AGREE, and that the order of the
-- loop over the tally does not matter for the verdict.
use mathlib.Core.List.{Perm}
use casper_prover.Prelude.{
  ℕ, ◌≤◌, ◌<◌, String, Bool, true, false, List, [], ◌∷◌, ◌≡◌, ◌≢◌, refl, inl, inr, count, ◌==◌,
  str_eq, if◌then◌else◌, Bool-cases, among, arith, ℤ, pos, leb_int, map,
}
use casper_prover.Prelude.Assoc.{Assoc, lookup, lookup-nil}
use casper_prover.Llm.Runner.{PollResult}
use casper_prover.Judge.{
  Library, agree, disagree, abstain, Vote, Facet, FacetResult, tallied, top_of, tally_all, live,
  result_of, judge_top, decide_votes, vote_of,
}
use casper_prover.Judge.Tally.{top_of-perm, votes, tally_all-count}
use casper_prover.Judge.Menu.{normalize_vote-among, Spoken, tally, top_entry, top_greatest}

disagree-ne-agree : disagree ≡ agree → ⊥
disagree-ne-agree h = cc

abstain-ne-agree : abstain ≡ agree → ⊥
abstain-ne-agree h = cc

nothing_yet : (v : String) → tallied (lookup v []) ≡ 0
nothing_yet v = rw (lookup-nil {V = ℕ} v) refl

menu-Spoken :
    (lib : Library) (allowed : List String) → allowed ≢ [] → Spoken lib allowed (among allowed)
menu-Spoken lib [] h = absurd (h refl)
menu-Spoken lib (v ∷ vs) h = λ raw. normalize_vote-among lib raw v vs

module _ (lib : Library) where
  open lib use {F, le, ratio}

  -- The verdict and the fraction depend on the top's count alone.
  judge_top-count :
      (id : String) (vs : List Vote) (n : ℕ) (threshold : F) (a b : String × ℕ)
      → a.1 ≡ b.1
      → ((judge_top lib id vs n threshold a).verdict ≡ (judge_top lib id vs n threshold b).verdict)
        × ((judge_top lib id vs n threshold a).live_count
            ≡ (judge_top lib id vs n threshold b).live_count)
        × ((judge_top lib id vs n threshold a).agreement_fraction
            ≡ (judge_top lib id vs n threshold b).agreement_fraction)
  judge_top-count id vs n threshold (a, k) (b, j) e =
      rw e (split (j == 0) (le threshold (ratio j n)))
    where
      pick : Bool → Bool → String → FacetResult F
      pick none_top enough top =
          if none_top
          then result_of lib id vs n disagree "" lib.zero
          else (if enough
              then result_of lib id vs n agree top (ratio j n)
              else result_of lib id vs n disagree "" (ratio j n))

      split :
          (p q : Bool)
          → ((pick p q a).verdict ≡ (pick p q b).verdict)
            × ((pick p q a).live_count ≡ (pick p q b).live_count)
            × ((pick p q a).agreement_fraction ≡ (pick p q b).agreement_fraction)
      split true q = (refl, refl, refl)
      split false true = (refl, refl, refl)
      split false false = (refl, refl, refl)

  -- Whatever the order of the loop over the tally, a facet's verdict, its number of live providers
  -- and its fraction are the same.
  pub decide_votes-order :
      (range other : Assoc ℕ → List (String × ℕ)) (facet : Facet F) (min_providers : ℤ)
      (threshold : F) (polls : List PollResult)
      → Perm
          (range (tally_all lib facet.allowed_values polls []))
          (other (tally_all lib facet.allowed_values polls []))
      → ((decide_votes lib range facet min_providers threshold polls).verdict
          ≡ (decide_votes lib other facet min_providers threshold polls).verdict)
        × ((decide_votes lib range facet min_providers threshold polls).live_count
            ≡ (decide_votes lib other facet min_providers threshold polls).live_count)
        × ((decide_votes lib range facet min_providers threshold polls).agreement_fraction
            ≡ (decide_votes lib other facet min_providers threshold polls).agreement_fraction)
  unfolding decide_votes
  decide_votes-order range other facet min_providers threshold polls perm =
      elim (Bool-cases (leb_int min_providers (pos (count (live lib) polls)))) [
        | inl e ↦ rw e (
            judge_top-count facet.id (map (vote_of lib facet.allowed_values) polls)
              (count (live lib) polls) threshold
              (top_of ("", 0) (range (tally_all lib facet.allowed_values polls [])))
              (top_of ("", 0) (other (tally_all lib facet.allowed_values polls [])))
              (top_of-perm ("", 0) (range (tally_all lib facet.allowed_values polls []))
                (other (tally_all lib facet.allowed_values polls [])) perm))
        | inr e ↦ rw e (refl, refl, refl)
      ]

  judge_top-agree :
      (id : String) (vs : List Vote) (n : ℕ) (threshold : F) (top : String × ℕ)
      → (judge_top lib id vs n threshold top).verdict ≡ agree
      → ((top.1 == 0) ≡ false)
        × (le threshold (ratio top.1 n) ≡ true)
        × ((judge_top lib id vs n threshold top).winner ≡ top.0)
  judge_top-agree id vs n threshold (top, c) h = elim (Bool-cases (c == 0)) [
    | inl e ↦ absurd (disagree-ne-agree (rw e at h))
    | inr e ↦ elim (Bool-cases (le threshold (ratio c n))) [
      | inl g ↦ (e, g, rw (e, g) refl)
      | inr g ↦ absurd (disagree-ne-agree (rw (e, g) at h))
    ]
  ]

  module _ (range : Assoc ℕ → List (String × ℕ)) (facet : Facet F) (min_providers : ℤ)
      (threshold : F) (polls : List PollResult) where
    abbrev pub ranged : List (String × ℕ)
    ranged = range (tally lib facet.allowed_values polls)

    abbrev pub outcome : FacetResult F
    outcome = decide_votes lib range facet min_providers threshold polls

    decide_votes-winner :
        outcome.verdict ≡ agree
        → (leb_int min_providers (pos (count (live lib) polls)) ≡ true)
          × (((top_of ("", 0) ranged).1 == 0) ≡ false)
          × (le threshold (ratio (top_of ("", 0) ranged).1 (count (live lib) polls)) ≡ true)
          × (outcome.winner ≡ (top_of ("", 0) ranged).0)
    unfolding decide_votes
    decide_votes-winner h =
        elim (Bool-cases (leb_int min_providers (pos (count (live lib) polls)))) [
          | inl e ↦
              let (a, b, c) =
                judge_top-agree facet.id (map (vote_of lib facet.allowed_values) polls)
                  (count (live lib) polls) threshold (top_of ("", 0) ranged) (rw e at h) in
              (e, a, b, rw e c)
          | inr e ↦ absurd (abstain-ne-agree (rw e at h))
        ]

    -- Where a facet is AGREE, at least the minimum of providers answered, the winner was given by at
    -- least one, any value was given at most as often, and the winner's share of the answers reaches
    -- the threshold. The order of the loop over the tally is any.
    pub decide_votes-agree :
        (v : String)
        → str_eq v "" ≡ false
        → Perm ranged (tally lib facet.allowed_values polls)
        → outcome.verdict ≡ agree
        → (leb_int min_providers (pos (count (live lib) polls)) ≡ true)
          × (0 < count (votes lib facet.allowed_values outcome.winner) polls)
          × (le threshold (
                ratio
                  (count (votes lib facet.allowed_values outcome.winner) polls)
                  (count (live lib) polls))
              ≡ true)
          × (count (votes lib facet.allowed_values v) polls
              ≤ count (votes lib facet.allowed_values outcome.winner) polls)
    decide_votes-agree v named_v perm h =
        let (enough, some_votes, share, won) = decide_votes-winner h in
        let top = top_of ("", 0) ranged in
        let found =
          top_entry lib facet.allowed_values (λ v. true) (λ raw. inr refl) polls ranged perm in
        let named : str_eq top.0 "" ≡ false = ground arith in
        let stored : tallied (lookup top.0 (tally lib facet.allowed_values polls)) ≡ top.1 =
          ground arith in
        let counted : count (votes lib facet.allowed_values top.0) polls ≡ top.1 = omega (
          arith,
          tally_all-count lib facet.allowed_values top.0 polls [] named,
          stored,
          nothing_yet top.0,
        ) in
        rw (won, counted)
          (
            enough,
            ground arith,
            share,
            top_greatest lib facet.allowed_values polls ranged v perm named_v,
          )

    -- Where a facet with a menu is AGREE, its winner is a value of the menu.
    pub decide_votes-among :
        facet.allowed_values ≢ []
        → Perm ranged (tally lib facet.allowed_values polls)
        → outcome.verdict ≡ agree
        → among facet.allowed_values outcome.winner ≡ true
    decide_votes-among menu perm h =
        let (enough, some_votes, share, won) = decide_votes-winner h in
        let top = top_of ("", 0) ranged in
        let found =
          top_entry lib facet.allowed_values (among facet.allowed_values)
            (menu-Spoken lib facet.allowed_values menu) polls ranged perm in
        rw won (ground arith)
