-- ===== src/Llm/Budget.antt =====
-- engine/internal/llm/runner.go, `NewRunner`: the settings that it keeps, and the providers.
use mathlib.Core.List.{Perm}
use casper_prover.Prelude.{
  ℕ, suc, Bool, true, false, Option, List, [], ◌∷◌, ◌≡◌, inl, inr, All, select, if◌then◌else◌,
  Bool-cases, ℤ, pos, leb_int, ltb_int, arith,
}
use casper_prover.Prelude.Sort.{sort, sort-perm}
use casper_prover.Prelude.IntOrder.{All-sort, ltb_int-false, leb_int_refl}
use casper_prover.Llm.{Config, Provider, Fixture, is_fast, is_reliability, Tier}
use casper_prover.Llm.Runner.{unset, settle, present, usable, by_id, new_runner}

-- Both durations are positive, and one call fits in the budget of the run.
pub record Settled (c : Config) : Type 0 where
  pub timeout : unset c.per_provider_timeout ≡ false
  pub budget : unset c.total_budget ≡ false
  pub fits : leb_int c.per_provider_timeout c.total_budget ≡ true

pub settle-Settled : (c : Config) → Settled (settle c)
unfolding settle
settle-Settled c =
    settled_by (if unset c.per_provider_timeout then pos 3000 else c.per_provider_timeout)
      (if unset c.total_budget then pos 8000 else c.total_budget)
      (set_or c.per_provider_timeout 2999) (set_or c.total_budget 7999)
  where
    set_or : (t : ℤ) (n : ℕ) → unset (if unset t then pos (suc n) else t) ≡ false
    set_or t n = elim (Bool-cases (unset t)) [ inl e ↦ rw e (ground arith) | inr e ↦ rw e e ]

    settled_by :
        (timeout budget : ℤ)
        → unset timeout ≡ false
        → unset budget ≡ false
        → Settled (record c {
          per_provider_timeout = if ltb_int budget timeout then budget else timeout;
          total_budget = budget;
        })
    settled_by timeout budget t b = elim (Bool-cases (ltb_int budget timeout)) [
      | inl e ↦ rw e (record { timeout = b; budget = b; fits = leb_int_refl budget })
      | inr e ↦ rw e (record { timeout = t; budget = b; fits = ltb_int-false budget timeout e })
    ]

All-select {ℓ} : {A : Type ℓ} (p : A → Bool) (xs : List A) → All (λ x. p x ≡ true) (select p xs)
All-select p [] = tt
All-select p (x ∷ xs) = elim (Bool-cases (p x)) [
  | inl e ↦ rw (e, All) (e, All-select p xs)
  | inr e ↦ rw (e, All) (All-select p xs)
]

tier_usable :
    (in_tier : Tier → Bool) (ps : List Provider)
    → All (λ p. usable in_tier p ≡ true) (sort by_id (select (usable in_tier) ps))
tier_usable in_tier ps =
    All-sort (λ p. usable in_tier p ≡ true) by_id (select (usable in_tier) ps)
      (All-select (usable in_tier) ps)

-- A new runner's durations are positive and one call fits in the budget, whatever was configured;
-- each provider in a tier has a key and is of that tier; and the tiers hold, up to order, all the
-- providers given that have a key and are of that tier.
pub new_runner-Settled :
    (providers : List (Option Provider)) (fixture : Option Fixture) (cfg : Config)
    → Settled (new_runner providers fixture cfg).cfg
      × All (λ p. usable is_fast p ≡ true) (new_runner providers fixture cfg).fast
      × All (λ p. usable is_reliability p ≡ true) (new_runner providers fixture cfg).reliability
      × Perm (new_runner providers fixture cfg).fast (select (usable is_fast) (present providers))
      × Perm
          (new_runner providers fixture cfg).reliability
          (select (usable is_reliability) (present providers))
unfolding new_runner
new_runner-Settled providers fixture cfg = (
  settle-Settled cfg,
  tier_usable is_fast (present providers),
  tier_usable is_reliability (present providers),
  sort-perm by_id (select (usable is_fast) (present providers)),
  sort-perm by_id (select (usable is_reliability) (present providers)),
)
