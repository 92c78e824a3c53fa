-- ===== src/Attest/Order.antt =====
-- engine/internal/decision/attest/decision.go, `Aggregate`: the verdict forgets the order in which
-- the facets were evaluated. (The cited facet and the reason do depend on it.)
use mathlib.Core.List.{Perm, Permᴰ}
use mathlib.Core.Logic.{∥∥₁_elim}
use casper_prover.Prelude.{◌≡◌, ◌≢◌, refl, ◌∙◌, Bool, List, [], arith, any, count}
use casper_prover.Prelude.Float.{Floats}
use casper_prover.Attest.{Verdict, FacetVerdict, AggregationPolicy, aggregate, vetoes, withholds}
use casper_prover.Attest.Outcome.{objects, supports, aggregate-verdict}

any-Permᴰ {ℓ} : {A : Type ℓ} (p : A → Bool) {xs ys : List A} → Permᴰ xs ys → any p xs ≡ any p ys
any-Permᴰ p Permᴰ.nil = refl
any-Permᴰ p (Permᴰ.cons e h) = rw (e, any-Permᴰ p h)
any-Permᴰ p (Permᴰ.swap e f) = rw (e, f) (ground arith)
any-Permᴰ p (Permᴰ.trans h k) = any-Permᴰ p h ∙ any-Permᴰ p k

count-Permᴰ {ℓ} :
    {A : Type ℓ} (p : A → Bool) {xs ys : List A} → Permᴰ xs ys → count p xs ≡ count p ys
count-Permᴰ p Permᴰ.nil = refl
count-Permᴰ p (Permᴰ.cons e h) = rw (e, count-Permᴰ p h)
count-Permᴰ p (Permᴰ.swap e f) = rw (e, f) (omega arith)
count-Permᴰ p (Permᴰ.trans h k) = count-Permᴰ p h ∙ count-Permᴰ p k

Permᴰ-ne-nil {ℓ} : {A : Type ℓ} {xs ys : List A} → Permᴰ xs ys → xs ≢ [] → ys ≢ []
Permᴰ-ne-nil Permᴰ.nil h = h
Permᴰ-ne-nil (Permᴰ.cons e k) h = λ q. cc
Permᴰ-ne-nil (Permᴰ.swap e f) h = λ q. cc
Permᴰ-ne-nil (Permᴰ.trans k l) h = Permᴰ-ne-nil l (Permᴰ-ne-nil k h)

Verdict-set : IsSet Verdict
Verdict-set = hlevel

-- Reordering the facet verdicts does not change the aggregate verdict.
pub aggregate-perm :
    (fl : Floats) (policy : AggregationPolicy fl.F) {vs ws : List (FacetVerdict fl.F)}
    → vs ≢ []
    → Perm vs ws
    → (aggregate fl policy vs).verdict ≡ (aggregate fl policy ws).verdict
aggregate-perm fl policy {vs} {ws} h perm = ∥∥₁_elim perm (Verdict-set _ _) λ p. rw (
  aggregate-verdict fl policy vs h,
  aggregate-verdict fl policy ws (Permᴰ-ne-nil p h),
  any-Permᴰ (vetoes fl) p,
  any-Permᴰ (withholds fl) p,
  any-Permᴰ (objects fl policy) p,
  count-Permᴰ (supports fl policy) p,
)
