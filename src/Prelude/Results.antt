-- ===== src/Prelude/Results.antt =====
-- Go's pair of a value and an error, of which one is there: a call's value or its error.
use mathlib.Core.Path.{◌≡◌, refl}

pub data Outcome {ℓ} (E : Type 0) (A : Type ℓ) : Type ℓ where
  ok : A → Outcome E A
  err : E → Outcome E A

infixl 5 ◌>>=◌
-- `if err != nil { return err }`, and the rest with the value.
abbrev pub ◌>>=◌ {ℓ κ} :
    {E : Type 0} {A : Type ℓ} {B : Type κ} → Outcome E A → (A → Outcome E B) → Outcome E B
err failure >>= rest = err failure
ok value >>= rest = rest value

-- A sequence that succeeds has a first step that does, and a rest that does with its value.
pub succeeds_through {ℓ κ} :
    {E : Type 0} {A : Type ℓ} {B : Type κ} (step : Outcome E A) (rest : A → Outcome E B) {out : B}
    → (step >>= rest) ≡ ok out
    → (mid : A) × (step ≡ ok mid) × (rest mid ≡ ok out)
succeeds_through (err failure) rest done = cc
succeeds_through (ok value) rest done = (value, refl, done)
