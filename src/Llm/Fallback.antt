-- ===== src/Llm/Fallback.antt =====
-- engine/internal/llm/runner.go, `Complete`: what its log tells of its result, and when the fixture
-- answers.
use casper_prover.Prelude.{
  Bool, true, false, ◌||◌, not, Option, none, some, List, [], ◌∷◌, ◌++◌, ◌≡◌, refl, inl, inr, ◌⊎◌,
  sym, map, any, held, Bool-cases, Option-cases, Outcome, ok, err, length, arith, ℕ,
}
use casper_prover.Llm.{Request, Response, Failure, Provider, Fixture, CallContext, fixture_complete}
use casper_prover.Llm.Runner.{
  Runner, Attempt, Called, Report, Contexts, called, call_one, call_context, first_resp, fall_back,
  won, answer_forced, answer_last, last_resort, after_fast, with_providers, complete,
  fixture_attempt, or_else, forced, complete_by,
}

abbrev pub is_ok {ℓ} : {E : Type 0} {A : Type ℓ} → Outcome E A → Bool
is_ok (ok a) = true
is_ok (err e) = false

abbrev pub succeeded : Attempt → Bool
succeeded a = a.success

any-append {ℓ} :
    {A : Type ℓ} (p : A → Bool) (xs ys : List A) → any p (xs ++ ys) ≡ (any p xs || any p ys)
any-append p [] ys = refl
any-append p (x ∷ xs) ys = ground (arith, any-append p xs ys)

false-ne-true : false ≡ true → ⊥
false-ne-true h = cc

-- A row of the log is a success exactly when the call has a response.
row_tells :
    (cx : CallContext) (req : Request) (p : Provider)
    → (call_one cx req p).attempt.success ≡ held (call_one cx req p).resp
unfolding call_one
row_tells cx req p = tells (p.complete cx req).outcome
  where
    tells :
        (out : Outcome Failure Response)
        → (called p.id (p.complete cx req) out).attempt.success
          ≡ held (called p.id (p.complete cx req) out).resp
    tells (ok r) = refl
    tells (err f) = refl

abbrev arrived : CallContext → Request → List Provider → List Called
arrived cx req order = map (call_one cx req) order

abbrev rows : List Called → List Attempt
rows calls = map (λ (c : Called). c.attempt) calls

first_resp-held :
    (cx : CallContext) (req : Request) (order : List Provider)
    → held (first_resp (arrived cx req order)) ≡ any succeeded (rows (arrived cx req order))
unfolding first_resp
first_resp-held cx req [] = refl
first_resp-held cx req (p ∷ order) = elim (Option-cases (call_one cx req p).resp) [
  | inl e ↦ ground (arith, row_tells cx req p, first_resp-held cx req order)
  | inr (r, e) ↦ ground (arith, row_tells cx req p)
]

fall_back-held :
    (cx : CallContext) (req : Request) (ps : List Provider)
    → held (fall_back cx req ps).0 ≡ any succeeded (fall_back cx req ps).1
unfolding fall_back
fall_back-held cx req [] = refl
fall_back-held cx req (p ∷ ps) = elim (Option-cases (call_one cx req p).resp) [
  | inl e ↦ elim (Bool-cases (call_one cx req p).expired) [
    | inl late ↦ ground (arith, row_tells cx req p)
    | inr early ↦ ground (arith, row_tells cx req p, fall_back-held cx req ps)
  ]
  | inr (r, e) ↦ ground (arith, row_tells cx req p)
]

-- A result whose log has a success exactly when it is a response.
abbrev pub Tells : Outcome (Option Failure) Response × Report → Type 0
Tells out = is_ok out.0 ≡ any succeeded out.1.attempts

answer_last-Tells :
    (size : ℕ) (attempts : List Attempt) (out : Outcome Failure Response)
    → any succeeded attempts ≡ false
    → Tells (answer_last size attempts out)
answer_last-Tells size attempts (ok r) h =
    ground (arith, any-append succeeded attempts (fixture_attempt r.provider true "" ∷ []))
answer_last-Tells size attempts (err e) h = ground arith

last_resort-Tells :
    (r : Runner) (ends : Contexts) (req : Request) (attempts : List Attempt)
    → any succeeded attempts ≡ false
    → Tells (last_resort r ends req attempts)
last_resort-Tells r ends req attempts h = elim (Option-cases r.fixture) [
  | inl e ↦ rw e (ground arith)
  | inr (f, e) ↦ elim (Bool-cases r.cfg.enable_fixture_fallback) [
    | inl g ↦
        rw (e, g) (answer_last-Tells (length r.fast) attempts (fixture_complete f ends.own req) h)
    | inr g ↦ rw (e, g) (ground arith)
  ]
]

or_else-Tells :
    (size : ℕ) (attempts : List Attempt) (o : Option Response)
    (rest : Outcome (Option Failure) Response × Report)
    → held o ≡ any succeeded attempts
    → (any succeeded attempts ≡ false → Tells rest)
    → Tells (or_else size attempts o rest)
or_else-Tells size attempts (some w) rest h g = h
or_else-Tells size attempts none rest h g = g (sym h)

after_fast-Tells :
    (r : Runner) (ends : Contexts) (req : Request) (attempts : List Attempt)
    → any succeeded attempts ≡ false
    → Tells (after_fast r ends req attempts)
unfolding after_fast
after_fast-Tells r ends req attempts h =
    let (resp, rows_of) = fall_back (call_context r ends) req r.reliability in
    or_else-Tells (length r.fast) (attempts ++ rows_of) resp
      (last_resort r ends req (attempts ++ rows_of))
      (ground (
        arith,
        any-append succeeded attempts rows_of,
        fall_back-held (call_context r ends) req r.reliability,
      ))
      (last_resort-Tells r ends req (attempts ++ rows_of))

with_providers-Tells :
    (r : Runner) (ends : Contexts) (req : Request) (order : List Provider)
    → Tells (with_providers r ends req (arrived (call_context r ends) req order))
unfolding with_providers
with_providers-Tells r ends req order =
    or_else-Tells (length r.fast) (rows (arrived (call_context r ends) req order))
      (first_resp (arrived (call_context r ends) req order))
      (after_fast r ends req (rows (arrived (call_context r ends) req order)))
      (first_resp-held (call_context r ends) req order)
      (after_fast-Tells r ends req (rows (arrived (call_context r ends) req order)))

answer_forced-Tells : (size : ℕ) (out : Outcome Failure Response) → Tells (answer_forced size out)
answer_forced-Tells size (ok w) = refl
answer_forced-Tells size (err x) = refl

complete_by-Tells :
    (r : Runner) (ends : Contexts) (req : Request) (order : List Provider) (o : Option Fixture)
    → Tells (complete_by r ends req (arrived (call_context r ends) req order) o)
complete_by-Tells r ends req order none = with_providers-Tells r ends req order
complete_by-Tells r ends req order (some f) =
    answer_forced-Tells (length r.fast) (fixture_complete f ends.run req)

-- In whatever order the parallel calls return, Complete's log has a successful row exactly when
-- Complete returns a response: of a fast provider, of a fallback or of the fixture, forced or not.
pub complete-Tells :
    (r : Runner) (ends : Contexts) (req : Request) (order : List Provider)
    → is_ok (complete r ends req (map (call_one (call_context r ends) req) order)).0
      ≡ any succeeded
          (complete r ends req (map (call_one (call_context r ends) req) order)).1.attempts
unfolding complete
complete-Tells r ends req order =
    complete_by-Tells r ends req order (forced r.cfg.force_fixture r.fixture)

or_else-cases :
    (size : ℕ) (attempts : List Attempt) (o : Option Response)
    (rest : Outcome (Option Failure) Response × Report)
    → ((w : Response) × (o ≡ some w) × (or_else size attempts o rest ≡ won size attempts w))
      ⊎ ((o ≡ none) × (or_else size attempts o rest ≡ rest))
or_else-cases size attempts (some w) rest = inl (w, refl, refl)
or_else-cases size attempts none rest = inr (refl, refl)

-- Where the fixture is not forced and Complete reports its answer, or fails, no call that it made
-- had a response: neither one of the fast tier nor one of the fallbacks.
pub complete-fixture_last :
    (r : Runner) (ends : Contexts) (req : Request) (arrivals : List Called)
    → r.cfg.force_fixture ≡ false
    → ((complete r ends req arrivals).1.fixture || not (is_ok (complete r ends req arrivals).0))
      ≡ true
    → (first_resp arrivals ≡ none) × ((fall_back (call_context r ends) req r.reliability).0 ≡ none)
unfolding complete with_providers after_fast
complete-fixture_last r ends req arrivals unforced h =
    let out = fall_back (call_context r ends) req r.reliability in
    let attempts = rows arrivals ++ out.1 in
    let last = last_resort r ends req attempts in
    let after = or_else (length r.fast) attempts out.0 last in
    let h' : (((or_else (length r.fast) (rows arrivals) (first_resp arrivals) after).1.fixture
          || not (is_ok (or_else (length r.fast) (rows arrivals) (first_resp arrivals) after).0))
        ≡ true) =
      rw (unforced, forced) at h in
    elim (or_else-cases (length r.fast) (rows arrivals) (first_resp arrivals) after) [
      | inl (w, e, q) ↦ absurd (false-ne-true (rw q at h'))
      | inr (e, q) ↦ elim (or_else-cases (length r.fast) attempts out.0 last) [
        | inl (w, f, g) ↦ absurd (false-ne-true (rw g at (rw q at h')))
        | inr (f, g) ↦ (e, f)
      ]
    ]

or_else-is_ok :
    (size : ℕ) (attempts : List Attempt) (o : Option Response)
    (rest : Outcome (Option Failure) Response × Report)
    → is_ok rest.0 ≡ true
    → is_ok (or_else size attempts o rest).0 ≡ true
or_else-is_ok size attempts (some w) rest h = refl
or_else-is_ok size attempts none rest h = h

-- With a fixture, its fallback enabled, and no context at an end when the fixture is asked,
-- Complete returns a response, whatever the providers do.
pub complete-is_ok :
    (r : Runner) (ends : Contexts) (req : Request) (arrivals : List Called) (f : Fixture)
    → r.fixture ≡ some f
    → r.cfg.enable_fixture_fallback ≡ true
    → ends.run ≡ none
    → ends.own ≡ none
    → is_ok (complete r ends req arrivals).0 ≡ true
unfolding complete with_providers after_fast fixture_complete
complete-is_ok r ends req arrivals f has enabled run own =
    let out = fall_back (call_context r ends) req r.reliability in
    let attempts = rows arrivals ++ out.1 in
    let last = last_resort r ends req attempts in
    let served : is_ok last.0 ≡ true = ground arith in
    let after =
      or_else-is_ok (length r.fast) (rows arrivals) (first_resp arrivals)
        (or_else (length r.fast) attempts out.0 last)
        (or_else-is_ok (length r.fast) attempts out.0 last served) in
    elim (Bool-cases r.cfg.force_fixture) [ inl e ↦ ground arith | inr e ↦ ground arith ]
