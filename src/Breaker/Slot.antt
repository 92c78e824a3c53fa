-- ===== src/Breaker/Slot.antt =====
-- engine/internal/submitter/resilience.go: concurrent queries of one breaker. Each critical section
-- under the mutex is a step, and the calls that have started and not ended are a list of their
-- probe flags.
use casper_prover.Prelude.{
  ℕ, ◌+◌, ◌≤◌, Bool, true, false, List, [], ◌∷◌, ◌++◌, ◌≡◌, refl, arith, count, if◌then◌else◌,
  count-append,
}
use casper_prover.Breaker.{
  CircuitBreakerConfig, Breaker, new, allow, admit, on_success, on_failure, state_locked,
  CircuitState, circuit_closed, circuit_open, circuit_half_open,
}

abbrev pub System : Type 0
System = Breaker × List Bool

abbrev pub started : (Bool × Bool) × Breaker → List Bool → System
started ((true, probe), q) calls = (q, probe ∷ calls)
started ((false, probe), q) calls = (q, calls)

module _ (cb : CircuitBreakerConfig) where
  pub data Step : System → System → Type 0 where
    start :
        {q : Breaker} {calls : List Bool} (now : ℕ)
        → Step (q, calls) (started (allow cb now q) calls)
    succeed :
        {q : Breaker} (before after : List Bool) (probe : Bool)
        → Step (q, before ++ (probe ∷ after)) (on_success cb probe q, before ++ after)
    fail :
        {q : Breaker} (before after : List Bool) (probe : Bool) (now : ℕ)
        → Step (q, before ++ (probe ∷ after)) (on_failure cb probe now q, before ++ after)
    -- only a call that is no probe is cancelled
    cancel :
        {q : Breaker} (before after : List Bool)
        → Step (q, before ++ (false ∷ after)) (q, before ++ after)

  pub data Reachable : System → Type 0 where
    begin : Reachable (new, [])
    next : {s t : System} → Reachable s → Step s t → Reachable t

  abbrev pub probes : List Bool → ℕ
  probes calls = count (λ p. p) calls

  abbrev pub slot : Breaker → ℕ
  slot q = if q.probe_in_flight then 1 else 0

  -- The slot is taken exactly while a probe is under way.
  abbrev Accounted : System → Type 0
  Accounted (q, calls) = probes calls ≡ slot q

  probes-remove :
      (before after : List Bool) (p : Bool)
      → probes (before ++ (p ∷ after)) ≡ (if p then 1 else 0) + probes (before ++ after)
  probes-remove before after p =
      ground (arith, count-append (λ b. b) before (p ∷ after), count-append (λ b. b) before after)

  admit-Accounted :
      (st : CircuitState) (q : Breaker) (calls : List Bool)
      → Accounted (q, calls)
      → Accounted (started (admit cb st q) calls)
  admit-Accounted circuit_open q calls h = h
  admit-Accounted circuit_closed q calls h = omega (arith, h)
  admit-Accounted circuit_half_open q calls h = ground arith

  Step-Accounted : {s t : System} → Step s t → Accounted s → Accounted t
  unfolding allow on_success on_failure
  Step-Accounted (start {q} {calls} now) h = admit-Accounted (state_locked cb now q) q calls h
  Step-Accounted (succeed {q} before after probe) h =
      ground (arith, probes-remove before after probe)
  Step-Accounted (fail {q} before after true now) h =
      ground (arith, probes-remove before after true)
  Step-Accounted (fail {q} before after false now) h =
      ground (arith, probes-remove before after false)
  Step-Accounted (cancel {q} before after) h = ground (arith, probes-remove before after false)

  account : {s : System} → Reachable s → Accounted s
  account begin = refl
  account (next r t) = Step-Accounted t (account r)

  -- However concurrent queries interleave, at most one probe is under way, and the breaker's flag is
  -- set exactly while one is.
  pub one_probe :
      (q : Breaker) (calls : List Bool)
      → Reachable (q, calls)
      → (probes calls ≤ 1) × (probes calls ≡ slot q)
  one_probe q calls r = let e = account r in (ground arith, e)
