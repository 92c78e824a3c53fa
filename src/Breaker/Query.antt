-- ===== src/Breaker/Query.antt =====
-- engine/internal/submitter/resilience.go: `QueryGlobalState`, and its attempts.
use casper_prover.Prelude.{
  ℕ, zero, suc, Bool, true, false, Option, none, some, ltb, if◌then◌else◌, ◌≡◌, ◌≢◌, refl, arith,
}
use casper_prover.Breaker.{
  CircuitBreakerConfig, Breaker, allow, on_success, on_failure, admit, state_locked, CircuitState,
  circuit_open, circuit_closed, circuit_half_open,
}

-- What the node answers to an attempt, and what it is called with.
pub data Answer (R E : Type 0) : Type 0 where
  success : R → Answer R E
  failure : E → Answer R E

-- How the attempts end: with a result, with the caller's cancellation, or with the last error.
pub data End (R E : Type 0) : Type 0 where
  succeeded : R → End R E
  cancelled : E → End R E
  exhausted : Option E → End R E

pub data Reply (R E : Type 0) : Type 0 where
  reply : R → Reply R E
  err_circuit_open : Reply R E
  context_error : E → Reply R E
  failed_after_retries : Option E → Reply R E

-- `node i` is the answer to attempt i, `cancel i` the context's error if it is done while the
-- delay before attempt i runs, and `finished` the clock when the call ends.
module _ {R E : Type 0} (node : ℕ → Answer R E) (cancel : ℕ → Option E) where
  -- The loop, with the attempts left, the attempt's number and the last error.
  abbrev waits : ℕ → Option E
  waits attempt = if ltb 1 attempt then cancel attempt else none

  unfoldable pub attempts : Bool → ℕ → ℕ → Option E → End R E
  attempts probe zero attempt last = exhausted last
  attempts probe (suc left) attempt last = elim (waits attempt) [
    | some e ↦ cancelled e
    | none ↦ elim (node attempt) [
      | success r ↦ succeeded r
      | failure e ↦ if probe then exhausted (some e) else attempts probe left (suc attempt) (some e)
    ]
  ]

  module _ (cb : CircuitBreakerConfig) where
    abbrev pub conclude : Bool → ℕ → End R E → Breaker → Reply R E × Breaker
    conclude probe finished (succeeded r) q = (reply r, on_success cb probe q)
    conclude probe finished (cancelled e) q = (context_error e, q)
    conclude probe finished (exhausted last) q =
        (failed_after_retries last, on_failure cb probe finished q)

    abbrev proceed : ℕ → ℕ → (Bool × Bool) × Breaker → Reply R E × Breaker
    proceed max_attempts finished ((false, probe), q) = (err_circuit_open, q)
    proceed max_attempts finished ((true, probe), q) =
        conclude probe finished (attempts probe max_attempts 1 none) q

    -- `QueryGlobalState`, started at `now`.
    unfoldable pub query_global_state : ℕ → ℕ → ℕ → Breaker → Reply R E × Breaker
    query_global_state max_attempts now finished q = proceed max_attempts finished (allow cb now q)

    -- A probe is never cancelled between its start and its end.
    pub probe_not_cancelled :
        (max : ℕ) (last : Option E) (e : E) → attempts true max 1 last ≢ cancelled e
    unfolding attempts
    probe_not_cancelled zero last e = λ h. cc
    probe_not_cancelled (suc max) last e = λ h. absurd (lost (node 1) h)
      where
        lost :
            (a : Answer R E)
            → (elim a as (λ _. End R E) [
              | success r ↦ succeeded r
              | failure x ↦ exhausted (some x)
            ])
              ≢ cancelled e
        lost (success r) = λ h. cc
        lost (failure x) = λ h. cc

    conclude-free :
        (finished : ℕ) (end : End R E) (q : Breaker)
        → q.probe_in_flight ≡ false
        → (conclude false finished end q).1.probe_in_flight ≡ false
    unfolding on_success on_failure
    conclude-free finished (succeeded r) q h = h
    conclude-free finished (cancelled e) q h = h
    conclude-free finished (exhausted last) q h = ground arith

    conclude-probe :
        (finished : ℕ) (end : End R E) (q : Breaker)
        → ((e : E) → end ≢ cancelled e)
        → (conclude true finished end q).1.probe_in_flight ≡ false
    unfolding on_success on_failure
    conclude-probe finished (succeeded r) q h = refl
    conclude-probe finished (cancelled e) q h = absurd (h e refl)
    conclude-probe finished (exhausted last) q h = refl

    admitted :
        (max finished : ℕ) (st : CircuitState) (q : Breaker)
        → q.probe_in_flight ≡ false
        → (proceed max finished (admit cb st q)).1.probe_in_flight ≡ false
    admitted max finished circuit_open q h = h
    admitted max finished circuit_closed q h =
        conclude-free finished (attempts false max 1 none) q h
    admitted max finished circuit_half_open q h =
        rw h (conclude-probe finished (attempts true max 1 none) _ (probe_not_cancelled max none))

    -- A query that starts with the probe slot free ends with it free, whatever the node answers,
    -- and wherever the caller cancels.
    pub probe_released :
        (max now finished : ℕ) (q : Breaker)
        → q.probe_in_flight ≡ false
        → (query_global_state max now finished q).1.probe_in_flight ≡ false
    unfolding query_global_state allow
    probe_released max now finished q h = admitted max finished (state_locked cb now q) q h
