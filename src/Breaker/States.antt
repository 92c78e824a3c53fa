-- ===== src/Breaker/States.antt =====
-- engine/internal/submitter/resilience.go: when the breaker trips, admits and recovers.
use casper_prover.Prelude.{
  ℕ, suc, ◌+◌, ◌≤◌, ◌<◌, true, false, ◌≡◌, ◌↔◌, ◌⊎◌, arith, if◌then◌else◌, leb, List, [], ◌∷◌,
  length, Bool-cases, inl, inr, ◌∙◌, ap,
}
use casper_prover.Breaker.{
  CircuitBreakerConfig, Breaker, allow, on_failure, circuit_closed, circuit_open, circuit_half_open,
}

module _ (cb : CircuitBreakerConfig) where
  -- A call proceeds exactly when the breaker is closed, or when no probe is under way and it is
  -- half-open or its timeout has passed.
  pub allow_exactly :
      (now : ℕ) (q : Breaker)
      → ((allow cb now q).0.0 ≡ true) ↔ (
          (q.state ≡ circuit_closed)
          ⊎ ((q.probe_in_flight ≡ false)
              × ((q.state ≡ circuit_half_open)
                  ⊎ ((q.state ≡ circuit_open) × (q.opened_at + cb.open_timeout ≤ now)))))
  unfolding allow
  allow_exactly now q = ground arith

  -- Failures of calls that are no probes, at the given times, with no success between.
  abbrev pub failures : List ℕ → Breaker → Breaker
  failures [] q = q
  failures (now ∷ times) q = failures times (on_failure cb false now q)

  still :
      (now : ℕ) (q : Breaker)
      → q.state ≡ circuit_open
      → (on_failure cb false now q).state ≡ circuit_open
  unfolding on_failure
  still now q h = ground arith

  stays_open :
      (times : List ℕ) (q : Breaker)
      → q.state ≡ circuit_open
      → (failures times q).state ≡ circuit_open
  stays_open [] q h = h
  stays_open (now ∷ times) q h = stays_open times (on_failure cb false now q) (still now q h)

  tripped :
      (now : ℕ) (q : Breaker)
      → cb.failure_threshold ≤ suc q.consecutive_fail
      → (on_failure cb false now q).state ≡ circuit_open
  unfolding on_failure
  tripped now q h = ground arith

  counted :
      (now : ℕ) (q : Breaker)
      → suc q.consecutive_fail < cb.failure_threshold
      → on_failure cb false now q ≡ record q { consecutive_fail = suc q.consecutive_fail }
  unfolding on_failure
  counted now q h = ground arith

  failures-state :
      (times : List ℕ) (q : Breaker)
      → q.state ≡ circuit_closed
      → q.consecutive_fail < cb.failure_threshold
      → (failures times q).state ≡ (
          if leb cb.failure_threshold (q.consecutive_fail + length times)
          then circuit_open
          else circuit_closed)
  failures-state [] q h lt = ground arith
  failures-state (now ∷ times) q h lt =
      elim (Bool-cases (leb cb.failure_threshold (suc q.consecutive_fail))) [
        | inl e ↦
            stays_open times (on_failure cb false now q) (tripped now q (ground arith))
            ∙ ground arith
        | inr e ↦
            ap (λ (r : Breaker). (failures times r).state) (counted now q (ground arith))
            ∙ (failures-state times (record q { consecutive_fail = suc q.consecutive_fail }) h
                  (ground arith)
                ∙ ground arith)
      ]

  -- From a closed breaker with no failures counted, a run of failures opens it exactly when they
  -- reach the threshold.
  pub trips_at_threshold :
      (times : List ℕ) (q : Breaker)
      → q.state ≡ circuit_closed
      → q.consecutive_fail ≡ 0
      → 0 < cb.failure_threshold
      → ((failures times q).state ≡ circuit_open) ↔ (cb.failure_threshold ≤ length times)
  trips_at_threshold times q h z p =
      let e = failures-state times q h (omega arith) in ground (arith, e)
