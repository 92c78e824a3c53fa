-- ===== src/Examples/Circuits.antt =====
-- Runs of the circuit breaker on small inputs.
use casper_prover.Prelude.{
  ℕ, ◌≤◌, ◌≡◌, ◌↔◌, true, false, List, [], ◌∷◌, Option, none, length, refl, arith, ◌==◌,
  if◌then◌else◌,
}
use casper_prover.Breaker.{
  CircuitBreakerConfig, Breaker, new, allow, on_failure, circuit_open, circuit_half_open,
}
use casper_prover.Breaker.Query.{Answer, success, failure, query_global_state, probe_released}
use casper_prover.Breaker.Slot.{start, fail, Reachable, begin, next, probes, slot, one_probe}
use casper_prover.Breaker.States.{failures, trips_at_threshold}

abbrev config : CircuitBreakerConfig
config = record { failure_threshold = 1; open_timeout = 10 }

abbrev opened : Breaker
opened = record {
  state = circuit_open;
  consecutive_fail = 1;
  opened_at = 5;
  probe_in_flight = false;
}

abbrev probing : Breaker
probing = record {
  state = circuit_half_open;
  consecutive_fail = 1;
  opened_at = 5;
  probe_in_flight = true;
}

reached : Reachable config (probing, true ∷ [])
unfolding allow on_failure
reached = next (next (next begin (start 0)) (fail [] [] false 5)) (start 20)

one_probe_example :
    (probes config (true ∷ []) ≤ 1) × (probes config (true ∷ []) ≡ slot config probing)
one_probe_example = one_probe config probing (true ∷ []) reached

-- A node that fails once and then answers.
abbrev node : ℕ → Answer ℕ ℕ
node i = if i == 1 then failure 7 else success i

abbrev patient : ℕ → Option ℕ
patient _ = none

released : (query_global_state node patient config 4 20 21 opened).1.probe_in_flight ≡ false
released = probe_released node patient config 4 20 21 opened refl

abbrev times : List ℕ
times = 3 ∷ []

tripped : ((failures config times new).state ≡ circuit_open) ↔ (1 ≤ length times)
tripped = trips_at_threshold config times new refl refl (omega arith)
