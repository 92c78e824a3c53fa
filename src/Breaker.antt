-- ===== src/Breaker.antt =====
-- engine/internal/submitter/resilience.go: the circuit breaker around the node's queries.
-- The clock, the node's answers and the caller's cancellation are inputs; the delays between
-- attempts pass time only. Counts and durations are not negative.
pub mod Query
pub mod Slot
pub mod States
use casper_prover.Prelude.{ℕ, suc, ◌+◌, Bool, true, false, leb, ◌==◌, if◌then◌else◌}

pub data CircuitState : Type 0 where
  circuit_closed circuit_open circuit_half_open : CircuitState

pub record CircuitBreakerConfig : Type 0 where
  pub failure_threshold : ℕ
  pub open_timeout : ℕ

-- The mutable fields of `ResilientQuerier`.
pub record Breaker : Type 0 where
  pub state : CircuitState
  pub consecutive_fail : ℕ
  pub opened_at : ℕ
  pub probe_in_flight : Bool

-- `NewResilientQuerier`
abbrev pub new : Breaker
new = record {
  state = circuit_closed;
  consecutive_fail = 0;
  opened_at = 0;
  probe_in_flight = false;
}

module _ (cb : CircuitBreakerConfig) where
  -- `stateLocked`
  abbrev pub state_locked : ℕ → Breaker → CircuitState
  state_locked now q = elim q.state [
    | circuit_closed ↦ circuit_closed
    | circuit_half_open ↦ circuit_half_open
    | circuit_open ↦
        if leb (q.opened_at + cb.open_timeout) now then circuit_half_open else circuit_open
  ]

  abbrev pub admit : CircuitState → Breaker → (Bool × Bool) × Breaker
  admit circuit_open q = ((false, false), q)
  admit circuit_half_open q =
      if q.probe_in_flight
      then ((false, false), q)
      else ((true, true), record q { state = circuit_half_open; probe_in_flight = true })
  admit circuit_closed q = ((true, false), q)

  -- `allow`: whether the call proceeds, whether it is a probe, and the breaker after.
  unfoldable pub allow : ℕ → Breaker → (Bool × Bool) × Breaker
  allow now q = admit (state_locked now q) q

  -- `onSuccess`
  unfoldable pub on_success : Bool → Breaker → Breaker
  on_success probe q = record q {
    consecutive_fail = 0;
    state = circuit_closed;
    probe_in_flight = if probe then false else q.probe_in_flight;
  }

  -- `onFailure`
  unfoldable pub on_failure : Bool → ℕ → Breaker → Breaker
  on_failure true now q = record q {
    state = circuit_open;
    opened_at = now;
    probe_in_flight = false;
  }
  on_failure false now q =
      if leb cb.failure_threshold (suc q.consecutive_fail)
      then record q {
        consecutive_fail = suc q.consecutive_fail;
        state = circuit_open;
        opened_at = now;
      }
      else record q { consecutive_fail = suc q.consecutive_fail }
