-- ===== src/Gateway/Breaker.antt =====
-- services/api-gateway/app/services/circuit_breaker.py. Times are readings of the monotonic clock;
-- a key that was never used has the state of a new one, as `setdefault` gives it.
use market_place_app.Prelude.{
  ℕ, String, ◌+◌, Bool, true, false, Option, none, some, List, [], ◌∷◌, leb, str_eq, if◌then◌else◌,
}

pub record BreakerState : Type 0 where
  pub consecutive_failures : ℕ
  pub opened_at : Option ℕ

pub record CircuitBreaker : Type 0 where
  pub failure_threshold : ℕ
  pub cooldown_seconds : ℕ
  pub states : String → BreakerState

abbrev pub new_state : BreakerState
new_state = record { consecutive_failures = 0; opened_at = none }

abbrev pub new_breaker : ℕ → ℕ → CircuitBreaker
new_breaker threshold cooldown = record {
  failure_threshold = threshold;
  cooldown_seconds = cooldown;
  states = λ key. new_state;
}

abbrev pub set_state : String → BreakerState → CircuitBreaker → CircuitBreaker
set_state key s b = record b { states = λ other. if str_eq key other then s else b.states other }

-- Once the cooldown is over, the next call is let through as a trial.
unfoldable pub is_open : ℕ → String → CircuitBreaker → Bool
is_open now key b = elim (b.states key).opened_at [
  | none ↦ false
  | some at ↦ if leb (at + b.cooldown_seconds) now then false else true
]

unfoldable pub record_success : String → CircuitBreaker → CircuitBreaker
record_success key b = set_state key new_state b

-- The time is stamped again on every failure from the threshold on.
unfoldable pub record_failure : ℕ → String → CircuitBreaker → CircuitBreaker
record_failure now key b =
    let s = b.states key in
    let failures = s.consecutive_failures + 1 in
    set_state key
      (record {
        consecutive_failures = failures;
        opened_at = if leb b.failure_threshold failures then some now else s.opened_at;
      })
      b

-- What the breaker is told of the calls that were made.
pub data Outcome : Type 0 where
  success : String → Outcome
  failure : ℕ → String → Outcome

unfoldable pub told : Outcome → CircuitBreaker → CircuitBreaker
unfolding record_success record_failure
told (success key) b = record_success key b
told (failure now key) b = record_failure now key b

-- The newest outcome comes last.
unfoldable pub told_all : List Outcome → CircuitBreaker → CircuitBreaker
told_all [] b = b
told_all (o ∷ os) b = told_all os (told o b)
