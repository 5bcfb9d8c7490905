-- ===== src/Resilience/Policy.antt =====
-- The policies, the circuits and the delays of backend/infra/resilience.py. Times are milliseconds, a
-- ratio is in hundredths, and a delay is in hundredths of a millisecond, so that nothing is rounded.
use soul_claw.Base.{
  ℕ, ◌+◌, ◌-◌, ◌*◌, ◌^◌, String, Bool, true, false, List, Option, none, some, min, if◌then◌else◌,
  ◌==◌, any,
}

pub record ResiliencePolicy : Type 0 where
  pub name : String
  pub max_attempts : ℕ
  pub base_delay : ℕ
  pub max_delay : ℕ
  pub jitter_percent : ℕ
  pub failure_threshold : ℕ
  pub recovery : ℕ
  pub retry_status_codes : List ℕ

pub record CircuitState : Type 0 where
  pub failures : ℕ
  pub opened_until : Option ℕ
  pub last_error : String

-- The exceptions that `should_retry` tells apart: the classes of timeouts and of the transport, a
-- status with the value of `Retry-After` if it is a number, an open circuit, and the rest.
pub data Failure : Type 0 where
  transport_error : String → Failure
  status_error : ℕ → Option ℕ → String → Failure
  circuit_open_error : String → Failure
  other_failure : String → Failure

abbrev pub failure_text : Failure → String
failure_text (transport_error m) = m
failure_text (status_error code retry_after m) = m
failure_text (circuit_open_error m) = m
failure_text (other_failure m) = m

-- `should_retry`
unfoldable pub should_retry : Failure → ResiliencePolicy → Bool
should_retry (circuit_open_error m) policy = false
should_retry (transport_error m) policy = true
should_retry (status_error code retry_after m) policy =
    any (λ c. c == code) policy.retry_status_codes
should_retry (other_failure m) policy = false

-- `_retry_after_seconds`
unfoldable pub retry_after_of : Failure → Option ℕ
retry_after_of (status_error code retry_after m) = retry_after
retry_after_of _ = none

-- A draw of `random.uniform`: below zero or not, and how far from it
pub record Offset : Type 0 where
  pub below : Bool
  pub distance : ℕ

unfoldable pub backoff_base : ResiliencePolicy → ℕ → ℕ
backoff_base policy attempt = min policy.max_delay (policy.base_delay * 2 ^ (attempt - 1))

abbrev pub delay_from : ResiliencePolicy → ℕ → (ℕ → Offset) → Option ℕ → ℕ
delay_from policy attempt uniform (some seconds) = 100 * min policy.max_delay seconds
delay_from policy attempt uniform none =
    let base = backoff_base policy attempt in
    let draw = uniform (base * policy.jitter_percent) in
    if draw.below then 100 * base - draw.distance else 100 * base + draw.distance

-- `retry_delay`; `uniform j` is the draw between `-j` and `j`.
unfoldable pub retry_delay : ResiliencePolicy → ℕ → Failure → (ℕ → Offset) → ℕ
unfolding backoff_base retry_after_of
retry_delay policy attempt e uniform = delay_from policy attempt uniform (retry_after_of e)
