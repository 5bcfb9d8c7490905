-- ===== src/Resilience/Call.antt =====
-- `ResilienceManager.call` of backend/infra/resilience.py.
use soul_claw.Base.{
  ℕ, zero, suc, ◌+◌, String, ◌||◌, not, List, [], ◌∷◌, Option, none, some, max, Sink, emit, warning,
  error, Fields, string, num, end, field, str_eq, f_string, leb, ltb, if◌then◌else◌, Severity,
}
use soul_claw.Resilience.Policy.{
  ResiliencePolicy, CircuitState, Failure, failure_text, circuit_open_error, other_failure,
  should_retry, retry_delay, Offset,
}

pub data Attempt (A : Type 0) : Type 0 where
  returned : A → Attempt A
  failed : Failure → Attempt A

-- The state of `W`, all that is outside the manager: the clock, sleeping, the draws, the printed form
-- of a time, and the function that is called.
pub record Outside (W : Type 0) (A : Type 0) : Type 0 where
  pub now : W → ℕ
  pub sleep : ℕ → W → W
  pub uniform : W → ℕ → Offset
  pub isoformat : ℕ → String
  pub fn : W → Attempt A × W

-- `_states` and the bus; `observed` holds what `record_external_call` was told, and `calls` counts the
-- calls of the function.
pub record Manager (W : Type 0) : Type 0 where
  pub states : List (String × CircuitState)
  pub sink : Sink
  pub observed : List (String × String)
  pub calls : ℕ
  pub world : W

abbrev pub new_state : CircuitState
new_state = record { failures = 0; opened_until = none; last_error = "" }

unfoldable pub state_of : String → List (String × CircuitState) → CircuitState
state_of name [] = new_state
state_of name ((n, s) ∷ rest) = if str_eq n name then s else state_of name rest

unfoldable pub put_state :
    String → CircuitState → List (String × CircuitState) → List (String × CircuitState)
put_state name s [] = (name, s) ∷ []
put_state name s ((n, q) ∷ rest) =
    if str_eq n name then (n, s) ∷ rest else (n, q) ∷ put_state name s rest

module _ {W : Type 0} where
  abbrev pub save : ResiliencePolicy → CircuitState → Manager W → Manager W
  save policy s m = record m { states = put_state policy.name s m.states }

  abbrev pub tell : String → Severity → Fields → Manager W → Manager W
  tell name severity payload m = record m { sink = emit name severity payload m.sink }

  -- `_record_observability`; the policy's name is split into its parts by the recorder.
  abbrev pub observe : ResiliencePolicy → String → Manager W → Manager W
  observe policy status m = record m { observed = (policy.name, status) ∷ m.observed }

module _ {W A : Type 0} where
  -- `_record_failure`
  unfoldable pub record_failure :
      Outside W A → ResiliencePolicy → CircuitState → Failure → Manager W → Manager W
  unfolding put_state
  record_failure out policy s e m =
      let failures = s.failures + 1 in
      observe policy "failed" (
        if leb (max 1 policy.failure_threshold) failures
        then tell "resilience.circuit_tripped" error
            (field "name" (string policy.name)
              (field "failures" (num failures) (field "error" (string (failure_text e)) end)))
            (save policy
              (record {
                failures = failures;
                opened_until = some (out.now m.world + max 1000 policy.recovery);
                last_error = failure_text e;
              })
              m)
        else save policy (record s { failures = failures; last_error = failure_text e }) m)

  -- `result = fn()`
  unfoldable pub run_fn : Outside W A → Manager W → Attempt A × Manager W
  run_fn out m = let (r, w) = out.fn m.world in (r, record m { world = w; calls = m.calls + 1 })

  -- The event of a retry, and the sleep
  unfoldable pub wait : Outside W A → ResiliencePolicy → ℕ → Failure → Manager W → Manager W
  unfolding retry_delay
  wait out policy attempt e m =
      let delay = retry_delay policy attempt e (out.uniform m.world) in
      let told =
        tell "resilience.retry" warning
          (field "name" (string policy.name) (
            field "attempt" (num attempt)
              (field "delay_seconds" (num delay) (field "error" (string (failure_text e)) end))))
          m in
      record told { world = out.sleep delay told.world }

  -- after one attempt: the end of the call, or another attempt
  unfoldable pub settle :
      Outside W A
      → ResiliencePolicy
      → CircuitState
      → ℕ
      → (Failure → Manager W → Attempt A × Manager W)
      → Attempt A × Manager W
      → Attempt A × Manager W
  unfolding record_failure wait should_retry put_state
  settle out policy s attempt again (returned a, m) =
      (returned a, observe policy "succeeded" (save policy new_state m))
  settle out policy s attempt again (failed e, m) =
      if not (should_retry e policy) || leb policy.max_attempts attempt
      then (failed e, record_failure out policy s e m)
      else again e (wait out policy attempt e m)

  -- The loop, with `left` attempts of which `attempt` is the next; `last` is `last_exc`.
  unfoldable pub attempts :
      Outside W A
      → ResiliencePolicy
      → CircuitState
      → ℕ
      → ℕ
      → Failure
      → Manager W
      → Attempt A × Manager W
  unfolding settle run_fn record_failure
  attempts out policy s zero attempt last m = (failed last, record_failure out policy s last m)
  attempts out policy s (suc left) attempt last m =
      settle out policy s attempt (attempts out policy s left (attempt + 1)) (run_fn out m)

  -- the circuit is open
  unfoldable pub refuse :
      Outside W A → ResiliencePolicy → CircuitState → ℕ → Manager W → Attempt A × Manager W
  refuse out policy s until m = (
    failed (
        circuit_open_error
          (f_string ("circuit open for " ∷ policy.name ∷ " until " ∷ out.isoformat until ∷ []))),
    observe policy "circuit_open" (
        tell "resilience.circuit_open" warning
          (field "name" (string policy.name) (
            field "opened_until" (string (out.isoformat until))
              (field "last_error" (string s.last_error) end)))
          m),
  )

  -- Before the first attempt there is no last exception; the loop never ends without one.
  unfoldable pub first_attempt :
      Outside W A → ResiliencePolicy → CircuitState → Manager W → Attempt A × Manager W
  unfolding attempts
  first_attempt out policy s m =
      attempts out policy (record s { opened_until = none }) (max 1 policy.max_attempts) 1
        (other_failure "AssertionError") m

  unfoldable pub call_in_state :
      Outside W A → ResiliencePolicy → CircuitState → Option ℕ → Manager W → Attempt A × Manager W
  unfolding refuse first_attempt
  call_in_state out policy s none m = first_attempt out policy s m
  call_in_state out policy s (some until) m =
      if ltb (out.now m.world) until
      then refuse out policy s until m
      else first_attempt out policy s m

  -- `call`
  unfoldable pub call : Outside W A → ResiliencePolicy → Manager W → Attempt A × Manager W
  unfolding call_in_state state_of
  call out policy m =
      let s = state_of policy.name m.states in call_in_state out policy s s.opened_until m
