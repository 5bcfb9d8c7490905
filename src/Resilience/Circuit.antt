-- ===== src/Resilience/Circuit.antt =====
-- What a call does to the circuit of its policy.
use soul_claw.Base.{
  ℕ, zero, suc, ◌+◌, ◌≤◌, ◌<◌, String, true, false, not, ◌||◌, ◌≡◌, ◌∙◌, refl, inl, inr, List, [],
  ◌∷◌, none, some, arith, max, leb, ltb, if◌then◌else◌, Bool-cases, Option-cases, str_eq, eq_iff,
  eq_refl,
}
use soul_claw.Resilience.Policy.{
  ResiliencePolicy, CircuitState, Failure, should_retry, failure_text, other_failure,
  circuit_open_error,
}
use soul_claw.Resilience.Call.{
  Attempt, returned, failed, Outside, Manager, new_state, state_of, put_state, settle, run_fn,
  attempts, record_failure, wait, call,
}

state_of-put_state :
    (name other : String) (s : CircuitState) (states : List (String × CircuitState))
    → state_of other (put_state name s states)
      ≡ (if str_eq name other then s else state_of other states)
unfolding state_of put_state
state_of-put_state name other s [] = refl
state_of-put_state name other s ((n, q) ∷ rest) =
    ground (
      arith,
      eq_iff n name,
      eq_iff n other,
      eq_iff name other,
      state_of-put_state name other s rest,
    )

module _ {W A : Type 0} (out : Outside W A) (policy : ResiliencePolicy) where
  -- How the circuit stands after a call that was let through, from the failures before it
  abbrev pub Tripped : ℕ → Attempt A × Manager W → Type 0
  Tripped failures (returned a, m) = state_of policy.name m.states ≡ new_state
  Tripped failures (failed e, m) =
      let s = state_of policy.name m.states in
      (s.failures ≡ failures + 1)
      × (s.last_error ≡ failure_text e)
      × (s.opened_until ≡ (
          if leb (max 1 policy.failure_threshold) (failures + 1)
          then some (out.now m.world + max 1000 policy.recovery)
          else none))

  record_failure-Tripped :
      (s : CircuitState) (e : Failure) (m : Manager W)
      → s.opened_until ≡ none
      → Tripped s.failures (failed e, record_failure out policy s e m)
  unfolding record_failure
  record_failure-Tripped s e m closed =
      elim (Bool-cases (leb (max 1 policy.failure_threshold) (s.failures + 1))) [
        | inl trips ↦ rw trips (
            rw
              (state_of-put_state policy.name policy.name
                (record {
                  failures = s.failures + 1;
                  opened_until = some (out.now m.world + max 1000 policy.recovery);
                  last_error = failure_text e;
                })
                m.states)
              (rw (eq_refl policy.name) (refl, refl, refl)))
        | inr holds ↦ rw holds (
            rw
              (state_of-put_state policy.name policy.name
                (record s { failures = s.failures + 1; last_error = failure_text e }) m.states)
              (rw (eq_refl policy.name) (refl, refl, closed)))
      ]

  settle-Tripped :
      (s : CircuitState) (attempt : ℕ) (again : Failure → Manager W → Attempt A × Manager W)
      (r : Attempt A) (m : Manager W)
      → s.opened_until ≡ none
      → ((e : Failure) (n : Manager W) → Tripped s.failures (again e n))
      → Tripped s.failures (settle out policy s attempt again (r, m))
  unfolding settle
  settle-Tripped s attempt again (returned a) m closed h =
      state_of-put_state policy.name policy.name new_state m.states ∙ rw (eq_refl policy.name) refl
  settle-Tripped s attempt again (failed e) m closed h =
      elim (Bool-cases (not (should_retry e policy) || leb policy.max_attempts attempt)) [
        | inl gives_up ↦ rw gives_up (record_failure-Tripped s e m closed)
        | inr retries ↦ rw retries (h e (wait out policy attempt e m))
      ]

  attempts-Tripped :
      (s : CircuitState) (left attempt : ℕ) (last : Failure) (m : Manager W)
      → s.opened_until ≡ none
      → Tripped s.failures (attempts out policy s left attempt last m)
  unfolding attempts
  attempts-Tripped s zero attempt last m closed = record_failure-Tripped s last m closed
  attempts-Tripped s (suc left) attempt last m closed =
      let (r, ran) = run_fn out m in
      settle-Tripped s attempt (attempts out policy s left (attempt + 1)) r ran closed
        (λ e n. attempts-Tripped s left (attempt + 1) e n closed)

  -- A call that the circuit lets through resets it when the function returns. When it fails, the count
  -- of failures grows by one, and the circuit opens for the recovery time, at least a second, exactly
  -- where the count has reached the threshold.
  pub call_through :
      (m : Manager W)
      → ((until : ℕ)
          → (state_of policy.name m.states).opened_until ≡ some until
          → until ≤ out.now m.world)
      → Tripped (state_of policy.name m.states).failures (call out policy m)
  unfolding call
  call_through m due =
      let s = state_of policy.name m.states in
      let through =
        attempts-Tripped (record s { opened_until = none }) (max 1 policy.max_attempts) 1
          (other_failure "AssertionError") m refl in
      elim (Option-cases s.opened_until) [
        | inl closed ↦ rw closed through
        | inr (until, opened) ↦
            (let over : ltb (out.now m.world) until ≡ false = ground (arith, due until opened) in
              rw opened (rw over through))
      ]

  -- While the circuit is open no call reaches the function: the call fails with `CircuitOpenError`, and
  -- the outside world, the circuits and the count of calls stay as they are.
  pub call_refused :
      (m : Manager W) (until : ℕ)
      → (state_of policy.name m.states).opened_until ≡ some until
      → out.now m.world < until
      → let (r, after) = call out policy m in
        ((text : String) × (r ≡ failed (circuit_open_error text)))
        × (after.world ≡ m.world)
        × (after.states ≡ m.states)
        × (after.calls ≡ m.calls)
  unfolding call
  call_refused m until opened early =
      let early_test : ltb (out.now m.world) until ≡ true = ground arith in
      rw opened (rw early_test ((_, refl), refl, refl, refl))
