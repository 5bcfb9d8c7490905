-- ===== src/Resilience/Attempts.antt =====
-- How often a call runs its function, and how long it waits.
use soul_claw.Base.{ℕ, zero, suc, ◌+◌, ◌*◌, ◌≤◌, ◌≡◌, inl, inr, none, arith, max, Option-cases}
use native.Mathlib.Nat.{mul-le-mul_right, mul-add}
use soul_claw.Resilience.Policy.{
  ResiliencePolicy, CircuitState, Failure, retry_delay, backoff_base, retry_after_of, Offset,
  other_failure,
}
use soul_claw.Resilience.Call.{
  Attempt, returned, failed, Outside, Manager, state_of, settle, run_fn, attempts, wait, call,
}

backoff-capped :
    (policy : ResiliencePolicy) (attempt : ℕ) → backoff_base policy attempt ≤ policy.max_delay
unfolding backoff_base
backoff-capped policy attempt = omega arith

-- Where the draws stay in their bounds, a delay is at most the largest delay and its jitter.
pub retry_delay_bound :
    (policy : ResiliencePolicy) (attempt : ℕ) (e : Failure) (uniform : ℕ → Offset)
    → ((j : ℕ) → (uniform j).distance ≤ j)
    → retry_delay policy attempt e uniform ≤ policy.max_delay * (100 + policy.jitter_percent)
unfolding retry_delay
retry_delay_bound policy attempt e uniform bounded =
    let base = backoff_base policy attempt in
    let capped : base ≤ policy.max_delay = backoff-capped policy attempt in
    elim (Option-cases (retry_after_of e)) [
      | inl absent ↦ ground (
        arith,
        capped,
        mul-le-mul_right policy.jitter_percent capped,
        bounded (base * policy.jitter_percent),
        mul-add policy.max_delay 100 policy.jitter_percent,
      )
      | inr (seconds, given) ↦ ground (arith, mul-add policy.max_delay 100 policy.jitter_percent)
    ]

module _ {W A : Type 0} (out : Outside W A) (policy : ResiliencePolicy) where
  settle-calls :
      (s : CircuitState) (attempt left : ℕ) (again : Failure → Manager W → Attempt A × Manager W)
      (r : Attempt A) (m : Manager W)
      → ((e : Failure) (n : Manager W) → n.calls ≡ m.calls → (again e n).1.calls ≤ m.calls + left)
      → (settle out policy s attempt again (r, m)).1.calls ≤ m.calls + left
  unfolding settle
  settle-calls s attempt left again (returned a) m h = ground arith
  settle-calls s attempt left again (failed e) m h =
      ground (arith, h e (wait out policy attempt e m))

  attempts-calls :
      (s : CircuitState) (left attempt : ℕ) (last : Failure) (m : Manager W)
      → (attempts out policy s left attempt last m).1.calls ≤ m.calls + left
  unfolding attempts
  attempts-calls s zero attempt last m = ground arith
  attempts-calls s (suc left) attempt last m =
      let (r, ran) = run_fn out m in
      ground (
        arith,
        settle-calls s attempt left (attempts out policy s left (attempt + 1)) r ran
            (λ e n same. omega (arith, attempts-calls s left (attempt + 1) e n, same)),
      )

  -- A call runs its function at most `max_attempts` times, and at most once where that is 0.
  pub call-calls :
      (m : Manager W) → (call out policy m).1.calls ≤ m.calls + max 1 policy.max_attempts
  unfolding call
  call-calls m =
      let s = state_of policy.name m.states in
      let closed = record s { opened_until = none } in
      ground (
        arith,
        attempts-calls closed (max 1 policy.max_attempts) 1 (other_failure "AssertionError") m,
        Option-cases s.opened_until,
      )
