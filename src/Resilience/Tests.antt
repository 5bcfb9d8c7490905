-- ===== src/Resilience/Tests.antt =====
-- The theorems on resilient calls at a concrete service.
use soul_claw.Base.{ℕ, ◌+◌, String, true, [], ◌∷◌, arith, str}
use soul_claw.Resilience.Policy.{ResiliencePolicy, transport_error}
use soul_claw.Resilience.Call.{failed, Outside, Manager, state_of, call}
use soul_claw.Resilience.Circuit.{Tripped, call_through}

abbrev policy : ResiliencePolicy
policy = record {
  name = "llm.complete";
  max_attempts = 3;
  base_delay = 250;
  max_delay = 4000;
  jitter_percent = 20;
  failure_threshold = 2;
  recovery = 30000;
  retry_status_codes = 429 ∷ 503 ∷ [];
}

-- The world is the time; the service never answers, and each try takes 10 milliseconds.
abbrev dead : Outside ℕ String
dead = record {
  now = λ t. t;
  sleep = λ d t. t + d;
  uniform = λ t j. record { below = true; distance = j };
  isoformat = str;
  fn = λ t. (failed (transport_error "timeout"), t + 10);
}

abbrev manager : Manager ℕ
manager = record {
  states = [];
  sink = record { attached = true; runtime = []; audits = [] };
  observed = [];
  calls = 0;
  world = 1000;
}

call_through_example : Tripped dead policy 0 (call dead policy manager)
unfolding state_of
call_through_example = call_through dead policy manager (λ until e. ground arith)
