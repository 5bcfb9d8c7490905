-- ===== src/RateLimit/Tests.antt =====
-- The theorems on rate limits at concrete checks.
use soul_claw.Base.{ℕ, true, ◌+◌, ◌≡◌, refl, [], ◌∷◌, none, min, max, arith, inr}
use soul_claw.RateLimit.Limiter.{Limits, Limiter, lookup, window_end, key_of, safe_identity, check}
use soul_claw.RateLimit.Windows.{check_each, window_allows, blocked_then_allowed}

abbrev env : Limits ℕ
env = record {
  rate_limit_enabled = true;
  rate_limit_memory_fallback = true;
  redis = none;
  now = 0;
  isalnum = λ c. true;
}

abbrev limiter : Limiter ℕ
limiter = record {
  memory = (key_of "turn" (safe_identity (λ c. true) "user"), (9, 60)) ∷ [];
  hits_by_policy = [];
  blocked_by_policy = [];
  sink = record { attached = true; runtime = []; audits = [] };
  redis_state = 0;
}

-- Four checks in the window from 120 to 180, with a limit of three; an earlier window is full.
window_allows_example :
    check_each env "turn" "user" 3 60 refl refl (125 ∷ 130 ∷ 140 ∷ 179 ∷ []) limiter
    ≡ min 4 (max 1 3)
unfolding lookup window_end safe_identity
window_allows_example =
    window_allows env "turn" "user" 3 60 refl refl (125 ∷ 130 ∷ 140 ∷ 179 ∷ []) 180 limiter
      (
        (refl, ground arith),
        ((refl, ground arith), ((refl, ground arith), ((refl, ground arith), tt))),
      )
      (inr (omega arith))

-- Three checks of the window that ends at 180 are counted.
abbrev full : Limiter ℕ
full = record limiter { memory = (key_of "turn" (safe_identity (λ c. true) "user"), (3, 180)) ∷ [] }

blocked_then_allowed_example :
    let (d, after) = check (record env { now = 125 }) "turn" "user" 3 60 full in
    (check (record env { now = 125 + d.retry_after }) "turn" "user" 3 60 after).0.allowed ≡ true
unfolding check lookup window_end safe_identity
blocked_then_allowed_example = blocked_then_allowed env "turn" "user" 3 60 refl refl 125 full refl
