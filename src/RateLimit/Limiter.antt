-- ===== src/RateLimit/Limiter.antt =====
-- `FixedWindowRateLimiter` of backend/infra/rate_limit.py. Times are whole seconds, as the code's
-- `int(time.time())`.
use Prim.Native.String.{◌++◌ as concat}
use Prim.Native.Char.{Char, code}
use soul_claw.Base.{
  ℕ, zero, suc, ◌+◌, ◌-◌, ◌%◌, String, Bool, true, not, ◌||◌, List, [], ◌∷◌, Option, none, some,
  max, leb, str_eq, or_else, f_string, Sink, emit, warning, string, num, end, field, Result, ok,
  err, str_exc, Exec, pure, ◌>>=◌, ◌>>◌, other_error, if◌then◌else◌, ◌==◌,
}

pub record RateLimitDecision : Type 0 where
  pub allowed : Bool
  pub policy : String
  pub key : String
  pub limit : ℕ
  pub remaining : ℕ
  pub retry_after : ℕ
  pub reset_at : ℕ
  pub backend : String

-- The Redis client: each command may raise. `ttl` is none for None and for a negative answer.
pub record RedisClient (R : Type 0) : Type 0 where
  pub incr : String → R → Result ℕ × R
  pub expire : String → ℕ → R → Result (Unit {0}) × R
  pub ttl : String → R → Result (Option ℕ) × R

-- `settings`, the client if there is one, the clock, and `str.isalnum` of a character
pub record Limits (R : Type 0) : Type 0 where
  pub rate_limit_enabled : Bool
  pub rate_limit_memory_fallback : Bool
  pub redis : Option (RedisClient R)
  pub now : ℕ
  pub isalnum : Char → Bool

pub record Limiter (R : Type 0) : Type 0 where
  pub memory : List (String × (ℕ × ℕ))
  pub hits_by_policy : List (String × ℕ)
  pub blocked_by_policy : List (String × ℕ)
  pub sink : Sink
  pub redis_state : R

module _ {ℓ} {V : Type ℓ} where
  unfoldable pub lookup : String → V → List (String × V) → V
  lookup k default [] = default
  lookup k default ((j, v) ∷ rest) = if str_eq j k then v else lookup k default rest

  unfoldable pub assign : String → V → List (String × V) → List (String × V)
  assign k v [] = (k, v) ∷ []
  assign k v ((j, w) ∷ rest) = if str_eq j k then (j, v) ∷ rest else (j, w) ∷ assign k v rest

-- `ch in "_.:-"`
abbrev pub is_mark : Char → Bool
is_mark c = code c == b'_' || (code c == b'.' || (code c == b':' || code c == b'-'))

-- the characters of `_safe_identity`, the first `left` of them
unfoldable pub safe_chars : (Char → Bool) → ℕ → String → String
safe_chars isalnum zero s = ""
safe_chars isalnum (suc left) String.[] = ""
safe_chars isalnum (suc left) (String.◌∷◌ c s) =
    let rest = safe_chars isalnum left s in
    if isalnum c || is_mark c then String.◌∷◌ c rest else concat "_" rest

-- `_safe_identity`
unfoldable pub safe_identity : (Char → Bool) → String → String
unfolding safe_chars
safe_identity isalnum identity = safe_chars isalnum 160 (or_else identity "anonymous")

abbrev pub key_of : String → String → String
key_of policy identity = f_string ("soulclaw:rl:" ∷ policy ∷ ":" ∷ identity ∷ [])

-- The decision on a count, for a window that is reset at this time
abbrev pub decide : String → String → ℕ → ℕ → ℕ → ℕ → String → RateLimitDecision
decide policy key limit count retry_after reset_at backend = record {
  allowed = leb count limit;
  policy = policy;
  key = key;
  limit = limit;
  remaining = limit - count;
  retry_after = if leb count limit then 0 else retry_after;
  reset_at = reset_at;
  backend = backend;
}

-- a decision without a count: everything is allowed
abbrev pub let_through : String → String → ℕ → ℕ → String → RateLimitDecision
let_through policy key limit reset_at backend = record {
  allowed = true;
  policy = policy;
  key = key;
  limit = limit;
  remaining = limit;
  retry_after = 0;
  reset_at = reset_at;
  backend = backend;
}

-- the stored count and reset time, started again when the window is over
abbrev pub in_window : ℕ → ℕ → ℕ × ℕ → ℕ × ℕ
in_window now reset_at (count, stored_reset) =
    if leb stored_reset now then (0, reset_at) else (count, stored_reset)

unfoldable pub window_end : ℕ → ℕ → ℕ
window_end now window = now - now % window + window

-- `int(self.redis.ttl(key) or window_seconds)`, and the window for a negative answer
abbrev pub seconds_or : ℕ → Option ℕ → ℕ
seconds_or window none = window
seconds_or window (some t) = if t == 0 then window else t

module _ {R : Type 0} where
  -- `_check_memory`
  unfoldable pub check_memory :
      ℕ → String → String → ℕ → ℕ → Limiter R → RateLimitDecision × Limiter R
  unfolding lookup assign window_end
  check_memory now key policy limit window l =
      let reset_at = window_end now window in
      let (count, stored_reset) = in_window now reset_at (lookup key (0, reset_at) l.memory) in
      (
        decide policy key limit (count + 1) (max 1 (stored_reset - now)) stored_reset "memory",
        record l { memory = assign key (count + 1, stored_reset) l.memory },
      )

  abbrev pub expire_first : RedisClient R → String → ℕ → ℕ → Exec R (Unit {0})
  expire_first client key window count = if count == 1 then client.expire key window else pure tt

  -- `_check_redis`
  unfoldable pub check_redis :
      RedisClient R → ℕ → String → String → ℕ → ℕ → Exec R RateLimitDecision
  unfolding pure
  check_redis client now key policy limit window = do
    count ← client.incr key
    expire_first client key window count
    ttl ← client.ttl key
    pure (
        decide policy key limit count (seconds_or window ttl) (now + seconds_or window ttl) "redis")

  -- `_record`
  unfoldable pub record_decision : RateLimitDecision → Limiter R → Limiter R
  unfolding lookup assign
  record_decision d l = record l {
    hits_by_policy = assign d.policy (lookup d.policy 0 l.hits_by_policy + 1) l.hits_by_policy;
    blocked_by_policy =
        if d.allowed
        then l.blocked_by_policy
        else assign d.policy (lookup d.policy 0 l.blocked_by_policy + 1) l.blocked_by_policy;
  }

  abbrev pub recorded : RateLimitDecision × Limiter R → RateLimitDecision × Limiter R
  recorded (d, l) = (d, record_decision d l)

  -- what follows the try of Redis
  unfoldable pub settle_redis :
      Limits R
      → String
      → String
      → ℕ
      → ℕ
      → Result RateLimitDecision × R
      → Limiter R
      → RateLimitDecision × Limiter R
  unfolding record_decision check_memory
  settle_redis env key policy limit window (ok d, r) l =
      (d, record_decision d (record l { redis_state = r }))
  settle_redis env key policy limit window (err e, r) l =
      let told = record l {
        redis_state = r;
        sink =
            emit "rate_limit.redis_unavailable" warning
              (field "policy" (string policy) (field "error" (string (str_exc e)) end)) l.sink;
      } in
      if env.rate_limit_memory_fallback
      then recorded (check_memory env.now key policy limit window told)
      else recorded (let_through policy key limit (env.now + window) "redis_unavailable_open", told)

  unfoldable pub check_with :
      Limits R
      → Option (RedisClient R)
      → String
      → String
      → ℕ
      → ℕ
      → Limiter R
      → RateLimitDecision × Limiter R
  unfolding record_decision check_memory settle_redis check_redis
  check_with env none key policy limit window l =
      recorded (check_memory env.now key policy limit window l)
  check_with env (some client) key policy limit window l =
      settle_redis env key policy limit window
        (check_redis client env.now key policy limit window l.redis_state) l

  -- `check`
  unfoldable pub check :
      Limits R → String → String → ℕ → ℕ → Limiter R → RateLimitDecision × Limiter R
  unfolding check_with safe_identity
  check env policy identity limit window l =
      if not env.rate_limit_enabled
      then (let_through policy identity limit (env.now + window) "disabled", l)
      else check_with env env.redis (key_of policy (safe_identity env.isalnum identity)) policy
          (max 1 limit) window l

  -- the exception of `enforce`, as its decision
  unfoldable pub refuse_blocked :
      ℕ → RateLimitDecision × Limiter R → Result RateLimitDecision × Limiter R
  refuse_blocked limit (d, l) = if d.allowed then (ok d, l) else (
    err (other_error (f_string ("rate limit exceeded for " ∷ d.policy ∷ []))),
    record l {
      sink =
          emit "rate_limit.blocked" warning
            (field "policy" (string d.policy) (
              field "key" (string d.key)
                (field "limit" (num limit) (field "retry_after" (num d.retry_after) end))))
            l.sink;
    },
  )

  -- `enforce`
  unfoldable pub enforce :
      Limits R → String → String → ℕ → ℕ → Limiter R → Result RateLimitDecision × Limiter R
  unfolding check refuse_blocked
  enforce env policy identity limit window l =
      refuse_blocked limit (check env policy identity limit window l)
