-- ===== src/RateLimit/Windows.antt =====
-- How many checks of the in-memory limiter a window lets through.
use soul_claw.Base.{
  ℕ, ◌+◌, ◌-◌, ◌≤◌, ◌<◌, String, true, false, ◌≡◌, refl, ◌∙◌, List, [], ◌∷◌, none, arith, min, max,
  leb, str_eq, eq_iff, eq_refl, if◌then◌else◌, All, length, ◌⊎◌, inl, inr,
}
use soul_claw.RateLimit.Limiter.{
  Limits, Limiter, lookup, assign, in_window, window_end, key_of, safe_identity, check_memory,
  check,
}

lookup-assign {ℓ} :
    {V : Type ℓ} (k j : String) (v d : V) (xs : List (String × V))
    → lookup j d (assign k v xs) ≡ (if str_eq k j then v else lookup j d xs)
unfolding lookup assign
lookup-assign k j v d [] = refl
lookup-assign k j v d ((i, w) ∷ rest) =
    ground (arith, eq_iff k j, eq_iff i k, eq_iff i j, lookup-assign k j v d rest)

retry_over :
    (count stored_reset now other limit : ℕ)
    → leb count limit ≡ false
    → other ≡ now + (if leb count limit then 0 else max 1 (stored_reset - now))
    → leb stored_reset other ≡ true
retry_over count stored_reset now other limit blocked e = ground arith

-- A check in the window that ends at this time finds this count.
abbrev CountIs : ℕ → String → ℕ → ℕ → List (String × (ℕ × ℕ)) → Type 0
CountIs window key count reset memory =
    (now : ℕ)
    → window_end now window ≡ reset
    → now < reset
    → in_window now reset (lookup key (0, reset) memory) ≡ (count, reset)

-- What was stored is of a window that was over when this one began.
in_window-over :
    (now window reset : ℕ) (stored : ℕ × ℕ)
    → window_end now window ≡ reset
    → stored.1 + window ≤ reset
    → in_window now reset stored ≡ (0, reset)
unfolding window_end
in_window-over now window reset (count, stored) same over =
    let ended : stored ≤ now = omega (arith, same, over) in ground (arith, ended)

module _ {R : Type 0} (key policy : String) (limit window : ℕ) where
  check_memory-count :
      (now count reset : ℕ) (l : Limiter R)
      → window_end now window ≡ reset
      → now < reset
      → CountIs window key count reset l.memory
      → ((check_memory now key policy limit window l).0.allowed ≡ leb (count + 1) limit)
        × CountIs window key (count + 1) reset (check_memory now key policy limit window l).1.memory
  unfolding check_memory
  check_memory-count now count reset l same early counts = (
    rw same (rw (counts now same early) refl),
    λ later later_same before. rw same (
        rw (counts now same early) (
          rw (lookup-assign key key (count + 1, reset) (0, reset) l.memory)
            (rw (eq_refl key) (ground arith)))),
  )

  -- The window is over when a blocked check may be tried again.
  check_memory-again :
      (now other : ℕ) (l after : Limiter R)
      → 1 ≤ limit
      → (check_memory now key policy limit window l).0.allowed ≡ false
      → other ≡ now + (check_memory now key policy limit window l).0.retry_after
      → after.memory ≡ (check_memory now key policy limit window l).1.memory
      → (check_memory other key policy limit window after).0.allowed ≡ true
  unfolding check_memory
  check_memory-again now other l after positive blocked e same =
      let (count, stored_reset) =
        in_window now (window_end now window) (lookup key (0, window_end now window) l.memory) in
      let found : lookup key (0, window_end other window) after.memory ≡ (count + 1, stored_reset) =
        rw same (
          lookup-assign key key (count + 1, stored_reset) (0, window_end other window) l.memory
          ∙ rw (eq_refl key) refl) in
      let over : leb stored_reset other ≡ true =
        retry_over (count + 1) stored_reset now other limit blocked e in
      rw found (rw over (ground arith))

module _ {R : Type 0} (env : Limits R) (policy identity : String) (limit window : ℕ)
    (enabled : env.rate_limit_enabled ≡ true) (in_memory : env.redis ≡ none) where
  abbrev pub the_key : String
  the_key = key_of policy (safe_identity env.isalnum identity)

  -- Checks at these times one after the other: how many are allowed
  abbrev pub check_each : List ℕ → Limiter R → ℕ
  check_each [] l = 0
  check_each (now ∷ times) l =
      let (d, after) = check (record env { now = now }) policy identity limit window l in
      let allowed = check_each times after in if d.allowed then allowed + 1 else allowed

  check-memory :
      (now : ℕ) (l : Limiter R)
      → let (d, after) = check (record env { now = now }) policy identity limit window l in
        let (e, counted) = check_memory now the_key policy (max 1 limit) window l in
        (d ≡ e) × (after.memory ≡ counted.memory)
  unfolding check
  check-memory now l = rw enabled (rw in_memory (refl, refl))

  check-count :
      (now count reset : ℕ) (l : Limiter R)
      → window_end now window ≡ reset
      → now < reset
      → CountIs window the_key count reset l.memory
      → let (d, after) = check (record env { now = now }) policy identity limit window l in
        (d.allowed ≡ leb (count + 1) (max 1 limit))
        × CountIs window the_key (count + 1) reset after.memory
  check-count now count reset l same early counts =
      let (decides, goes_on) =
        check_memory-count the_key policy (max 1 limit) window now count reset l same early
          counts in
      let (as_memory, memory) = check-memory now l in (rw as_memory decides, rw memory goes_on)

  count_allowed :
      (times : List ℕ) (count reset : ℕ) (l : Limiter R)
      → All (λ now. (window_end now window ≡ reset) × (now < reset)) times
      → CountIs window the_key count reset l.memory
      → check_each times l ≡ min (length times) (max 1 limit - count)
  count_allowed [] count reset l here counts = omega arith
  count_allowed (now ∷ times) count reset l here counts =
      let (same, early) = here.0 in
      let (d, after) = check (record env { now = now }) policy identity limit window l in
      let (decides, goes_on) = check-count now count reset l same early counts in
      ground (arith, decides, count_allowed times (count + 1) reset after here.1 goes_on)

  -- Without Redis: of the checks of one identity in a window, the first `limit` are allowed and no other
  -- (the first one where the limit is 0), as many as there are, up to the limit. Nothing is stored for
  -- the identity before, or any count of a window that ended before this one began.
  pub window_allows :
      (times : List ℕ) (reset : ℕ) (l : Limiter R)
      → All (λ now. (window_end now window ≡ reset) × (now < reset)) times
      → (lookup the_key (0, reset) l.memory ≡ (0, reset))
        ⊎ ((lookup the_key (0, reset) l.memory).1 + window ≤ reset)
      → check_each times l ≡ min (length times) (max 1 limit)
  window_allows times reset l here (inl fresh) =
      let counted =
        count_allowed times 0 reset l here (λ now same early. rw fresh (ground arith)) in
      omega (arith, counted)
  window_allows times reset l here (inr over) =
      let counted = count_allowed times 0 reset l here (λ now same early.
        in_window-over now window reset (lookup the_key (0, reset) l.memory) same over) in
      omega (arith, counted)

  -- Without Redis, a blocked check says when to try again: at that time a check is allowed.
  pub blocked_then_allowed :
      (now : ℕ) (l : Limiter R)
      → (check (record env { now = now }) policy identity limit window l).0.allowed ≡ false
      → let (d, after) = check (record env { now = now }) policy identity limit window l in
        (check
          (record env { now = now + d.retry_after })
          policy
          identity
          limit
          window
          after).0.allowed
        ≡ true
  blocked_then_allowed now l blocked =
      let (d, after) = check (record env { now = now }) policy identity limit window l in
      let (as_memory, memory) = check-memory now l in
      let (again_memory, _) = check-memory (now + d.retry_after) after in
      rw again_memory (
        check_memory-again the_key policy (max 1 limit) window now (now + d.retry_after) l after
          (omega arith) (rw (← as_memory) blocked) (rw as_memory refl) memory)
