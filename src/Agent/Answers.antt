-- ===== src/Agent/Answers.antt =====
-- The answers that a turn gives without the model, of backend/runtime/agent.py.
use soul_claw.Base.{
  ℕ, ◌+◌, String, Bool, not, List, [], ◌∷◌, f_string, str, str_eq, is_empty, or_else, join, length,
  any, if◌then◌else◌, ◌==◌, contains,
}
use soul_claw.Agent.State.{CallResult}

-- What `self.a2a.delegate` returns, as the answer shows it
pub record Delegation : Type 0 where
  pub status : String
  pub task_id : String
  pub answer : String
  pub artifacts : ℕ
  pub error : String

-- How much the wiki, the memories and the skills found for a message
pub record Gathered : Type 0 where
  pub wiki_pages : ℕ
  pub wiki_hits : ℕ
  pub resident : ℕ
  pub dynamic : ℕ
  pub skills : ℕ

-- `_should_delegate_to_deep_research`
unfoldable pub should_delegate : (String → String) → String → Bool
should_delegate lower message =
    any (λ trigger. contains trigger (lower message))
      ("deepresearch" ∷ "deep research" ∷ "deep-research" ∷ "深度研究" ∷ "深入调研" ∷ "全面调研" ∷ "广泛调研"
        ∷ "research report" ∷ [])

abbrev pub if_any : Bool → List String → List String → List String
if_any test text rest = if test then f_string text ∷ rest else rest

-- `_delegated_answer`
unfoldable pub delegated_answer : Delegation → String
unfolding join
delegated_answer d =
    if str_eq d.status "failed"
    then f_string ("A2A delegation failed: " ∷ or_else d.error "unknown error" ∷ [])
    else join " " (
        (if str_eq d.status "completed"
          then "A2A delegation completed"
          else "A2A delegation started")
        ∷ if_any (not (is_empty d.task_id)) ("task_id=" ∷ d.task_id ∷ []) (
            if_any (not (is_empty d.status)) ("status=" ∷ d.status ∷ []) (
              if_any (not (d.artifacts == 0)) ("artifacts=" ∷ str d.artifacts ∷ [])
                (if_any (not (is_empty d.answer)) ("\n\n" ∷ d.answer ∷ []) []))))

-- `_degraded_answer`
unfoldable pub degraded_answer : String → String
degraded_answer status =
    if str_eq status "failed"
    then "The model call failed. The turn was recorded with trace context for troubleshooting."
    else if str_eq status "rate_limited"
    then "The model call was rate limited. Please retry after the configured cooldown window."
    else if str_eq status "circuit_open"
    then "The model circuit breaker is open. Please retry after the recovery window."
    else ""

-- `_fallback_answer`
unfoldable pub whole_fallback : Gathered → List CallResult → String
unfolding join
whole_fallback g results = join " " (
    "SoulClaw runtime is online."
    ∷ if_any (not (g.wiki_hits == 0)) ("Retrieved " ∷ str g.wiki_hits ∷ " Wiki item(s)." ∷ []) (
        if_any (not (g.resident + g.dynamic == 0))
          ("Retrieved "
            ∷ str g.resident
            ∷ " resident and "
            ∷ str g.dynamic
            ∷ " dynamic memory item(s)."
            ∷ [])
          (if_any (not (length results == 0))
            ("Executed " ∷ str (length results) ∷ " tool call(s)." ∷ []) [])))
