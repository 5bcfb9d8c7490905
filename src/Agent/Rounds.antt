-- ===== src/Agent/Rounds.antt =====
-- The number of completions that a turn asks of the model.
use soul_claw.Base.{
  ℕ, zero, suc, ◌+◌, ◌≤◌, String, ◌≡◌, ◌∙◌, refl, ◌⊎◌, inl, inr, List, [], ◌∷◌, ◌++◌, arith,
}
use soul_claw.Agent.State.{
  Call, CallResult, Message, Interrupt, LlmReply, replied, rate_limited, circuit_open, failed,
  AgentEnv, Turn, ask_llm,
}
use soul_claw.Agent.Calls.{
  Round, interrupted, call_once, go_on, execute_from, execute_tool_calls, calls_of,
}
use soul_claw.Agent.Loop.{
  LoopState, start_state, LoopEnd, RoundEnd, ended, again, run_round, continue_llm_loop,
  first_reply, run_llm,
}

pub RoundEnd-cases :
    (r : RoundEnd) → ((e : LoopEnd) × (r ≡ ended e)) ⊎ ((s : LoopState) × (r ≡ again s))
RoundEnd-cases (ended e) = inl (e, refl)
RoundEnd-cases (again s) = inr (s, refl)

-- What holds of the round wherever one call leads, holds of it.
pub go_on-holds :
    {S : Type 0} (Q : Round × Turn S → Type 0) (k : CallResult → Turn S → Round × Turn S)
    (o : (CallResult × Turn S) ⊎ (Interrupt × Turn S))
    → ((result : CallResult) (t : Turn S) → o ≡ inl (result, t) → Q (k result t))
    → ((i : Interrupt) (t : Turn S) → o ≡ inr (i, t) → Q (interrupted i, t))
    → Q (go_on k o)
unfolding go_on
go_on-holds Q k (inl (result, t)) one stop = one result t refl
go_on-holds Q k (inr (i, t)) one stop = stop i t refl

module _ {S : Type 0} (env : AgentEnv S) (turn_id session_id : String) where
  pub call_once-result :
      (index : ℕ) (results : List CallResult) (call : Call) (t : Turn S) (result : CallResult)
      (after : Turn S)
      → call_once env turn_id session_id index results call t ≡ inl (result, after)
      → after.completions ≡ t.completions
  unfolding call_once
  call_once-result index results call t result after e = ground arith

  pub call_once-interrupt :
      (index : ℕ) (results : List CallResult) (call : Call) (t : Turn S) (i : Interrupt)
      (after : Turn S)
      → call_once env turn_id session_id index results call t ≡ inr (i, after)
      → (after.completions ≡ t.completions)
        × (i.pending_tool_call ≡ call)
        × (i.pending_index ≡ index)
        × (i.completed_results ≡ results)
  unfolding call_once
  call_once-interrupt index results call t i after e = ground arith

  execute_from-completions :
      (index : ℕ) (results : List CallResult) (calls : List Call) (t : Turn S)
      → (execute_from env turn_id session_id index results calls t).1.completions ≡ t.completions
  unfolding execute_from
  execute_from-completions index results [] t = refl
  execute_from-completions index results (call ∷ calls) t =
      go_on-holds (λ (r, after). after.completions ≡ t.completions)
        (λ result after.
          execute_from env turn_id session_id (index + 1) (results ++ (result ∷ [])) calls after)
        (call_once env turn_id session_id index results call t)
        (λ result after e.
          execute_from-completions (index + 1) (results ++ (result ∷ [])) calls after
          ∙ call_once-result index results call t result after e)
        (λ i after e. (call_once-interrupt index results call t i after e).0)

  execute_tool_calls-completions :
      (calls : List Call) (t : Turn S)
      → (execute_tool_calls env turn_id session_id calls t).1.completions ≡ t.completions
  unfolding execute_tool_calls
  execute_tool_calls-completions calls t = ground (arith, execute_from-completions 0 [] calls t)

  run_round-completions :
      (round_index : ℕ) (calls : List Call) (s : LoopState) (t : Turn S)
      → (run_round env turn_id session_id round_index calls s t).1.completions ≤ t.completions + 1
  unfolding run_round
  run_round-completions round_index [] s t = ground arith
  run_round-completions round_index (call ∷ calls) s t =
      ground (arith, execute_tool_calls-completions (call ∷ calls) t)

  continue_llm_loop-completions :
      (rounds round_index : ℕ) (s : LoopState) (t : Turn S)
      → (continue_llm_loop env turn_id session_id rounds round_index s t).1.completions
        ≤ t.completions + rounds
  unfolding continue_llm_loop
  continue_llm_loop-completions zero round_index s t = ground arith
  continue_llm_loop-completions (suc rounds) round_index s t =
      let calls = calls_of s.response.tool_calls in
      let (r, after) = run_round env turn_id session_id round_index calls s t in
      elim (RoundEnd-cases r) [
        | inl (e, q) ↦ ground (arith, run_round-completions round_index calls s t)
        | inr (next, q) ↦ ground (
          arith,
          run_round-completions round_index calls s t,
          continue_llm_loop-completions rounds (round_index + 1) next after,
        )
      ]

  first_reply-completions :
      (messages : List Message) (reply : LlmReply) (t : Turn S)
      → (first_reply env turn_id session_id messages (reply, t)).1.completions ≤ t.completions + 4
  unfolding first_reply
  first_reply-completions messages (replied response) t =
      continue_llm_loop-completions 4 0 (start_state response messages) t
  first_reply-completions messages (rate_limited policy retry_after) t = ground arith
  first_reply-completions messages (circuit_open e) t = ground arith
  first_reply-completions messages (failed e) t = ground arith

  -- The tool loop asks the model for at most five completions.
  pub run_llm-completions :
      (messages : List Message) (t : Turn S)
      → (run_llm env turn_id session_id messages t).1.completions ≤ t.completions + 5
  unfolding run_llm
  run_llm-completions messages t =
      let (reply, asked) = ask_llm env messages t in
      ground (arith, first_reply-completions messages reply asked)
