-- ===== src/Agent/Loop.antt =====
-- `_continue_llm_loop` and the start of it in `_run_llm`, of backend/runtime/agent.py.
use soul_claw.Base.{
  ℕ, zero, suc, ◌+◌, String, not, List, [], ◌∷◌, ◌++◌, Fields, string, num, arr, Items, nil, cons,
  end, field, info, warning, if◌then◌else◌,
}
use soul_claw.Agent.State.{
  Call, CallResult, Message, Interrupt, LlmResponse, LlmReply, replied, rate_limited, circuit_open,
  failed, AgentEnv, Turn, tell, ask_llm,
}
use soul_claw.Agent.Calls.{
  Round, completed, interrupted, execute_tool_calls, calls_of, name_calls, append_tool_messages,
}

-- The tuple that the loop returns, or the interrupt that it raises.
pub record Answer : Type 0 where
  pub content : String
  pub all_calls : List Call
  pub status : String
  pub messages : List Message
  pub tool_results : List CallResult

pub data LoopEnd : Type 0 where
  answered : Answer → LoopEnd
  stopped : Interrupt → LoopEnd

-- The variables of the loop
pub record LoopState : Type 0 where
  pub response : LlmResponse
  pub messages : List Message
  pub all_calls : List Call
  pub tool_results : List CallResult
  pub status : String

-- A round returns or raises, or goes on to the next one.
pub data RoundEnd : Type 0 where
  ended : LoopEnd → RoundEnd
  again : LoopState → RoundEnd

abbrev pub answer_with : String → String → LoopState → Answer
answer_with content status s = record {
  content = content;
  all_calls = s.all_calls;
  status = status;
  messages = s.messages;
  tool_results = s.tool_results;
}

-- The loop's variables at the first response, the empty lists of `_run_llm` among them
abbrev pub start_state : LlmResponse → List Message → LoopState
start_state response messages = record {
  response = response;
  messages = messages;
  all_calls = [];
  tool_results = [];
  status = "completed";
}

-- No response was had yet.
abbrev pub no_response : LlmResponse
no_response = record { content = ""; tool_calls = [] }

unfoldable pub call_names : List Call → Items
call_names [] = nil
call_names (c ∷ cs) = cons (string c.name) (call_names cs)

-- The interrupt with what `except AgentApprovalInterrupt` of the loop adds to it.
unfoldable pub annotate :
    Interrupt → List Message → List Call → List CallResult → List Call → ℕ → Interrupt
annotate i messages all_calls tool_results calls round_index = record i {
  messages = messages;
  tool_calls = all_calls;
  tool_results = tool_results ++ (i.completed_results ++ (i.approval_result ∷ []));
  round_tool_calls = calls;
  round_index = round_index;
}

abbrev pub with_results : List Call → List CallResult → LoopState → LoopState
with_results calls results s =
    let named = name_calls 0 calls in
    record s {
      messages = append_tool_messages s.messages named results;
      all_calls = s.all_calls ++ named;
      tool_results = s.tool_results ++ results;
    }

module _ {S : Type 0} where
  -- The returns of the `except` clauses around `llm.complete`: event name and status
  unfoldable pub give_up : String → String → Fields → LoopState → Turn S → LoopEnd × Turn S
  unfolding tell
  give_up event status payload s t =
      (answered (answer_with "" status s), tell event warning payload t)

  abbrev pub end_round : LoopEnd × Turn S → RoundEnd × Turn S
  end_round (e, t) = (ended e, t)

  -- the outcomes of the completion in a round
  unfoldable pub next_reply : LlmReply × Turn S → LoopState → RoundEnd × Turn S
  unfolding give_up
  next_reply (rate_limited policy retry_after, t) s = end_round (
      give_up "llm.tool_loop.rate_limited" "rate_limited"
        (field "policy" (string policy) (field "retry_after" (num retry_after) end)) s t)
  next_reply (circuit_open e, t) s =
      end_round
        (give_up "llm.tool_loop.circuit_open" "circuit_open" (field "error" (string e) end) s t)
  next_reply (failed e, t) s =
      end_round (give_up "llm.tool_loop.failed" "failed" (field "error" (string e) end) s t)
  next_reply (replied response, t) s =
      (again (record s { response = response; status = "completed_with_tools" }), t)

  -- the second half of a round: the messages of the results, and the next completion
  unfoldable pub follow_up :
      AgentEnv S → List Call → List CallResult → LoopState → Turn S → RoundEnd × Turn S
  unfolding ask_llm next_reply
  follow_up env calls results s t =
      let now = with_results calls results s in next_reply (ask_llm env now.messages t) now

  -- the round after its calls were executed, or interrupted
  unfoldable pub settle_round :
      AgentEnv S → List Call → ℕ → LoopState → Round × Turn S → RoundEnd × Turn S
  unfolding follow_up annotate
  settle_round env calls round_index s (interrupted i, t) = (
    ended (stopped (annotate i s.messages (s.all_calls ++ calls) s.tool_results calls round_index)),
    t,
  )
  settle_round env calls round_index s (completed results, t) = follow_up env calls results s t

  -- the round with the calls of the response
  unfoldable pub run_round :
      AgentEnv S → String → String → ℕ → List Call → LoopState → Turn S → RoundEnd × Turn S
  unfolding tell settle_round execute_tool_calls
  run_round env turn_id session_id round_index [] s t = (
    ended (answered (answer_with s.response.content s.status s)),
    tell "llm.completed" info (field "tool_calls" (arr (call_names s.all_calls)) end) t,
  )
  run_round env turn_id session_id round_index (call ∷ calls) s t =
      settle_round env (call ∷ calls) round_index s
        (execute_tool_calls env turn_id session_id (call ∷ calls) t)

  unfoldable pub next_round :
      (LoopState → Turn S → LoopEnd × Turn S) → RoundEnd × Turn S → LoopEnd × Turn S
  next_round k (ended e, t) = (e, t)
  next_round k (again s, t) = k s t

  -- `_continue_llm_loop` for the `rounds` rounds that are left, of which `round_index` is the first
  unfoldable pub continue_llm_loop :
      AgentEnv S → String → String → ℕ → ℕ → LoopState → Turn S → LoopEnd × Turn S
  unfolding tell run_round next_round
  continue_llm_loop env turn_id session_id zero round_index s t = (
    answered (answer_with s.response.content "max_tool_rounds" s),
    tell "llm.tool_loop.max_rounds" warning (field "rounds" (num round_index) end) t,
  )
  continue_llm_loop env turn_id session_id (suc rounds) round_index s t =
      next_round (continue_llm_loop env turn_id session_id rounds (round_index + 1))
        (run_round env turn_id session_id round_index (calls_of s.response.tool_calls) s t)

  -- the outcomes of the first completion; the messages are the system and user messages
  unfoldable pub first_reply :
      AgentEnv S → String → String → List Message → LlmReply × Turn S → LoopEnd × Turn S
  unfolding give_up continue_llm_loop
  first_reply env turn_id session_id messages (rate_limited policy retry_after, t) =
      give_up "llm.rate_limited" "rate_limited"
        (field "policy" (string policy) (field "retry_after" (num retry_after) end))
        (start_state no_response messages) t
  first_reply env turn_id session_id messages (circuit_open e, t) =
      give_up "llm.circuit_open" "circuit_open" (field "error" (string e) end)
        (start_state no_response messages) t
  first_reply env turn_id session_id messages (failed e, t) =
      give_up "llm.failed" "failed" (field "error" (string e) end)
        (start_state no_response messages) t
  first_reply env turn_id session_id messages (replied response, t) =
      continue_llm_loop env turn_id session_id 4 0 (start_state response messages) t

  -- `_run_llm` from the first completion on
  unfoldable pub run_llm : AgentEnv S → String → String → List Message → Turn S → LoopEnd × Turn S
  unfolding ask_llm first_reply
  run_llm env turn_id session_id messages t =
      if not env.llm_configured
      then (
        answered (record {
          content = "";
          all_calls = [];
          status = "not_configured";
          messages = [];
          tool_results = [];
        }),
        t,
      )
      else first_reply env turn_id session_id messages (ask_llm env messages t)
