-- ===== src/Agent/Calls.antt =====
-- `_execute_tool_calls` and `_append_tool_messages` of backend/runtime/agent.py.
use soul_claw.Base.{
  Fields, field, string, end, ℕ, ◌+◌, String, false, List, [], ◌∷◌, ◌++◌, ◌⊎◌, inl, inr, none, some,
  Result, ok, err, permission_error, approval_required, str_exc, or_else, f_string, str,
  if◌then◌else◌,
}
use soul_claw.Tools.Executor.{Executed, execute}
use soul_claw.Agent.State.{
  Call, CallResult, executed, not_executed, Message, assistant_calls, tool_message, Interrupt,
  LlmToolCall, AgentEnv, Turn, record_message,
}

pub data Round : Type 0 where
  completed : List CallResult → Round
  interrupted : Interrupt → Round

-- What the loop makes of one call: a result, or the interrupt's approval id and result.
unfoldable pub outcome : Call → Result Executed → CallResult ⊎ (String × CallResult)
outcome call (ok x) = inl (executed x)
outcome call (err (approval_required m tool id)) =
    inr (id, not_executed "approval_required" m call.name (some id))
outcome call (err (permission_error m)) = inl (not_executed "approval_required" m call.name none)
outcome call (err e) = inl (not_executed "failed" (str_exc e) call.name none)

abbrev pub raise_interrupt : String → Call → List CallResult → CallResult → ℕ → Interrupt
raise_interrupt approval_id call results result index = record {
  approval_id = approval_id;
  pending_tool_call = call;
  completed_results = results;
  approval_result = result;
  pending_index = index;
  messages = [];
  tool_calls = [];
  tool_results = [];
  round_tool_calls = [];
  round_index = 0;
}

module _ {S : Type 0} where
  -- One call of `self.tools.execute`
  unfoldable pub execute_call : AgentEnv S → String → Call → Turn S → Result Executed × Turn S
  execute_call env turn_id call t =
      let (r, db) =
        execute env.tool_env env.registry call.name call.arguments turn_id call.approved t.db in
      (r, record t { db = db })

  -- The tool message of one result
  unfoldable pub note_result : AgentEnv S → String → String → Fields → CallResult → Turn S → Turn S
  unfolding record_message
  note_result env turn_id session_id metadata result = record_message env (record {
    role = "tool";
    session_id = session_id;
    turn_id = turn_id;
    content = env.dumps result;
    metadata = metadata;
  })

  -- One pass of the loop: a result, or the interrupt that is raised.
  unfoldable pub call_step :
      AgentEnv S
      → String
      → String
      → ℕ
      → List CallResult
      → Call
      → CallResult ⊎ (String × CallResult)
      → Turn S
      → (CallResult × Turn S) ⊎ (Interrupt × Turn S)
  unfolding note_result
  call_step env turn_id session_id index results call (inl result) t = inl (
    result,
    note_result env turn_id session_id (field "tool_name" (string call.name) end) result t,
  )
  call_step env turn_id session_id index results call (inr (approval_id, result)) t = inr (
    raise_interrupt approval_id call results result index,
    note_result env turn_id session_id
        (field "tool_name" (string call.name) (field "approval_id" (string approval_id) end)) result
        t,
  )

  unfoldable pub go_on :
      (CallResult → Turn S → Round × Turn S)
      → (CallResult × Turn S) ⊎ (Interrupt × Turn S)
      → Round × Turn S
  go_on k (inl (result, t)) = k result t
  go_on k (inr (i, t)) = (interrupted i, t)

  unfoldable pub call_once :
      AgentEnv S
      → String
      → String
      → ℕ
      → List CallResult
      → Call
      → Turn S
      → (CallResult × Turn S) ⊎ (Interrupt × Turn S)
  unfolding execute_call outcome call_step
  call_once env turn_id session_id index results call t =
      let (r, after) = execute_call env turn_id call t in
      call_step env turn_id session_id index results call (outcome call r) after

  -- The loop over the calls, from the call with this index on, with the results so far.
  unfoldable pub execute_from :
      AgentEnv S → String → String → ℕ → List CallResult → List Call → Turn S → Round × Turn S
  unfolding call_once go_on
  execute_from env turn_id session_id index results [] t = (completed results, t)
  execute_from env turn_id session_id index results (call ∷ calls) t =
      go_on
        (λ result after.
          execute_from env turn_id session_id (index + 1) (results ++ (result ∷ [])) calls after)
        (call_once env turn_id session_id index results call t)

  -- `_execute_tool_calls`
  unfoldable pub execute_tool_calls :
      AgentEnv S → String → String → List Call → Turn S → Round × Turn S
  unfolding execute_from
  execute_tool_calls env turn_id session_id calls t =
      if env.has_tools then execute_from env turn_id session_id 0 [] calls t else (completed [], t)

-- `calls = [{"id": call.id, ...} for call in response.tool_calls]`
unfoldable pub calls_of : List LlmToolCall → List Call
calls_of [] = []
calls_of (c ∷ cs) =
    record { id = c.id; name = c.name; arguments = c.arguments; approved = false } ∷ calls_of cs

-- `call["id"] = str(call.get("id") or f"tool_call_{index}")`, for every call
unfoldable pub name_calls : ℕ → List Call → List Call
name_calls index [] = []
name_calls index (call ∷ calls) =
    record call { id = or_else call.id (f_string ("tool_call_" ∷ str index ∷ [])) }
    ∷ name_calls (index + 1) calls

-- The messages of the results; there are never more results than calls.
unfoldable pub tool_messages : List Call → List CallResult → List Message
tool_messages [] results = []
tool_messages (call ∷ calls) [] = []
tool_messages (call ∷ calls) (result ∷ results) =
    tool_message call.id result ∷ tool_messages calls results

-- `_append_tool_messages`, with the calls named already
unfoldable pub append_tool_messages : List Message → List Call → List CallResult → List Message
unfolding tool_messages
append_tool_messages messages named results =
    messages ++ (assistant_calls named ∷ tool_messages named results)
