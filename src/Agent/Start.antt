-- ===== src/Agent/Start.antt =====
-- `run_turn` of backend/runtime/agent.py, around the loop of `_run_llm`.
use soul_claw.Base.{
  ℕ, zero, suc, String, Bool, true, false, not, List, [], ◌∷◌, ◌++◌, Option, none, some, Result, ok,
  err, approval_required, permission_error, str_exc, string, end, field, warning, is_empty,
  if◌then◌else◌,
}
use soul_claw.Tools.State.{ToolDb}
use soul_claw.Tools.Executor.{Executed}
use soul_claw.Agent.State.{
  Call, CallResult, executed, not_executed, Message, Interrupt, TranscriptMessage, Checkpoint,
  AgentEnv, Turn, tell,
}
use soul_claw.Agent.Calls.{execute_call, note_result}
use soul_claw.Agent.Loop.{LoopEnd, answered, stopped, run_llm}
use soul_claw.Agent.Resume.{paused_answer, save_approval_checkpoint}
use soul_claw.Agent.Answers.{Delegation, Gathered, delegated_answer}

-- The runtime with its other collaborators: the delegation to a remote agent, if it is configured, the
-- context of a message, and the first messages to the model, which follow from the session and the
-- transcript before the turn.
pub record TurnEnv (S : Type 0) : Type 0 where
  pub agent : AgentEnv S
  pub delegate : Option (String → ToolDb S → Result Delegation × ToolDb S)
  pub gather : String → ToolDb S → Gathered
  pub prompt : String → String → List TranscriptMessage → ToolDb S → List Message

-- The variables of `run_turn` that the branches set
pub record Draft : Type 0 where
  pub answer : String
  pub llm_status : String
  pub status : String
  pub tool_results : List CallResult
  pub approval_id : String
  pub pending_tool_call : Option Call
  pub resume_available : Bool

abbrev pub blank_draft : Draft
blank_draft = record {
  answer = "";
  llm_status = "not_configured";
  status = "completed";
  tool_results = [];
  approval_id = "";
  pending_tool_call = none;
  resume_available = false;
}

-- one call that the caller gave: its result, and the draft with it
unfoldable pub noted_call : Call → Result Executed → Draft → Draft
noted_call call (ok x) d = record d { tool_results = d.tool_results ++ (executed x ∷ []) }
noted_call call (err (approval_required m tool id)) d = record d {
  approval_id = id;
  pending_tool_call = some call;
  status = "approval_required";
  resume_available = false;
  tool_results = d.tool_results ++ (not_executed "approval_required" m call.name (some id) ∷ []);
}
noted_call call (err (permission_error m)) d = record d {
  tool_results = d.tool_results ++ (not_executed "approval_required" m call.name none ∷ []);
}
noted_call call (err e) d = record d {
  tool_results = d.tool_results ++ (not_executed "failed" (str_exc e) call.name none ∷ []);
}

-- `tool_results[-1]`, which is there
abbrev pub last_result : CallResult → List CallResult → CallResult
last_result r [] = r
last_result r (s ∷ rs) = last_result s rs

abbrev pub checkpoint_of : String → String → Interrupt → Checkpoint
checkpoint_of turn_id session_id i = record {
  session_id = session_id;
  turn_id = turn_id;
  messages = i.messages;
  tool_calls = i.tool_calls;
  tool_results = i.tool_results;
  round_tool_calls = i.round_tool_calls;
  round_completed_results = i.completed_results;
  pending_tool_call = i.pending_tool_call;
  pending_index = i.pending_index;
  round_index = i.round_index;
}

abbrev pub failed_delegation : String → Delegation
failed_delegation error = record {
  status = "failed";
  task_id = "";
  answer = "";
  artifacts = 0;
  error = error;
}

unfoldable pub delegated_draft : Delegation → Draft
unfolding delegated_answer
delegated_draft d = record blank_draft { answer = delegated_answer d; llm_status = "delegated_a2a" }

-- `message[:200]`
unfoldable pub first_chars : ℕ → String → String
first_chars zero s = ""
first_chars (suc n) String.[] = ""
first_chars (suc n) (String.◌∷◌ c s) = String.◌∷◌ c (first_chars n s)

module _ {S : Type 0} where
  -- one pass of the loop over the calls that the caller gave
  unfoldable pub caller_step :
      AgentEnv S → String → String → Call → Draft → Result Executed × Turn S → Draft × Turn S
  unfolding noted_call note_result
  caller_step env turn_id session_id call d (r, t) =
      let after = noted_call call r d in
      (
        after,
        note_result env turn_id session_id (field "tool_name" (string call.name) end)
            (last_result (not_executed "" "" "" none) after.tool_results) t,
      )

  unfoldable pub execute_given :
      AgentEnv S → String → String → List Call → Draft → Turn S → Draft × Turn S
  unfolding caller_step execute_call
  execute_given env turn_id session_id [] d t = (d, t)
  execute_given env turn_id session_id (call ∷ calls) d t =
      let (after, next) =
        caller_step env turn_id session_id call d (execute_call env turn_id call t) in
      execute_given env turn_id session_id calls after next

  -- the answer of `_run_llm`, or its interrupt
  unfoldable pub settle_llm : String → String → LoopEnd × Turn S → Draft × Turn S
  unfolding save_approval_checkpoint tell
  settle_llm turn_id session_id (answered a, t) = (
    record blank_draft { answer = a.content; llm_status = a.status; tool_results = a.tool_results },
    t,
  )
  settle_llm turn_id session_id (stopped i, t) = (
    record {
      answer = paused_answer;
      llm_status = "approval_required";
      status = "approval_required";
      tool_results = i.tool_results;
      approval_id = i.approval_id;
      pending_tool_call = some i.pending_tool_call;
      resume_available = not (is_empty i.approval_id);
    },
    tell "agent.node.approval_interrupt" warning
        (field "approval_id" (string i.approval_id)
          (field "tool_name" (string i.pending_tool_call.name) end))
        (save_approval_checkpoint i.approval_id (checkpoint_of turn_id session_id i) t),
  )

  unfoldable pub settle_delegation :
      String → Result Delegation × ToolDb S → Turn S → Option Delegation × Turn S
  unfolding tell first_chars
  settle_delegation message (ok d, db) t = (some d, record t { db = db })
  settle_delegation message (err e, db) t = (
    some (failed_delegation (str_exc e)),
    tell "a2a.delegate.failed" warning
        (field "error" (string (str_exc e))
          (field "message_preview" (string (first_chars 200 message)) end))
        (record t { db = db }),
  )

  -- the delegation, where there are no given calls and the message asks for it
  abbrev pub delegate_with :
      Option (String → ToolDb S → Result Delegation × ToolDb S)
      → Bool
      → String
      → Turn S
      → Option Delegation × Turn S
  delegate_with none wanted message t = (none, t)
  delegate_with (some act) false message t = (none, t)
  delegate_with (some act) true message t = settle_delegation message (act message t.db) t

  -- the branches: the given calls, the delegated answer, or the model
  unfoldable pub draft_turn :
      TurnEnv S
      → String
      → String
      → String
      → List TranscriptMessage
      → Option (List Call)
      → Option Delegation × Turn S
      → Draft × Turn S
  unfolding run_llm settle_llm execute_given delegated_draft
  draft_turn env turn_id session_id message before (some calls) (d, t) =
      if env.agent.has_tools
      then execute_given env.agent turn_id session_id calls blank_draft t
      else (blank_draft, t)
  draft_turn env turn_id session_id message before none (some d, t) = (delegated_draft d, t)
  draft_turn env turn_id session_id message before none (none, t) =
      settle_llm turn_id session_id
        (run_llm env.agent turn_id session_id (env.prompt session_id message before t.db) t)
