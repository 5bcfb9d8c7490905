-- ===== src/Agent/Resume.antt =====
-- `resume_turn`, `_finish_resumed_turn` and `_save_approval_checkpoint` of backend/runtime/agent.py.
use soul_claw.Base.{
  ℕ, zero, suc, ◌-◌, String, Bool, true, false, List, [], ◌∷◌, Option, none, some, Result, ok,
  Fields, string, end, field, obj, field_put, info, str_eq, is_empty, f_string, str, length, take,
  if◌then◌else◌,
}
use soul_claw.Tools.State.{Approval, find_approval, put_approval}
use soul_claw.Tools.Executor.{all_decisions}
use soul_claw.Agent.State.{
  Call, CallResult, executed, not_executed, Checkpoint, AgentEnv, Turn, tell, record_message,
}

-- `AgentTurnResult`, with the tool results and the status of the model that its context shows
pub record TurnResult : Type 0 where
  pub turn_id : String
  pub answer : String
  pub status : String
  pub approval_id : String
  pub pending_tool_call : Option Call
  pub resume_available : Bool
  pub tool_results : List CallResult
  pub llm_status : String

abbrev pub paused_answer : String
paused_answer = "Approval is required before I can continue this turn."

abbrev pub paused : String → String → Call → List CallResult → TurnResult
paused turn_id approval_id call results = record {
  turn_id = turn_id;
  answer = paused_answer;
  status = "approval_required";
  approval_id = approval_id;
  pending_tool_call = some call;
  resume_available = true;
  tool_results = results;
  llm_status = "";
}

abbrev pub find_checkpoint : String → List (String × Checkpoint) → Option Checkpoint
find_checkpoint id [] = none
find_checkpoint id ((j, c) ∷ cs) = if str_eq j id then some c else find_checkpoint id cs

abbrev pub call_fields : Call → Fields
call_fields c =
    field "id" (string c.id)
      (field "name" (string c.name) (field "arguments" (obj c.arguments) end))

abbrev pub merge_mode : Fields → Fields
merge_mode end = end
merge_mode d = field_put "resume_mode" (string "agent_tool_loop") d

-- `_fallback_answer` without hits and memories
unfoldable pub fallback_answer : List CallResult → String
fallback_answer [] = "SoulClaw runtime is online."
fallback_answer (r ∷ rs) =
    f_string
      ("SoulClaw runtime is online. Executed " ∷ str (length (r ∷ rs)) ∷ " tool call(s)." ∷ [])

-- `calls[index] = call`, for an index in range
unfoldable pub set_call : ℕ → Call → List Call → List Call
set_call index call [] = []
set_call zero call (c ∷ cs) = call ∷ cs
set_call (suc index) call (c ∷ cs) = c ∷ set_call index call cs

-- `stored[-1].get("status") == "approval_required"`, as 1 or 0
unfoldable pub marker_count : List CallResult → ℕ
marker_count [] = 0
marker_count (executed x ∷ []) = if str_eq x.status "approval_required" then 1 else 0
marker_count (not_executed status error name id ∷ []) =
    if str_eq status "approval_required" then 1 else 0
marker_count (r ∷ s ∷ rs) = marker_count (s ∷ rs)

-- The results of the rounds before the interrupted one
unfoldable pub prior_results : Checkpoint → List CallResult
unfolding marker_count
prior_results cp =
    take (length cp.tool_results - length cp.round_completed_results - marker_count cp.tool_results)
      cp.tool_results

module _ {S : Type 0} where
  abbrev pub save_row : Approval → Turn S → Turn S
  save_row a t = record t { db = record (t.db) { approvals = put_approval a t.db.approvals } }

  abbrev pub save_found : Option Approval → String → Checkpoint → Turn S → Turn S
  save_found none approval_id cp t = t
  save_found (some a) approval_id cp t =
      record (save_row
        (record a {
          original_tool_call = call_fields cp.pending_tool_call;
          allowed_decisions = all_decisions;
          resume_state = field_put "mode" (string "resume_turn") a.resume_state;
          payload = merge_mode a.payload;
        })
        t) { checkpoints = (approval_id, cp) ∷ t.checkpoints }

  -- `_save_approval_checkpoint`
  unfoldable pub save_approval_checkpoint : String → Checkpoint → Turn S → Turn S
  unfolding find_approval put_approval
  save_approval_checkpoint approval_id cp t =
      if is_empty approval_id
      then t
      else save_found (find_approval approval_id t.db.approvals) approval_id cp t

  abbrev pub resolved : AgentEnv S → String → Fields → Approval → Approval
  resolved env status resume_state a = record a {
    status = status;
    resolved_at = some env.tool_env.now;
    resume_state = resume_state;
  }

  -- `_finish_resumed_turn`
  unfoldable pub finish_resumed_turn :
      AgentEnv S → Checkpoint → String → String → Approval → Turn S → Result TurnResult × Turn S
  unfolding tell record_message
  finish_resumed_turn env cp answer status approval t = (
    ok (record {
      turn_id = cp.turn_id;
      answer = answer;
      status = status;
      approval_id = approval.id;
      pending_tool_call = none;
      resume_available = false;
      tool_results = cp.tool_results;
      llm_status = "";
    }),
    record_message env
        (record {
          role = "assistant";
          session_id = cp.session_id;
          turn_id = cp.turn_id;
          content = answer;
          metadata =
              field "llm_status" (string status)
                (field "resumed_from_approval" (string approval.id) end);
        })
        (tell "turn.resumed" info
          (field "approval_id" (string approval.id) (field "status" (string status) end)) t),
  )
