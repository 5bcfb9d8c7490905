-- ===== src/Agent/Decide.antt =====
-- `resume_turn` of backend/runtime/agent.py: its checks, and what follows each decision.
use soul_claw.Base.{
  String, true, not, List, [], ◌∷◌, ◌++◌, Option, none, some, Result, ok, err, key_error,
  value_error, runtime_error, other_error, Fields, flag, string, num, end, field, field_get,
  field_put, text_or_empty, info, str_eq, is_empty, or_else, member, f_string, length, drop, leb,
  if◌then◌else◌,
}
use soul_claw.Tools.State.{Approval, find_approval, put_approval}
use soul_claw.Agent.State.{Call, Checkpoint, AgentEnv, Turn, tell, ask_llm}
use soul_claw.Agent.Calls.{name_calls, append_tool_messages}
use soul_claw.Agent.Resume.{
  TurnResult, find_checkpoint, fallback_answer, set_call, prior_results, save_row, resolved,
  finish_resumed_turn,
}
use soul_claw.Agent.Continue.{
  Resumed, all_done, asked_again, resume_from, close_resumed, follow_resumed,
}

abbrev pub or_pending : Call → List Call → List Call
or_pending pending [] = pending ∷ []
or_pending pending (c ∷ cs) = c ∷ cs

abbrev pub edited_or : Fields → Fields → Fields
edited_or end given = given
edited_or (field k v d) given = field k v d

abbrev pub set_edited : String → Fields → Approval → Approval
set_edited decision end a = a
set_edited decision (field k v d) a =
    if str_eq decision "edit" then record a { edited_arguments = field k v d } else a

-- `{**(approval.resume_state or {}), "resumed": True, "decision": decision}`
abbrev pub decided : String → Fields → Fields
decided decision d = field_put "decision" (string decision) (field_put "resumed" (flag true) d)

module _ {S : Type 0} where
  -- The calls were executed: the messages, and the follow-up.
  unfoldable pub settle_resumed :
      AgentEnv S
      → Checkpoint
      → Approval
      → String
      → Call
      → List Call
      → Result Resumed × Turn S
      → Result TurnResult × Turn S
  unfolding tell follow_resumed close_resumed append_tool_messages prior_results ask_llm
  settle_resumed env cp approval decision pending round (err e, t) = (err e, t)
  settle_resumed env cp approval decision pending round (ok (asked_again r), t) = (ok r, t)
  settle_resumed env cp approval decision pending round (ok (all_done rs), t) =
      let messages =
        append_tool_messages cp.messages (name_calls 0 (set_call cp.pending_index pending round))
          rs in
      let results = prior_results cp ++ rs in
      let told =
        if env.has_conversation
        then tell "agent.node.tool_execution" info (field "tool_results" (num (length rs)) end) t
        else t in
      if leb (length round) cp.pending_index
      then (err (other_error "list assignment index out of range"), t)
      else if env.llm_configured
      then follow_resumed env cp approval decision messages results (ask_llm env messages told)
      else close_resumed env cp approval decision (fallback_answer results) "not_configured" results
          told

  -- The decision approve or edit, once the approval's row is saved
  unfoldable pub execute_resumed :
      AgentEnv S → Checkpoint → Approval → String → Turn S → Result TurnResult × Turn S
  unfolding settle_resumed resume_from
  execute_resumed env cp approval decision t =
      let pending = record (cp.pending_tool_call) {
        arguments = edited_or approval.edited_arguments cp.pending_tool_call.arguments;
      } in
      let round = or_pending pending cp.round_tool_calls in
      if not env.has_tools
      then (err (runtime_error "tool executor is not configured"), t)
      else settle_resumed env cp approval decision pending round (
          resume_from env cp approval.id pending cp.pending_index cp.round_completed_results
            (drop cp.pending_index round) t)

  -- What follows a valid decision; `approval` has the edited arguments already.
  unfoldable pub decide :
      AgentEnv S → Checkpoint → Approval → String → String → Turn S → Result TurnResult × Turn S
  unfolding execute_resumed finish_resumed_turn
  decide env cp approval decision response t =
      if str_eq decision "respond"
      then (let answer = or_else response (
            or_else (text_or_empty (field_get "response" approval.resume_state))
              "Handled by human response.") in
          let state =
            decided "respond" (field_put "response" (string answer) approval.resume_state) in
          let a = resolved env "cancelled" state approval in
          finish_resumed_turn env cp answer "responded" a (save_row a t))
      else if str_eq decision "reject"
      then (let a = resolved env "rejected" (decided "reject" approval.resume_state) approval in
          finish_resumed_turn env cp
            (or_else response "Approval was rejected, so I stopped that tool call.") "rejected" a
            (save_row a t))
      else (let a = resolved env "approved" approval.resume_state approval in
          execute_resumed env cp a decision (save_row a t))

  abbrev pub checkpoint_or_error :
      AgentEnv S
      → Option Checkpoint
      → Approval
      → String
      → Fields
      → String
      → Turn S
      → Result TurnResult × Turn S
  checkpoint_or_error env none approval decision edited response t =
      (err (value_error "approval does not have an agent turn checkpoint"), t)
  checkpoint_or_error env (some cp) approval decision edited response t =
      let chosen = or_else (env.normalize decision) "approve" in
      if is_empty cp.turn_id
      then (err (value_error "approval checkpoint is missing turn_id or pending_tool_call"), t)
      else if not (member chosen ("approve" ∷ "edit" ∷ "reject" ∷ "respond" ∷ []))
      then (err (value_error "decision must be approve, edit, reject, or respond"), t)
      else decide env cp (set_edited chosen edited approval) chosen response t

  abbrev pub approval_or_error :
      AgentEnv S
      → Option Approval
      → String
      → String
      → Fields
      → String
      → Turn S
      → Result TurnResult × Turn S
  approval_or_error env none id decision edited response t =
      (err (key_error (f_string ("approval not found: " ∷ id ∷ []))), t)
  approval_or_error env (some a) id decision edited response t =
      checkpoint_or_error env (find_checkpoint id t.checkpoints) a decision edited response t

  -- `resume_turn`
  unfoldable pub resume_turn :
      AgentEnv S → String → String → Fields → String → Turn S → Result TurnResult × Turn S
  unfolding decide find_approval put_approval
  resume_turn env id decision edited response t =
      approval_or_error env (find_approval id t.db.approvals) id decision edited response t
