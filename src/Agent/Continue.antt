-- ===== src/Agent/Continue.antt =====
-- `resume_turn` of backend/runtime/agent.py: the calls from the pending one on, and the loop after.
use soul_claw.Base.{
  ℕ, ◌+◌, ◌-◌, String, true, false, List, [], ◌∷◌, ◌++◌, ◌⊎◌, inl, inr, none, some, Result, ok, err,
  approval_required, flag, string, num, end, field, field_put, info, warning, f_string, length,
  ◌==◌, if◌then◌else◌,
}
use soul_claw.Tools.State.{Approval}
use soul_claw.Tools.Executor.{Executed}
use soul_claw.Agent.State.{
  Call, CallResult, executed, not_executed, Message, LlmReply, replied, rate_limited, circuit_open,
  failed, Checkpoint, AgentEnv, Turn, tell, record_message, summarized,
}
use soul_claw.Agent.Calls.{execute_call, note_result}
use soul_claw.Agent.Loop.{LoopEnd, answered, stopped, continue_llm_loop}
use soul_claw.Agent.Resume.{
  TurnResult, paused, fallback_answer, prior_results, save_row, save_approval_checkpoint,
}

-- One call of the resumed round returned a result, or asked for another approval.
pub data Resumed : Type 0 where
  all_done : List CallResult → Resumed
  asked_again : TurnResult → Resumed

abbrev pub max_rounds : ℕ
max_rounds = 4

-- the call to execute: the pending one is approved, a later one as it says itself
abbrev pub active_call : Checkpoint → Call → ℕ → Call → Call
active_call cp pending index call =
    if index == cp.pending_index then record pending { approved = true } else call

abbrev pub nested : Checkpoint → List CallResult → Call → ℕ → CallResult → Checkpoint
nested cp results call index refusal = record cp {
  tool_results = prior_results cp ++ (results ++ (refusal ∷ []));
  round_completed_results = results;
  pending_tool_call = call;
  pending_index = index;
}

module _ {S : Type 0} where
  unfoldable pub resume_result :
      AgentEnv S
      → Checkpoint
      → String
      → ℕ
      → List CallResult
      → Call
      → Result Executed × Turn S
      → Result (CallResult ⊎ TurnResult) × Turn S
  unfolding note_result save_approval_checkpoint
  resume_result env cp approval_id index results call (ok x, t) = (
    ok (inl (executed x)),
    note_result env cp.turn_id cp.session_id
        (field "tool_name" (string call.name)
          (field "approval_id" (string approval_id) (field "resumed" (flag true) end)))
        (executed x) t,
  )
  resume_result env cp approval_id index results call (err (approval_required m tool id), t) =
      let refusal = not_executed "approval_required" m call.name (some id) in
      let saved = nested cp results call index refusal in
      (ok (inr (paused cp.turn_id id call saved.tool_results)), save_approval_checkpoint id saved t)
  resume_result env cp approval_id index results call (err e, t) = (err e, t)

  unfoldable pub resume_on :
      (CallResult → Turn S → Result Resumed × Turn S)
      → Result (CallResult ⊎ TurnResult) × Turn S
      → Result Resumed × Turn S
  resume_on k (ok (inl result), t) = k result t
  resume_on k (ok (inr r), t) = (ok (asked_again r), t)
  resume_on k (err e, t) = (err e, t)

  -- The loop over the calls of the round from the pending index on
  unfoldable pub resume_from :
      AgentEnv S
      → Checkpoint
      → String
      → Call
      → ℕ
      → List CallResult
      → List Call
      → Turn S
      → Result Resumed × Turn S
  unfolding resume_on resume_result execute_call
  resume_from env cp approval_id pending index results [] t = (ok (all_done results), t)
  resume_from env cp approval_id pending index results (call ∷ calls) t =
      resume_on
        (λ result after.
          resume_from env cp approval_id pending (index + 1) (results ++ (result ∷ [])) calls after)
        (resume_result env cp approval_id index results
          (if index == cp.pending_index then pending else call)
          (execute_call env cp.turn_id (active_call cp pending index call) t))

  -- the end of `resume_turn`, with the answer and the status of the model
  unfoldable pub close_resumed :
      AgentEnv S
      → Checkpoint
      → Approval
      → String
      → String
      → String
      → List CallResult
      → Turn S
      → Result TurnResult × Turn S
  unfolding tell record_message summarized
  close_resumed env cp approval decision answer llm_status results t =
      let a = record approval {
        resume_state =
            field_put "decision" (string decision)
              (field_put "resumed" (flag true) approval.resume_state);
      } in
      (
        ok (record {
          turn_id = cp.turn_id;
          answer = answer;
          status = "completed";
          approval_id = "";
          pending_tool_call = none;
          resume_available = false;
          tool_results = results;
          llm_status = llm_status;
        }),
        (let said =
              tell "agent.node.final_answer" info
                (field "llm_status" (string llm_status)
                  (field "tool_results" (num (length results)) end))
                (tell "turn.resumed" info
                  (field "approval_id" (string approval.id)
                    (field "tool_name" (string cp.pending_tool_call.name) end))
                  (save_row a t)) in
            if env.has_conversation
            then (let noted =
                  record_message env
                    (record {
                      role = "assistant";
                      session_id = cp.session_id;
                      turn_id = cp.turn_id;
                      content = answer;
                      metadata =
                          field "llm_status" (string llm_status)
                            (field "resumed_from_approval" (string approval.id) end);
                    })
                    said in
                summarized env cp.session_id noted)
            else said),
      )

  unfoldable pub settle_followup :
      AgentEnv S → Checkpoint → Approval → String → LoopEnd × Turn S → Result TurnResult × Turn S
  unfolding close_resumed save_approval_checkpoint
  settle_followup env cp approval decision (answered a, t) =
      close_resumed env cp approval decision a.content a.status a.tool_results t
  settle_followup env cp approval decision (stopped i, t) = (
    ok (paused cp.turn_id i.approval_id i.pending_tool_call i.tool_results),
    save_approval_checkpoint i.approval_id
        (record cp {
          messages = i.messages;
          tool_calls = i.tool_calls;
          tool_results = i.tool_results;
          round_tool_calls = i.round_tool_calls;
          round_completed_results = i.completed_results;
          pending_tool_call = i.pending_tool_call;
          pending_index = i.pending_index;
          round_index = i.round_index;
        })
        t,
  )

  unfoldable pub resume_failed :
      AgentEnv S
      → Checkpoint
      → Approval
      → String
      → String
      → List CallResult
      → Turn S
      → Result TurnResult × Turn S
  unfolding tell close_resumed
  resume_failed env cp approval decision e results t =
      close_resumed env cp approval decision (fallback_answer results) "failed" results
        (tell "llm.resume_turn.failed" warning (field "error" (string e) end) t)

  -- the follow-up completion, and the loop from the next round on
  unfoldable pub follow_resumed :
      AgentEnv S
      → Checkpoint
      → Approval
      → String
      → List Message
      → List CallResult
      → LlmReply × Turn S
      → Result TurnResult × Turn S
  unfolding settle_followup resume_failed continue_llm_loop
  follow_resumed env cp approval decision messages results (replied response, t) =
      settle_followup env cp approval decision (
        continue_llm_loop env cp.turn_id cp.session_id (max_rounds - (cp.round_index + 1))
          (cp.round_index + 1)
          (record {
            response = response;
            messages = messages;
            all_calls = cp.tool_calls;
            tool_results = results;
            status = (elim results [ [] ↦ "completed" | r ∷ rs ↦ "completed_with_tools" ]);
          })
          t)
  follow_resumed env cp approval decision messages results (rate_limited policy retry_after, t) =
      resume_failed env cp approval decision (f_string ("rate limit exceeded for " ∷ policy ∷ []))
        results t
  follow_resumed env cp approval decision messages results (circuit_open e, t) =
      resume_failed env cp approval decision e results t
  follow_resumed env cp approval decision messages results (failed e, t) =
      resume_failed env cp approval decision e results t
