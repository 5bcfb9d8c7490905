-- ===== src/Agent/Whole.antt =====
-- `run_turn` of backend/runtime/agent.py as a whole. The event of its end shows the state of the turn;
-- the rest of its report, which only counts and names what was read, is left out.
use soul_claw.Base.{
  ◌+◌, String, Bool, not, ◌&&◌, ◌||◌, List, Option, none, some, Fields, string, num, flag, obj, end,
  field, info, warning, str_eq, or_else, is_some, any, length, if◌then◌else◌,
}
use soul_claw.Agent.State.{
  Call, CallResult, executed, not_executed, TranscriptMessage, AgentEnv, Turn, tell, record_message,
  summarized,
}
use soul_claw.Agent.Resume.{TurnResult, call_fields}
use soul_claw.Agent.Start.{TurnEnv, Draft, first_chars, delegate_with, draft_turn}
use soul_claw.Agent.Answers.{Delegation, Gathered, should_delegate, degraded_answer, whole_fallback}

abbrev pub result_name : CallResult → String
result_name (executed x) = x.tool_name
result_name (not_executed status error name id) = name

abbrev pub result_status : CallResult → String
result_status (executed x) = x.status
result_status (not_executed status error name id) = status

-- an index of the wiki was looked at, and no page was read
unfoldable pub unread_wiki : List CallResult → Bool
unread_wiki results =
    any
      (λ r.
        str_eq (result_name r) "wiki_search"
        || (str_eq (result_name r) "wiki_orient" || str_eq (result_name r) "wiki_follow_links"))
      results
    && not (
        any (λ r. str_eq (result_name r) "wiki_read" && str_eq (result_status r) "succeeded")
          results)

-- `llm_answer or self._degraded_answer(llm_status) or self._fallback_answer(...)`
unfoldable pub final_answer : Gathered → Draft → String
unfolding degraded_answer whole_fallback
final_answer g d =
    or_else d.answer (or_else (degraded_answer d.llm_status) (whole_fallback g d.tool_results))

abbrev pub pending_fields : Option Call → Fields
pending_fields none = end
pending_fields (some c) = call_fields c

abbrev pub turn_report : Draft → Fields
turn_report d = field "status" (string d.status) (
    field "approval_id" (string d.approval_id) (
      field "pending_tool_call" (obj (pending_fields d.pending_tool_call))
        (field "resume_available" (flag d.resume_available) end)))

abbrev pub message_of : String → String → String → String → Fields → TranscriptMessage
message_of role session_id turn_id content metadata = record {
  role = role;
  session_id = session_id;
  turn_id = turn_id;
  content = content;
  metadata = metadata;
}

module _ {S : Type 0} where
  -- `self.conversation.record_assistant_message` and `update_summary_if_needed`
  unfoldable pub record_answer : AgentEnv S → String → String → String → String → Turn S → Turn S
  unfolding record_message summarized
  record_answer env session_id turn_id answer llm_status t =
      let said =
        record_message env
          (message_of "assistant" session_id turn_id answer
            (field "llm_status" (string llm_status) end))
          t in
      if env.has_conversation then summarized env session_id said else t

  -- from the final answer on
  unfoldable pub finish_turn :
      AgentEnv S → String → String → Gathered → Draft × Turn S → TurnResult × Turn S
  unfolding tell final_answer unread_wiki record_answer first_chars
  finish_turn env turn_id session_id g (d, t) =
      let answer = final_answer g d in
      let told =
        tell "agent.node.final_answer" info
          (field "llm_status" (string d.llm_status) (
            field "tool_results" (num (length d.tool_results))
              (field "answer_preview" (string (first_chars 200 answer)) end)))
          t in
      let warned =
        if unread_wiki d.tool_results
        then tell "wiki.retrieval_guard.warning" warning
            (field "reason" (string "wiki index lookup occurred without wiki_read evidence") end)
            told
        else told in
      (
        record {
          turn_id = turn_id;
          answer = answer;
          status = d.status;
          approval_id = d.approval_id;
          pending_tool_call = d.pending_tool_call;
          resume_available = d.resume_available;
          tool_results = d.tool_results;
          llm_status = d.llm_status;
        },
        tell "agent.node.post_turn" info (field "summary_checked" (flag env.has_conversation) end) (
            tell
              (if str_eq d.status "approval_required"
                then "turn.approval_required"
                else "turn.completed")
              info (field "context" (obj (field "turn" (obj (turn_report d)) end)) end)
              (record_answer env session_id turn_id answer d.llm_status warned)),
      )

  -- the turn has its id, and the user's message is recorded
  unfoldable pub begin_turn : TurnEnv S → String → String → String → Turn S → Turn S
  unfolding tell record_message first_chars
  begin_turn env turn_id session_id message t =
      record_message env.agent (message_of "user" session_id turn_id message end) (
        tell "turn.started" info (field "message_preview" (string (first_chars 200 message)) end)
          (record t { db = record (t.db) { supply = t.db.supply + 1 } }))

  -- what the context of the message counts
  unfoldable pub assembled :
      TurnEnv S → String → Option Delegation × Turn S → Option Delegation × Turn S
  unfolding tell
  assembled env message (d, t) =
      let g = env.gather message t.db in
      (
        d,
        tell "agent.node.context_assembled" info
            (field "wiki_pages" (num g.wiki_pages) (
              field "resident_memory" (num g.resident)
                (field "dynamic_memory" (num g.dynamic) (field "skills" (num g.skills) end))))
            t,
      )

  -- `run_turn`
  unfoldable pub run_turn :
      TurnEnv S → String → String → Option (List Call) → Turn S → TurnResult × Turn S
  unfolding begin_turn assembled draft_turn finish_turn should_delegate
  run_turn env message session_id calls t =
      let turn_id = env.agent.tool_env.uuid4 t.db.supply in
      let begun = begin_turn env turn_id session_id message t in
      let delegated =
        delegate_with env.delegate
          (not (is_some calls) && should_delegate env.agent.tool_env.lower message) message begun in
      finish_turn env.agent turn_id session_id (env.gather message delegated.1.db) (
        draft_turn env turn_id session_id message t.transcript calls
          (assembled env message delegated))
