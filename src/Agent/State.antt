-- ===== src/Agent/State.antt =====
-- What a turn of `AgentRuntime` (backend/runtime/agent.py) works on: calls, their results, the
-- messages to the model, and the interrupt for an approval.
use soul_claw.Base.{
  ℕ, ◌+◌, ◌++◌, String, Bool, List, [], ◌∷◌, Option, Fields, Severity, emit, if◌then◌else◌,
}
use soul_claw.Tools.State.{ToolDb, ToolEnv}
use soul_claw.Tools.Registry.{Registry}
use soul_claw.Tools.Executor.{Executed}

-- A call as the loop writes it: the key `approved` is only in the calls that a caller of the
-- runtime gives.
pub record Call : Type 0 where
  pub id : String
  pub name : String
  pub arguments : Fields
  pub approved : Bool

-- A result is the dictionary of the executor, or status, error, tool name and approval id.
pub data CallResult : Type 0 where
  executed : Executed → CallResult
  not_executed : String → String → String → Option String → CallResult

-- Role and text; the calls of the assistant; the id of a call with its result.
pub data Message : Type 0 where
  content_message : String → String → Message
  assistant_calls : List Call → Message
  tool_message : String → CallResult → Message

-- `AgentApprovalInterrupt`
pub record Interrupt : Type 0 where
  pub approval_id : String
  pub pending_tool_call : Call
  pub completed_results : List CallResult
  pub approval_result : CallResult
  pub pending_index : ℕ
  pub messages : List Message
  pub tool_calls : List Call
  pub tool_results : List CallResult
  pub round_tool_calls : List Call
  pub round_index : ℕ

-- `LLMToolCall` and `LLMResponse` of backend/runtime/llm.py, without the raw body
pub record LlmToolCall : Type 0 where
  pub name : String
  pub arguments : Fields
  pub id : String

pub record LlmResponse : Type 0 where
  pub content : String
  pub tool_calls : List LlmToolCall

-- `llm.complete` returns, or raises one of the classes that the loop tells apart.
pub data LlmReply : Type 0 where
  replied : LlmResponse → LlmReply
  rate_limited : String → ℕ → LlmReply
  circuit_open failed : String → LlmReply

-- A message that `conversation.record_tool_message` or `record_assistant_message` adds
pub record TranscriptMessage : Type 0 where
  pub role : String
  pub session_id : String
  pub turn_id : String
  pub content : String
  pub metadata : Fields

-- The dictionary of mode `agent_tool_loop` that the column `turn_checkpoint` of an approval holds
pub record Checkpoint : Type 0 where
  pub session_id : String
  pub turn_id : String
  pub messages : List Message
  pub tool_calls : List Call
  pub tool_results : List CallResult
  pub round_tool_calls : List Call
  pub round_completed_results : List CallResult
  pub pending_tool_call : Call
  pub pending_index : ℕ
  pub round_index : ℕ

-- The runtime's collaborators. `complete n` is the answer of the model's provider to the n-th
-- completion; `dumps` is `json.dumps` cut to 4000 characters,
-- `normalize` is `strip().lower()`, and `update_summary` is the conversation's summary of old messages,
-- with whether it asked the model for a completion, which it does at most once.
pub record AgentEnv (S : Type 0) : Type 0 where
  pub tool_env : ToolEnv
  pub registry : Registry S
  pub has_tools : Bool
  pub has_conversation : Bool
  pub llm_configured : Bool
  pub complete : ℕ → List Message → LlmReply
  pub dumps : CallResult → String
  pub normalize : String → String
  pub update_summary : String → S → Bool × S

-- The session, the transcript, the checkpoints by the id of their approval, and the number of
-- completions asked for.
pub record Turn (S : Type 0) : Type 0 where
  pub db : ToolDb S
  pub transcript : List TranscriptMessage
  pub checkpoints : List (String × Checkpoint)
  pub completions : ℕ

module _ {S : Type 0} where
  -- the conversation's summary, whose completion is one more
  unfoldable pub summarized : AgentEnv S → String → Turn S → Turn S
  summarized env session_id t =
      let (asked, rest) = env.update_summary session_id t.db.rest in
      record t {
        db = record (t.db) { rest = rest };
        completions = if asked then t.completions + 1 else t.completions;
      }

  unfoldable pub tell : String → Severity → Fields → Turn S → Turn S
  tell name severity payload t = record t {
    db = record (t.db) { sink = emit name severity payload t.db.sink };
  }

  -- `if self.conversation is not None: self.conversation.record_...`
  unfoldable pub record_message : AgentEnv S → TranscriptMessage → Turn S → Turn S
  record_message env m t =
      if env.has_conversation then record t { transcript = t.transcript ++ (m ∷ []) } else t

  -- `self.llm.complete(messages=messages, tools=tools)`
  unfoldable pub ask_llm : AgentEnv S → List Message → Turn S → LlmReply × Turn S
  ask_llm env messages t =
      (env.complete t.completions messages, record t { completions = t.completions + 1 })
