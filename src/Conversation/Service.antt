-- ===== src/Conversation/Service.antt =====
-- Recording messages and reading the context of a session, of backend/domain/conversation.py.
use soul_claw.Base.{
  ℕ, ◌+◌, String, List, [], ◌∷◌, ◌++◌, Option, none, some, Exec, ok, Fields, field, string, end,
  Sink, Severity, info, emit, str_eq, find_first, keep, take, reverse, length, if◌then◌else◌, ◌==◌,
  min, max, ltb, ◌&&◌, ◌||◌, Bool, sort_by, pure, ◌>>=◌, ◌>>◌, not,
}

pub record SessionMessage : Type 0 where
  pub id : String
  pub session_id : String
  pub turn_id : String
  pub role : String
  pub content : String
  pub metadata : Fields
  pub created_at : ℕ

pub record SessionSummary : Type 0 where
  pub session_id : String
  pub summary : String
  pub summarized_message_count : ℕ
  pub metadata : Fields

-- The tables, the rows in the order of their insertion, the events, and the number of ids drawn.
pub record ConversationDb : Type 0 where
  pub messages : List SessionMessage
  pub summaries : List SessionSummary
  pub sink : Sink
  pub supply : ℕ

-- The settings of the service, the clock of the database, the ids of `uuid4`, and which of two messages
-- of one instant the database gives first in a query of the newest ones.
pub record ConversationEnv : Type 0 where
  pub summary_threshold : ℕ
  pub recent_limit : ℕ
  pub now : ℕ
  pub uuid4 : ℕ → String
  pub ahead : SessionMessage → SessionMessage → Bool

pub record SessionContext : Type 0 where
  pub summary : String
  pub messages : List SessionMessage
  pub total_messages : ℕ

-- What `record_user_message` and its siblings are called with
pub record NewMessage : Type 0 where
  pub session_id : String
  pub turn_id : String
  pub content : String
  pub metadata : Fields

unfoldable pub in_session : String → List SessionMessage → List SessionMessage
in_session session_id = keep (λ m. str_eq m.session_id session_id)

unfoldable pub find_summary : String → List SessionSummary → Option SessionSummary
find_summary session_id = find_first (λ s. str_eq s.session_id session_id)

unfoldable pub emit_to : String → Severity → Fields → Exec ConversationDb (Unit {0})
emit_to name severity payload db = (ok tt, record db { sink = emit name severity payload db.sink })

-- the row that `_record` adds
abbrev pub new_message : ConversationEnv → String → NewMessage → ℕ → SessionMessage
new_message env role r supply = record {
  id = env.uuid4 supply;
  session_id = r.session_id;
  turn_id = r.turn_id;
  role = role;
  content = r.content;
  metadata = r.metadata;
  created_at = env.now;
}

unfoldable pub add_message :
    ConversationEnv → String → NewMessage → Exec ConversationDb SessionMessage
add_message env role r db = (
  ok (new_message env role r db.supply),
  record db {
    messages = db.messages ++ (new_message env role r db.supply ∷ []);
    supply = db.supply + 1;
  },
)

-- `_record`
unfoldable pub record_as :
    ConversationEnv → String → NewMessage → Exec ConversationDb SessionMessage
unfolding add_message emit_to pure
record_as env role r = do
  message ← add_message env role r
  emit_to "conversation.message.recorded" info
      (field "role" (string role) (field "message_id" (string message.id) end))
  pure message

unfoldable pub record_user_message :
    ConversationEnv → NewMessage → Exec ConversationDb SessionMessage
unfolding record_as
record_user_message env = record_as env "user"

unfoldable pub record_assistant_message :
    ConversationEnv → NewMessage → Exec ConversationDb SessionMessage
unfolding record_as
record_assistant_message env = record_as env "assistant"

unfoldable pub record_tool_message :
    ConversationEnv → NewMessage → Exec ConversationDb SessionMessage
unfolding record_as
record_tool_message env = record_as env "tool"

-- `desc(created_at)`
abbrev pub comes_before : ConversationEnv → SessionMessage → SessionMessage → Bool
comes_before env m n =
    ltb n.created_at m.created_at || (m.created_at == n.created_at && env.ahead m n)

-- `.order_by(desc(created_at)).limit(limit)`, then `reverse()`
unfoldable pub latest : ConversationEnv → ℕ → List SessionMessage → List SessionMessage
unfolding sort_by
latest env limit messages = reverse (take limit (sort_by (comes_before env) messages))

-- `limit or default`
abbrev pub limit_or : ℕ → Option ℕ → ℕ
limit_or default none = default
limit_or default (some n) = if n == 0 then default else n

-- `summary_record.summary if summary_record else ""`
abbrev pub summary_text : Option SessionSummary → String
summary_text none = ""
summary_text (some s) = s.summary

-- `recent_context`
unfoldable pub recent_context :
    ConversationEnv → String → Option ℕ → ConversationDb → SessionContext
unfolding in_session find_summary latest
recent_context env session_id limit db = record {
  summary = summary_text (find_summary session_id db.summaries);
  messages =
      latest env (max 1 (min (limit_or env.recent_limit limit) 50))
        (in_session session_id db.messages);
  total_messages = length (in_session session_id db.messages);
}

-- `list_messages`
unfoldable pub list_messages : ConversationEnv → String → ℕ → ConversationDb → List SessionMessage
unfolding in_session latest
list_messages env session_id limit db =
    latest env (max 1 (min limit 500)) (in_session session_id db.messages)

-- `get_summary`
unfoldable pub get_summary : String → ConversationDb → Option SessionSummary
unfolding find_summary
get_summary session_id db = find_summary session_id db.summaries

pub record SessionRow : Type 0 where
  pub session_id : String
  pub last_message_at : ℕ
  pub message_count : ℕ

-- the group of a session, or an empty one
unfoldable pub count_of : String → List SessionRow → ℕ
count_of session_id [] = 0
count_of session_id (r ∷ rs) =
    if str_eq r.session_id session_id then r.message_count else count_of session_id rs

unfoldable pub other_rows : String → List SessionRow → List SessionRow
other_rows session_id = keep (λ r. not (str_eq r.session_id session_id))

-- The groups of the messages, the one with the newest message first: each message, in the order of
-- the times, moves its group to the front.
unfoldable pub group_from : List SessionRow → List SessionMessage → List SessionRow
unfolding count_of other_rows
group_from rows [] = rows
group_from rows (m ∷ ms) =
    group_from
      (record {
        session_id = m.session_id;
        last_message_at = m.created_at;
        message_count = count_of m.session_id rows + 1;
      }
        ∷ other_rows m.session_id rows)
      ms

-- `list_sessions`
unfoldable pub list_sessions : ℕ → ConversationDb → List SessionRow
unfolding group_from
list_sessions limit db = take (max 1 (min limit 500)) (group_from [] db.messages)
