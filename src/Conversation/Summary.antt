-- ===== src/Conversation/Summary.antt =====
-- `update_summary_if_needed` of backend/domain/conversation.py.
use soul_claw.Base.{
  ℕ, ◌+◌, String, Bool, not, ◌||◌, List, [], ◌∷◌, Option, none, some, Result, ok, err, str_exc,
  field, string, num, end, info, warning, emit, str_eq, if◌then◌else◌, ltb, length, map, f_string,
  strip, join,
}
use soul_claw.Conversation.Service.{
  SessionMessage, SessionSummary, ConversationDb, ConversationEnv, in_session, find_summary,
  list_messages,
}

-- `OpenAICompatibleClient`: whether it is configured, and the content of its completion, or the
-- exception, for role and content of each message.
pub record SummaryClient : Type 0 where
  pub configured : Bool
  pub complete : List (String × String) → Result String

abbrev pub summarized_count : Option SessionSummary → ℕ
summarized_count none = 0
summarized_count (some s) = s.summarized_message_count

-- the row of the session takes these columns, a new row where there is none
unfoldable pub put_summary : SessionSummary → List SessionSummary → List SessionSummary
put_summary s [] = s ∷ []
put_summary s (r ∷ rs) = if str_eq r.session_id s.session_id then s ∷ rs else r ∷ put_summary s rs

abbrev pub transcript_line : SessionMessage → String
transcript_line m = f_string (m.role ∷ ": " ∷ m.content ∷ [])

unfoldable pub summary_prompt : List SessionMessage → List (String × String)
unfolding join
summary_prompt messages =
    (
      "system",
      "Summarize this SoulClaw session for future short-term context. Keep durable facts, goals, decisions, and unresolved threads. Be concise.",
    )
    ∷ (("user", join "\n" (map transcript_line messages)) ∷ [])

abbrev pub new_summary : String → String → ℕ → SessionSummary
new_summary session_id content total = record {
  session_id = session_id;
  summary = strip content;
  summarized_message_count = total;
  metadata = field "message_count" (num total) end;
}

-- what follows the completion, for a session with this many messages
unfoldable pub settle_summary :
    String → ℕ → Result String → ConversationDb → Option SessionSummary × ConversationDb
unfolding put_summary
settle_summary session_id total (err e) db = (
  none,
  record db {
    sink =
        emit "conversation.summary.failed" warning
          (field "session_id" (string session_id) (field "error" (string (str_exc e)) end)) db.sink;
  },
)
settle_summary session_id total (ok content) db = (
  some (new_summary session_id content total),
  record db {
    summaries = put_summary (new_summary session_id content total) db.summaries;
    sink =
        emit "conversation.summary.updated" info
          (field "session_id" (string session_id) (field "message_count" (num total) end)) db.sink;
  },
)

-- `total < threshold or total - summarized < threshold`, where the difference may be negative
unfoldable pub too_few : ConversationEnv → String → ConversationDb → Bool
unfolding in_session find_summary
too_few env session_id db =
    let total = length (in_session session_id db.messages) in
    ltb total env.summary_threshold
    || ltb total (env.summary_threshold + summarized_count (find_summary session_id db.summaries))

unfoldable pub summarize :
    ConversationEnv
    → String
    → SummaryClient
    → ConversationDb
    → Option SessionSummary × ConversationDb
unfolding too_few settle_summary summary_prompt in_session
summarize env session_id llm db =
    if not llm.configured || too_few env session_id db
    then (none, db)
    else settle_summary session_id (length (in_session session_id db.messages))
        (llm.complete (summary_prompt (list_messages env session_id 80 db))) db

-- `update_summary_if_needed`
unfoldable pub update_summary_if_needed :
    ConversationEnv
    → String
    → Option SummaryClient
    → ConversationDb
    → Option SessionSummary × ConversationDb
unfolding summarize
update_summary_if_needed env session_id none db = (none, db)
update_summary_if_needed env session_id (some llm) db = summarize env session_id llm db
