-- ===== src/Conversation/Refine.antt =====
-- The conversation service as a map from sessions to their messages and summary, which the tables
-- implement.
use soul_claw.Base.{
  ℕ, ◌+◌, String, not, ◌||◌, ◌≡◌, refl, ap, ◌∙◌, List, [], ◌∷◌, ◌++◌, Option, none, some, Result,
  ok, err, arith, length, str_eq, eq_iff, if◌then◌else◌, ltb, Bool-cases, inl, inr,
}
use soul_claw.Conversation.Service.{
  SessionMessage, SessionSummary, ConversationDb, ConversationEnv, NewMessage, in_session,
  find_summary, latest, list_messages, new_message, record_as, add_message, emit_to,
}
use soul_claw.Conversation.Summary.{
  SummaryClient, summarized_count, put_summary, new_summary, settle_summary, too_few, summarize,
  update_summary_if_needed, summary_prompt,
}
use soul_claw.Conversation.Context.{in_session-record_as}
use soul_claw.Conversation.Counts.{Operation, recorded, summarized, run_operation, run_operations}

-- The abstract state: the messages and the summary of each session, and the number of ids drawn
pub record Sessions : Type 0 where
  pub log : String → List SessionMessage
  pub summary : String → Option SessionSummary
  pub drawn : ℕ

abbrev pub view : ConversationDb → Sessions
view db = record {
  log = λ session_id. in_session session_id db.messages;
  summary = λ session_id. find_summary session_id db.summaries;
  drawn = db.supply;
}

-- a message at the end of its session
abbrev pub say : ConversationEnv → String → NewMessage → Sessions → Sessions
say env role r a = record {
  log = λ session_id.
      if str_eq r.session_id session_id
      then a.log session_id ++ (new_message env role r a.drawn ∷ [])
      else a.log session_id;
  summary = a.summary;
  drawn = a.drawn + 1;
}

-- a completion that answers becomes the session's summary, and counts all its messages
abbrev pub settle : String → Result String → Sessions → Sessions
settle session_id (err e) a = a
settle session_id (ok content) a = record a {
  summary = λ other.
      if str_eq session_id other
      then some (new_summary session_id content (length (a.log session_id)))
      else a.summary other;
}

-- a session is summarized where the threshold is reached since its last summary
abbrev pub sum_up : ConversationEnv → String → SummaryClient → Sessions → Sessions
sum_up env session_id llm a =
    let total = length (a.log session_id) in
    if not llm.configured
      || (ltb total env.summary_threshold
          || ltb total (env.summary_threshold + summarized_count (a.summary session_id)))
    then a
    else settle session_id (llm.complete (summary_prompt (latest env 80 (a.log session_id)))) a

abbrev pub spec_operation : ConversationEnv → Operation → Sessions → Sessions
spec_operation env (recorded role r) a = say env role r a
spec_operation env (summarized session_id none) a = a
spec_operation env (summarized session_id (some llm)) a = sum_up env session_id llm a

unfoldable pub spec_operations : ConversationEnv → List Operation → Sessions → Sessions
spec_operations env [] a = a
spec_operations env (o ∷ os) a = spec_operations env os (spec_operation env o a)

find-put_other :
    (s : SessionSummary) (other : String) (rows : List SessionSummary)
    → find_summary other (put_summary s rows)
      ≡ (if str_eq s.session_id other then some s else find_summary other rows)
unfolding find_summary put_summary
find-put_other s other [] = refl
find-put_other s other (r ∷ rs) = ground (
  arith,
  eq_iff r.session_id s.session_id,
  eq_iff r.session_id other,
  eq_iff s.session_id other,
  find-put_other s other rs,
)

view-record_as :
    (env : ConversationEnv) (role : String) (r : NewMessage) (db : ConversationDb)
    → view (record_as env role r db).1 ≡ say env role r (view db)
view-record_as env role r db =
    let supply : (record_as env role r db).1.supply ≡ db.supply + 1 =
      unfold record_as add_message emit_to in refl in
    let summaries : (record_as env role r db).1.summaries ≡ db.summaries =
      unfold record_as add_message emit_to in refl in
    λ i. record {
      log = λ session_id. in_session-record_as env role session_id r db i;
      summary = λ session_id. find_summary session_id (summaries i);
      drawn = supply i;
    }

view-settle_summary :
    (session_id : String) (reply : Result String) (db : ConversationDb)
    → view (settle_summary session_id (length (in_session session_id db.messages)) reply db).1
      ≡ settle session_id reply (view db)
unfolding settle_summary
view-settle_summary session_id (err e) db = refl
view-settle_summary session_id (ok content) db =
    let s = new_summary session_id content (length (in_session session_id db.messages)) in
    λ i. record (view db) { summary = λ other. find-put_other s other db.summaries i }

view-summarize :
    (env : ConversationEnv) (session_id : String) (llm : SummaryClient) (db : ConversationDb)
    → view (summarize env session_id llm db).1 ≡ sum_up env session_id llm (view db)
unfolding summarize too_few list_messages
view-summarize env session_id llm db =
    elim (Bool-cases (not llm.configured || too_few env session_id db)) [
      | inl e ↦ rw e refl
      | inr e ↦ rw e (view-settle_summary session_id _ db)
    ]

view-run_operation :
    (env : ConversationEnv) (o : Operation) (db : ConversationDb)
    → view (run_operation env o db) ≡ spec_operation env o (view db)
unfolding update_summary_if_needed
view-run_operation env (recorded role r) db = view-record_as env role r db
view-run_operation env (summarized session_id none) db = refl
view-run_operation env (summarized session_id (some llm)) db = view-summarize env session_id llm db

-- The tables implement the map of sessions: whatever sequence of messages and summaries is run on them,
-- with whatever answers of the models, they show what the same sequence makes of the map.
pub view-run_operations :
    (env : ConversationEnv) (os : List Operation) (db : ConversationDb)
    → view (run_operations env os db) ≡ spec_operations env os (view db)
unfolding run_operations spec_operations
view-run_operations env [] db = refl
view-run_operations env (o ∷ os) db =
    view-run_operations env os (run_operation env o db)
    ∙ ap (spec_operations env os) (view-run_operation env o db)
