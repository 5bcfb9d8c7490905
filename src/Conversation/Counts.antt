-- ===== src/Conversation/Counts.antt =====
-- The number of messages behind a summary, and the groups of `list_sessions`.
use soul_claw.Base.{
  ℕ, ◌+◌, ◌≤◌, String, not, ◌||◌, ◌≡◌, refl, List, [], ◌∷◌, Option, none, some, arith, length,
  length-append, str_eq, eq_iff, eq_refl, Bool-cases, inl, inr, if◌then◌else◌, All, All-map, Result,
  ok, err,
}
use soul_claw.Conversation.Service.{
  SessionSummary, ConversationDb, ConversationEnv, NewMessage, in_session, find_summary,
  new_message, add_message, record_as, emit_to,
}
use soul_claw.Conversation.Summary.{
  SummaryClient, put_summary, new_summary, settle_summary, too_few, summarize,
  update_summary_if_needed,
}
use soul_claw.Conversation.Context.{in_session-record_as}

-- No summary counts more messages than its session has.
abbrev pub IsCounted : ConversationDb → Type 0
IsCounted db =
    All (λ s. s.summarized_message_count ≤ length (in_session s.session_id db.messages))
      db.summaries

-- messages recorded one after the other
unfoldable pub record_each :
    ConversationEnv → List (String × NewMessage) → ConversationDb → ConversationDb
record_each env [] db = db
record_each env ((role, r) ∷ rs) db = record_each env rs (record_as env role r db).1

-- how many of them are of this session
abbrev pub of_session : String → List (String × NewMessage) → ℕ
of_session session_id [] = 0
of_session session_id ((role, r) ∷ rs) =
    (if str_eq r.session_id session_id then 1 else 0) + of_session session_id rs

total-record_as :
    (env : ConversationEnv) (role session_id : String) (r : NewMessage) (db : ConversationDb)
    → length (in_session session_id (record_as env role r db).1.messages)
      ≡ (if str_eq r.session_id session_id then 1 else 0)
        + length (in_session session_id db.messages)
total-record_as env role session_id r db =
    let before = in_session session_id db.messages in
    let m = new_message env role r db.supply in
    rw (in_session-record_as env role session_id r db)
      (ground (arith, length-append before (m ∷ [])))

pub total-record_each :
    (env : ConversationEnv) (session_id : String) (rs : List (String × NewMessage))
    (db : ConversationDb)
    → length (in_session session_id (record_each env rs db).messages)
      ≡ of_session session_id rs + length (in_session session_id db.messages)
unfolding record_each
total-record_each env session_id [] db = omega arith
total-record_each env session_id ((role, r) ∷ rs) db = omega (
  arith,
  total-record_each env session_id rs (record_as env role r db).1,
  total-record_as env role session_id r db,
)

pub summaries-record_each :
    (env : ConversationEnv) (rs : List (String × NewMessage)) (db : ConversationDb)
    → (record_each env rs db).summaries ≡ db.summaries
unfolding record_each record_as add_message emit_to
summaries-record_each env [] db = refl
summaries-record_each env ((role, r) ∷ rs) db =
    summaries-record_each env rs (record_as env role r db).1

pub find-put_summary :
    (s : SessionSummary) (rows : List SessionSummary)
    → find_summary s.session_id (put_summary s rows) ≡ some s
unfolding find_summary put_summary
find-put_summary s [] = ground (arith, eq_refl s.session_id)
find-put_summary s (r ∷ rs) =
    ground (arith, eq_refl s.session_id, eq_iff r.session_id s.session_id, find-put_summary s rs)

put_summary-All :
    (P : SessionSummary → Type 0) (s : SessionSummary) (rows : List SessionSummary)
    → P s
    → All P rows
    → All P (put_summary s rows)
unfolding put_summary
put_summary-All P s [] new old = (new, tt)
put_summary-All P s (r ∷ rs) new old = elim (Bool-cases (str_eq r.session_id s.session_id)) [
  | inl e ↦ rw e (new, old.1)
  | inr e ↦ rw e (old.0, put_summary-All P s rs new old.1)
]

record_as-IsCounted :
    (env : ConversationEnv) (role : String) (r : NewMessage) (db : ConversationDb)
    → IsCounted db
    → IsCounted (record_as env role r db).1
record_as-IsCounted env role r db h =
    let same : (record_as env role r db).1.summaries ≡ db.summaries =
      unfold record_as add_message emit_to in refl in
    rw same (
      All-map
        (λ (s : SessionSummary).
          s.summarized_message_count ≤ length (in_session s.session_id db.messages))
        db.summaries (λ s le. omega (arith, le, total-record_as env role s.session_id r db)) h)

settle_summary-IsCounted :
    (session_id : String) (reply : Result String) (db : ConversationDb)
    → IsCounted db
    → IsCounted (settle_summary session_id (length (in_session session_id db.messages)) reply db).1
unfolding settle_summary
settle_summary-IsCounted session_id (err e) db h = h
settle_summary-IsCounted session_id (ok content) db h =
    put_summary-All (λ s. s.summarized_message_count ≤ length (in_session s.session_id db.messages))
      (new_summary session_id content (length (in_session session_id db.messages))) db.summaries
      (omega arith) h

-- The operations on the tables
pub data Operation : Type 0 where
  recorded : String → NewMessage → Operation
  summarized : String → Option SummaryClient → Operation

abbrev pub run_operation : ConversationEnv → Operation → ConversationDb → ConversationDb
run_operation env (recorded role r) db = (record_as env role r db).1
run_operation env (summarized session_id llm) db =
    (update_summary_if_needed env session_id llm db).1

unfoldable pub run_operations : ConversationEnv → List Operation → ConversationDb → ConversationDb
run_operations env [] db = db
run_operations env (o ∷ os) db = run_operations env os (run_operation env o db)

summarize-IsCounted :
    (env : ConversationEnv) (session_id : String) (llm : SummaryClient) (db : ConversationDb)
    → IsCounted db
    → IsCounted (summarize env session_id llm db).1
unfolding summarize
summarize-IsCounted env session_id llm db h =
    elim (Bool-cases (not llm.configured || too_few env session_id db)) [
      | inl e ↦ rw e h
      | inr e ↦ rw e (settle_summary-IsCounted session_id _ db h)
    ]

run_operation-IsCounted :
    (env : ConversationEnv) (o : Operation) (db : ConversationDb)
    → IsCounted db
    → IsCounted (run_operation env o db)
unfolding update_summary_if_needed
run_operation-IsCounted env (recorded role r) db h = record_as-IsCounted env role r db h
run_operation-IsCounted env (summarized session_id none) db h = h
run_operation-IsCounted env (summarized session_id (some llm)) db h =
    summarize-IsCounted env session_id llm db h

-- No sequence of messages and summaries leaves a summary that counts more messages than its session
-- has, whatever the completions answer, if none did before.
pub run_operations-IsCounted :
    (env : ConversationEnv) (os : List Operation) (db : ConversationDb)
    → IsCounted db
    → IsCounted (run_operations env os db)
unfolding run_operations
run_operations-IsCounted env [] db h = h
run_operations-IsCounted env (o ∷ os) db h =
    run_operations-IsCounted env os (run_operation env o db) (run_operation-IsCounted env o db h)
