-- ===== src/Conversation/Waits.antt =====
-- When a session is summarized again, and what a failed completion leaves.
use soul_claw.Base.{
  ℕ, ◌+◌, ◌<◌, String, true, not, ◌||◌, ◌≡◌, refl, sym, ap, ◌∙◌, List, Option, none, some, arith,
  length, Bool-cases, inl, inr, Result, ok, err, PyError, Sink,
}
use soul_claw.Conversation.Service.{
  SessionSummary, ConversationDb, ConversationEnv, NewMessage, in_session, find_summary,
  list_messages,
}
use soul_claw.Conversation.Summary.{
  SummaryClient, summarized_count, new_summary, settle_summary, too_few, summarize,
  update_summary_if_needed, summary_prompt,
}
use soul_claw.Conversation.Counts.{
  record_each, of_session, total-record_each, summaries-record_each, find-put_summary,
}

-- what a successful update leaves
settle_summary-Counts :
    (session_id : String) (total : ℕ) (reply : Result String) (s : SessionSummary)
    (db : ConversationDb)
    → (settle_summary session_id total reply db).0 ≡ some s
    → ((settle_summary session_id total reply db).1.messages ≡ db.messages)
      × (summarized_count
            (find_summary session_id (settle_summary session_id total reply db).1.summaries)
          ≡ total)
unfolding settle_summary
settle_summary-Counts session_id total (err e) s db made = ground arith
settle_summary-Counts session_id total (ok content) s db made =
    (refl, rw (find-put_summary (new_summary session_id content total) db.summaries) refl)

summarize-Counts :
    (env : ConversationEnv) (session_id : String) (llm : SummaryClient) (s : SessionSummary)
    (db : ConversationDb)
    → (summarize env session_id llm db).0 ≡ some s
    → let after = (summarize env session_id llm db).1 in
      summarized_count (find_summary session_id after.summaries)
      ≡ length (in_session session_id after.messages)
unfolding summarize
summarize-Counts env session_id llm s db made =
    elim (Bool-cases (not llm.configured || too_few env session_id db)) [
      | inl e ↦
          let none_made : ◌≡◌ {A = Option SessionSummary} none (some s) = rw e at made in
          ground arith
      | inr e ↦
          let total = length (in_session session_id db.messages) in
          let reply = llm.complete (summary_prompt (list_messages env session_id 80 db)) in
          let (same, counts) = settle_summary-Counts session_id total reply s db (rw e at made) in
          rw e (counts ∙ ap (λ ms. length (in_session session_id ms)) (sym same))
    ]

too_few-true :
    (env : ConversationEnv) (session_id : String) (db : ConversationDb)
    → length (in_session session_id db.messages)
      < env.summary_threshold + summarized_count (find_summary session_id db.summaries)
    → too_few env session_id db ≡ true
unfolding too_few
too_few-true env session_id db h = ground (arith, h)

summarize_few :
    (env : ConversationEnv) (session_id : String) (llm : SummaryClient) (db : ConversationDb)
    → too_few env session_id db ≡ true
    → summarize env session_id llm db ≡ (none, db)
unfolding summarize
summarize_few env session_id llm db h = rw h (ground arith)

-- After a session was summarized, messages of any sessions follow, of them fewer than the threshold in
-- this session: then the next update asks no model and changes nothing.
pub update_waits :
    (env : ConversationEnv) (session_id : String) (llm again : SummaryClient) (s : SessionSummary)
    (rs : List (String × NewMessage)) (db : ConversationDb)
    → (update_summary_if_needed env session_id (some llm) db).0 ≡ some s
    → of_session session_id rs < env.summary_threshold
    → let later = record_each env rs (update_summary_if_needed env session_id (some llm) db).1 in
      update_summary_if_needed env session_id (some again) later ≡ (none, later)
unfolding update_summary_if_needed
update_waits env session_id llm again s rs db made few =
    let after = (summarize env session_id llm db).1 in
    let later = record_each env rs after in
    let counts = summarize-Counts env session_id llm s db made in
    summarize_few env session_id again later (
      too_few-true env session_id later (
        rw (summaries-record_each env rs after)
          (omega (arith, few, counts, total-record_each env session_id rs after))))

settle_summary_result :
    (session_id : String) (total : ℕ) (reply : Result String) (db : ConversationDb) (sink : Sink)
    → (settle_summary session_id total reply (record db { sink = sink })).0
      ≡ (settle_summary session_id total reply db).0
unfolding settle_summary
settle_summary_result session_id total (err e) db sink = refl
settle_summary_result session_id total (ok content) db sink = refl

-- the events have no part in the decision
summarize_result :
    (env : ConversationEnv) (session_id : String) (llm : SummaryClient) (db : ConversationDb)
    (sink : Sink)
    → (summarize env session_id llm (record db { sink = sink })).0
      ≡ (summarize env session_id llm db).0
unfolding summarize too_few list_messages
summarize_result env session_id llm db sink =
    elim (Bool-cases (not llm.configured || too_few env session_id db)) [
      | inl e ↦ rw e refl
      | inr e ↦ rw e (settle_summary_result session_id _ _ db sink)
    ]

-- A completion that raises changes no table: the session keeps its messages and its old summary, and
-- the next update with a model that answers makes the summary that this one would have made.
pub failed_update_retries :
    (env : ConversationEnv) (session_id : String) (llm again : SummaryClient) (e : PyError)
    (db : ConversationDb)
    → llm.complete (summary_prompt (list_messages env session_id 80 db)) ≡ err e
    → let failed = update_summary_if_needed env session_id (some llm) db in
      (failed.0 ≡ none)
      × (failed.1.messages ≡ db.messages)
      × (failed.1.summaries ≡ db.summaries)
      × ((update_summary_if_needed env session_id (some again) failed.1).0
          ≡ (update_summary_if_needed env session_id (some again) db).0)
unfolding update_summary_if_needed summarize settle_summary
failed_update_retries env session_id llm again e db raised =
    elim (Bool-cases (not llm.configured || too_few env session_id db)) [
      | inl gate ↦ rw gate (refl, refl, refl, refl)
      | inr gate ↦ rw (gate, raised) (refl, refl, refl, summarize_result env session_id again db _)
    ]
