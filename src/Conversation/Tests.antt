-- ===== src/Conversation/Tests.antt =====
-- The theorems on conversations at a session of three messages.
use soul_claw.Base.{
  List, ◌+◌, ◌-◌, ◌++◌, ◌≤◌, str_eq, String, true, false, ◌≡◌, refl, [], ◌∷◌, none, some, length,
  All, arith, ok, err, runtime_error, end, field, num, strip,
}
use soul_claw.Conversation.Service.{
  SessionSummary, ConversationDb, ConversationEnv, NewMessage, in_session, recent_context,
  record_as, new_message, list_sessions, latest,
}
use soul_claw.Conversation.Summary.{SummaryClient, update_summary_if_needed}
use soul_claw.Conversation.Context.{context_size, record_as-recent_context}
use soul_claw.Conversation.Counts.{
  IsCounted, Operation, recorded, summarized, run_operations, run_operations-IsCounted, record_each,
}
use soul_claw.Conversation.Waits.{update_waits, failed_update_retries}
use soul_claw.Conversation.Refine.{view, spec_operations, view-run_operations}
use soul_claw.Conversation.Groups.{list_sessions_lem}

abbrev env : ConversationEnv
env = record {
  summary_threshold = 2;
  recent_limit = 2;
  now = 7;
  uuid4 = λ n. "id";
  ahead = λ m n. true;
}

abbrev said : String → String → NewMessage
said session_id content = record {
  session_id = session_id;
  turn_id = "t";
  content = content;
  metadata = end;
}

abbrev empty : ConversationDb
empty = record {
  messages = [];
  summaries = [];
  sink = record { attached = true; runtime = []; audits = [] };
  supply = 0;
}

abbrev three : ConversationDb
three = record empty {
  messages =
      new_message env "user" (said "a" "one") 0
      ∷ (new_message env "user" (said "b" "two") 1
          ∷ (new_message env "assistant" (said "a" "three") 2 ∷ []));
}

abbrev answering : SummaryClient
answering = record { configured = true; complete = λ prompt. ok " short \n" }

abbrev failing : SummaryClient
failing = record { configured = true; complete = λ prompt. err (runtime_error "down") }

abbrev at_noon : ConversationEnv
at_noon = record env { now = 12 }

record_as-recent_context_example :
    let r = said "a" "four" in
    let before = in_session "a" three.messages in
    let after = (record_as at_noon "tool" r three).1 in
    (recent_context at_noon "a" none after ≡ (record {
      summary = "";
      messages =
          latest at_noon (context_size at_noon none - 1) before
          ++ (new_message at_noon "tool" r 0 ∷ []);
      total_messages = length before + 1;
    }))
    × ((session_id : String)
        → str_eq "a" session_id ≡ false
        → recent_context at_noon session_id none after
          ≡ recent_context at_noon session_id none three)
unfolding recent_context
record_as-recent_context_example =
    record_as-recent_context at_noon "tool" (said "a" "four") none three (ground arith)

run_operations-IsCounted_example : IsCounted (
    run_operations env
      (recorded "user" (said "a" "x")
        ∷ (recorded "user" (said "a" "y") ∷ (summarized "a" (some answering) ∷ [])))
      empty)
run_operations-IsCounted_example =
    run_operations-IsCounted env
      (recorded "user" (said "a" "x")
        ∷ (recorded "user" (said "a" "y") ∷ (summarized "a" (some answering) ∷ [])))
      empty tt

abbrev short : SessionSummary
short = record {
  session_id = "a";
  summary = "short";
  summarized_message_count = 2;
  metadata = field "message_count" (num 2) end;
}

update_waits_example :
    let later =
      record_each env
        (("user", said "a" "four") ∷ (("user", said "b" "five") ∷ []))
        (update_summary_if_needed env "a" (some answering) three).1 in
    update_summary_if_needed env "a" (some answering) later ≡ (none, later)
unfolding update_summary_if_needed strip
update_waits_example =
    update_waits env "a" answering answering short
      (("user", said "a" "four") ∷ (("user", said "b" "five") ∷ [])) three refl (omega arith)

failed_update_retries_example :
    let failed = update_summary_if_needed env "a" (some failing) three in
    (failed.0 ≡ none)
    × (failed.1.messages ≡ three.messages)
    × (failed.1.summaries ≡ three.summaries)
    × ((update_summary_if_needed env "a" (some answering) failed.1).0
        ≡ (update_summary_if_needed env "a" (some answering) three).0)
failed_update_retries_example =
    failed_update_retries env "a" failing answering (runtime_error "down") three refl

list_sessions_lem_example :
    All
      (λ r. r.message_count ≡ length (in_session r.session_id three.messages))
      (list_sessions 10 three)
    × (length (list_sessions 10 three) ≤ 500)
list_sessions_lem_example = list_sessions_lem 10 three

abbrev operations : List Operation
operations =
    recorded "user" (said "a" "x")
    ∷ recorded "user" (said "a" "y")
    ∷ summarized "a" (some answering)
    ∷ summarized "b" (some failing)
    ∷ []

view-run_operations_example :
    view (run_operations env operations empty) ≡ spec_operations env operations (view empty)
view-run_operations_example = view-run_operations env operations empty
