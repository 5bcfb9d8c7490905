-- ===== src/A2a/Tests.antt =====
-- The theorems on A2A connections and tasks at concrete rows.
use soul_claw.Base.{
  ℕ, String, true, false, err, ◌≡◌, refl, [], ◌∷◌, none, some, ok, end, take, drop, str_eq, strip,
  Bool-cases, inl, inr,
}
use soul_claw.A2a.State.{Connection, Task, Event, A2aDb, A2aEnv, find_connection}
use soul_claw.A2a.Connections.{ConnectionRequest, upsert_connection}
use soul_claw.A2a.Tasks.{TaskRequest, list_events, events_of}
use soul_claw.A2a.Stream.{
  IsNumbered, created, artifact_added, run_operations, run_operations-IsNumbered, list_events_lem,
}
use soul_claw.A2a.Names.{Updated, is_valid, refusal, upsert_connection_lem}

abbrev env : A2aEnv
env = record { now = 3; uuid4_hex = λ n. "0"; lower = λ s. s }

abbrev empty : A2aDb
empty = record {
  connections = [];
  tasks = [];
  events = [];
  artifacts = [];
  sink = record { attached = false; runtime = []; audits = [] };
  supply = 0;
}

abbrev peer : ConnectionRequest
peer = record {
  name = " peer ";
  kind = "a2a";
  endpoint = "http://peer/";
  rpc_url = "";
  agent_card = end;
  config = end;
  enabled = true;
  status = "";
  capabilities = [];
  skills = [];
}

abbrev request : TaskRequest
request = record {
  connection_name = "peer";
  capability = "chat";
  input_text = "hello";
  context_id = "c";
  metadata = end;
  task_id = "t";
}

abbrev event : ℕ → Event
event n = record { task_id = "t"; event_type = "task.working"; sequence = n; payload = end }

abbrev three : A2aDb
three = record empty { events = event 1 ∷ event 2 ∷ event 3 ∷ [] }

three-IsNumbered : IsNumbered three
unfolding events_of
three-IsNumbered task_id = elim (Bool-cases (str_eq "t" task_id)) [
  | inl e ↦ rw e (refl, (refl, (refl, tt)))
  | inr e ↦ rw e tt
]

list_events_lem_example : list_events "t" 1 1 three ≡ take 1 (drop 1 (events_of "t" three.events))
list_events_lem_example = list_events_lem "t" 1 1 three three-IsNumbered

run_operations-IsNumbered_example : IsNumbered (
    run_operations env
      (created request
        ∷ artifact_added "t" (record {
          artifact_id = "";
          name = "a";
          mime_type = "";
          content = "x";
          uri = "";
          parts = [];
          metadata = end;
        })
        ∷ [])
      three)
run_operations-IsNumbered_example =
    run_operations-IsNumbered env
      (created request
        ∷ artifact_added "t" (record {
          artifact_id = "";
          name = "a";
          mime_type = "";
          content = "x";
          uri = "";
          parts = [];
          metadata = end;
        })
        ∷ [])
      three three-IsNumbered

upsert_connection_lem_example :
    let (answer, after) = upsert_connection env peer empty in
    (is_valid peer ≡ false → (answer ≡ err (refusal peer)) × (after.connections ≡ []))
    × (is_valid peer ≡ true
        → (c : Connection) × (answer ≡ ok c)
          × (find_connection "peer" after.connections ≡ some c)
          × Updated env peer none c
          × ((k : String) → str_eq "peer" k ≡ false → find_connection k after.connections ≡ none))
unfolding find_connection strip
upsert_connection_lem_example = upsert_connection_lem env peer empty

abbrev task : Task
task = record {
  task_id = "t";
  connection_name = "peer";
  capability = "chat";
  context_id = "c";
  remote_task_id = "";
  remote_context_id = "";
  status = "submitted";
  input_text = "hello";
  result = end;
  error = "";
  metadata = end;
  started_at = none;
  finished_at = none;
}
