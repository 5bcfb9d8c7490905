-- ===== src/A2a/Tasks.antt =====
-- The tasks of `A2AService` with their events and artifacts, of backend/domain/a2a.py.
use soul_claw.Base.{
  ℕ, ◌+◌, String, Bool, not, ◌&&◌, ◌||◌, List, [], ◌∷◌, ◌++◌, Option, none, some, Exec, ok, string,
  obj, Fields, end, field, info, warning, f_string, str_eq, is_empty, or_else, if◌then◌else◌, ltb,
  leb, keep, take, reverse, sort_by, find_first, max, min, strip, pure, ◌>>=◌, ◌>>◌, is_some,
}
use soul_claw.A2a.State.{Task, Event, Artifact, A2aDb, A2aEnv, emit_to, audit_to, put_task}
use soul_claw.A2a.Connections.{or_list}

-- the events of a task, in the order of their insertion
unfoldable pub events_of : String → List Event → List Event
events_of task_id = keep (λ e. str_eq e.task_id task_id)

-- the highest sequence, 0 for none
unfoldable pub last_sequence : List Event → ℕ
last_sequence [] = 0
last_sequence (e ∷ es) = max e.sequence (last_sequence es)

-- `add_event`
unfoldable pub add_event : String → String → Fields → Exec A2aDb (Unit {0})
unfolding events_of last_sequence
add_event task_id event_type payload db = (
  ok tt,
  record db {
    events =
        db.events
        ++ (record {
          task_id = task_id;
          event_type = event_type;
          sequence = last_sequence (events_of task_id db.events) + 1;
          payload = payload;
        }
            ∷ []);
  },
)

-- `list_events`
unfoldable pub list_events : String → ℕ → ℕ → A2aDb → List Event
unfolding events_of sort_by
list_events task_id after_sequence limit db = take (max 1 (min limit 1000)) (
    sort_by (λ e f. leb e.sequence f.sequence)
      (keep (λ e. ltb after_sequence e.sequence) (events_of task_id db.events)))

-- What `create_task` is called with; no id is the empty text.
pub record TaskRequest : Type 0 where
  pub connection_name : String
  pub capability : String
  pub input_text : String
  pub context_id : String
  pub metadata : Fields
  pub task_id : String

abbrev pub drawn : A2aEnv → String → ℕ → String
drawn env prefix n = f_string (prefix ∷ env.uuid4_hex n ∷ [])

-- the row that `create_task` adds; each id that is missing is drawn
abbrev pub new_task : A2aEnv → TaskRequest → ℕ → Task
new_task env r supply = record {
  task_id = or_else r.task_id (drawn env "a2a_task_" supply);
  connection_name = r.connection_name;
  capability = r.capability;
  context_id = or_else r.context_id (drawn env "a2a_ctx_" (supply + 1));
  remote_task_id = "";
  remote_context_id = "";
  status = "submitted";
  input_text = r.input_text;
  result = end;
  error = "";
  metadata = r.metadata;
  started_at = none;
  finished_at = none;
}

unfoldable pub add_task : A2aEnv → TaskRequest → Exec A2aDb Task
add_task env r db = (
  ok (new_task env r db.supply),
  record db { tasks = db.tasks ++ (new_task env r db.supply ∷ []); supply = db.supply + 2 },
)

-- `create_task`
unfoldable pub create_task : A2aEnv → TaskRequest → Exec A2aDb Task
unfolding add_task add_event emit_to audit_to pure
create_task env r = do
  task ← add_task env r
  let about =
      field "connection" (string r.connection_name) (field "capability" (string r.capability) end)
  add_event task.task_id "task.submitted" about
  emit_to "a2a.task.submitted" info (field "task_id" (string task.task_id) about)
  audit_to "a2a.task.create" "a2a_task" task.task_id about
  pure task

abbrev pub is_start : String → Bool
is_start s = str_eq s "working" || str_eq s "input-required"

abbrev pub is_final : String → Bool
is_final s =
    str_eq s "completed" || (str_eq s "failed" || (str_eq s "canceled" || str_eq s "rejected"))

-- What `mark_task` is called with
pub record Mark : Type 0 where
  pub status : String
  pub result : Option Fields
  pub error : String
  pub remote_task_id : String
  pub remote_context_id : String

abbrev pub result_or : Fields → Option Fields → Fields
result_or default none = default
result_or default (some d) = d

-- the columns that `mark_task` leaves
unfoldable pub marked : A2aEnv → Task → Mark → Task
marked env task k = record task {
  status = k.status;
  remote_task_id = or_else k.remote_task_id task.remote_task_id;
  remote_context_id = or_else k.remote_context_id task.remote_context_id;
  result = result_or task.result k.result;
  error = k.error;
  started_at =
      if str_eq task.status "submitted" && (is_start k.status && not (is_some task.started_at))
      then some env.now
      else task.started_at;
  finished_at = if is_final k.status then some env.now else task.finished_at;
}

unfoldable pub save_task : Task → Exec A2aDb (Unit {0})
save_task task db = (ok tt, record db { tasks = put_task task db.tasks })

-- `mark_task`, of a row that the session holds
unfoldable pub mark_task : A2aEnv → Task → Mark → Exec A2aDb Task
unfolding marked save_task add_event emit_to pure
mark_task env task k = do
  save_task (marked env task k)
  add_event task.task_id (f_string ("task." ∷ k.status ∷ [])) (
      field "previous_status" (string task.status)
        (field "error" (string k.error) (field "result" (obj (result_or end k.result)) end)))
  emit_to "a2a.task.status"
      (if str_eq k.status "failed" || str_eq k.status "rejected" then warning else info)
      (field "task_id" (string task.task_id)
        (field "status" (string k.status) (field "previous_status" (string task.status) end)))
  pure (marked env task k)

-- `get_task_by_any_id`
unfoldable pub get_task_by_any_id : String → A2aDb → Option Task
unfolding strip
get_task_by_any_id raw db =
    let id = strip raw in
    if is_empty id
    then none
    else find_first
        (λ t. str_eq t.task_id id || (str_eq t.remote_task_id id || str_eq t.remote_context_id id))
        db.tasks

-- `list_tasks`
unfoldable pub list_tasks : String → String → ℕ → A2aDb → List Task
list_tasks status connection_name limit db = take (max 1 (min limit 500)) (
    reverse (
      keep
        (λ t.
          (is_empty status || str_eq t.status status)
          && (is_empty connection_name || str_eq t.connection_name connection_name))
        db.tasks))

-- What `add_artifact` is called with
pub record ArtifactRequest : Type 0 where
  pub artifact_id : String
  pub name : String
  pub mime_type : String
  pub content : String
  pub uri : String
  pub parts : List Fields
  pub metadata : Fields

abbrev pub text_part : String → String → List Fields
text_part content mime_type =
    if is_empty content
    then []
    else field "text" (string content)
        (field "mediaType" (string (or_else mime_type "text/plain")) end)
      ∷ []

abbrev pub new_artifact : A2aEnv → String → ArtifactRequest → ℕ → Artifact
new_artifact env task_id r supply = record {
  task_id = task_id;
  artifact_id = or_else r.artifact_id (drawn env "artifact_" supply);
  name = r.name;
  mime_type = r.mime_type;
  content = r.content;
  uri = r.uri;
  parts = or_list r.parts (text_part r.content r.mime_type);
  metadata = r.metadata;
}

unfoldable pub insert_artifact : A2aEnv → String → ArtifactRequest → Exec A2aDb Artifact
insert_artifact env task_id r db = (
  ok (new_artifact env task_id r db.supply),
  record db {
    artifacts = db.artifacts ++ (new_artifact env task_id r db.supply ∷ []);
    supply = db.supply + 1;
  },
)

-- `add_artifact`
unfoldable pub add_artifact : A2aEnv → String → ArtifactRequest → Exec A2aDb Artifact
unfolding insert_artifact add_event pure
add_artifact env task_id r = do
  artifact ← insert_artifact env task_id r
  add_event task_id "artifact.updated" (
      field "artifact_id" (string artifact.artifact_id)
        (field "name" (string artifact.name) (field "mime_type" (string artifact.mime_type) end)))
  pure artifact

-- `list_artifacts`
unfoldable pub list_artifacts : String → A2aDb → List Artifact
list_artifacts task_id db = keep (λ a. str_eq a.task_id task_id) db.artifacts
