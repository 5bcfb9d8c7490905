-- ===== src/Jobs/Service.antt =====
-- `BackgroundJobService` of backend/domain/jobs.py: creating a job and moving it through its states.
use soul_claw.Base.{
  ℕ, ◌+◌, ◌*◌, String, Bool, true, false, ◌&&◌, ◌||◌, List, [], ◌∷◌, ◌++◌, Option, none, some, Exec,
  ok, value_error, Json, num, string, obj, end, field, info, warning, error, f_string, str_eq,
  is_empty, find_first, keep, take, sort_by, reverse, if◌then◌else◌, ltb, leb, ◌==◌, min, max, pure,
  raise, ◌>>=◌, ◌>>◌,
}
use soul_claw.Jobs.State.{
  JobStatus, queued, retrying, running, succeeded, failed, dead_letter, cancelled, status_text, Job,
  Db, Env, second, fresh_id, is_terminal, is_running, is_retrying, retry_delay_seconds, emit_to,
  audit_to, save, get_row,
}
use soul_claw.Jobs.Idempotency.{complete_idempotency, job_to_response}

abbrev pub find_by_key : String → List Job → Option Job
find_by_key key = find_first (λ j. str_eq j.idempotency_key key)

-- What `create` and `enqueue_background_job` are called with; no payload is the empty dictionary.
pub record JobRequest : Type 0 where
  pub task_name : String
  pub payload : Json
  pub triggered_by : String
  pub cron_job_id : Option String
  pub idempotency_key : String
  pub max_attempts : ℕ

-- The row that `create` adds: `max(1, int(max_attempts or 3))`.
unfoldable pub new_job : Env → String → JobRequest → Job
new_job env id r = record {
  id = id;
  trace_id = env.trace_id;
  request_id = env.request_id;
  task_name = r.task_name;
  queue_id = "";
  status = queued;
  idempotency_key = r.idempotency_key;
  payload = r.payload;
  result = obj end;
  error = "";
  triggered_by = r.triggered_by;
  cron_job_id = r.cron_job_id;
  attempt_count = 0;
  max_attempts = max 1 (if r.max_attempts == 0 then 3 else r.max_attempts);
  next_retry_at = none;
  locked_at = none;
  lock_owner = "";
  dead_letter_reason = "";
  started_at = none;
  finished_at = none;
}

unfoldable pub add_job : Job → Exec Db (Unit {0})
add_job job db = (ok tt, record db { jobs = db.jobs ++ (job ∷ []) })

unfoldable pub insert_job : Env → JobRequest → Exec Db Job
unfolding fresh_id new_job add_job emit_to audit_to pure
insert_job env r = do
  id ← fresh_id env
  let job = new_job env id r
  add_job job
  emit_to "job.created" info (
      field "job_id" (string id)
        (field "task_name" (string r.task_name) (field "triggered_by" (string r.triggered_by) end)))
  audit_to "job.create" "background_job" id (
      field "task_name" (string r.task_name) (
        field "triggered_by" (string r.triggered_by)
          (field "idempotency_key" (string r.idempotency_key) end)))
  pure job

unfoldable pub replay_or_insert : Env → JobRequest → Option Job → Exec Db Job
unfolding insert_job
replay_or_insert env r none = insert_job env r
replay_or_insert env r (some existing) = do
  emit_to "job.idempotent_replay" info (
      field "job_id" (string existing.id) (
        field "task_name" (string existing.task_name)
          (field "idempotency_key" (string r.idempotency_key) end)))
  pure existing

-- `create`
unfoldable pub create : Env → JobRequest → Exec Db Job
unfolding replay_or_insert
create env r db =
    if is_empty r.idempotency_key
    then insert_job env r db
    else replay_or_insert env r (find_by_key r.idempotency_key db.jobs) db

-- `mark_enqueued`
unfoldable pub mark_enqueued : String → String → Exec Db Job
unfolding get_row save emit_to pure
mark_enqueued id queue_id = do
  row ← get_row id
  let job = record row { queue_id = queue_id; status = queued }
  save job
  emit_to "job.enqueued" info
      (field "job_id" (string job.id) (field "queue_id" (string queue_id) end))
  pure job

-- The columns that `mark_started` writes.
unfoldable pub started : ℕ → String → Job → Job
started now lock_owner j = record j {
  status = running;
  attempt_count = j.attempt_count + 1;
  started_at = some now;
  finished_at = none;
  error = "";
  locked_at = some now;
  lock_owner = lock_owner;
}

unfoldable pub start_row : Env → String → Job → Exec Db Job
unfolding started save emit_to pure
start_row env lock_owner row = if is_terminal row.status then pure row else (do
  let job = started env.now lock_owner row
  save job
  emit_to "job.started" info (
      field "job_id" (string job.id)
        (field "task_name" (string job.task_name) (field "attempt" (num job.attempt_count) end)))
  pure job)

-- `mark_started`
unfoldable pub mark_started : Env → String → String → Exec Db Job
unfolding get_row start_row
mark_started env id lock_owner = do row ← get_row id; start_row env lock_owner row

unfoldable pub complete_if_keyed : Job → String → Exec Db (Unit {0})
unfolding complete_idempotency pure
complete_if_keyed job status =
    if is_empty job.idempotency_key
    then pure tt
    else complete_idempotency "background_job" job.idempotency_key (job_to_response job) status

-- The columns that `mark_succeeded` writes.
unfoldable pub succeeded_with : ℕ → Json → Job → Job
succeeded_with now result row = record row {
  status = succeeded;
  result = result;
  finished_at = some now;
  next_retry_at = none;
  dead_letter_reason = "";
  locked_at = none;
  lock_owner = "";
}

-- `mark_succeeded`
unfoldable pub mark_succeeded : Env → String → Json → Exec Db Job
unfolding get_row succeeded_with save complete_if_keyed emit_to pure
mark_succeeded env id result = do
  row ← get_row id
  let job = succeeded_with env.now result row
  save job
  complete_if_keyed job "succeeded"
  emit_to "job.succeeded" info
      (field "job_id" (string job.id) (field "task_name" (string job.task_name) end))
  pure job

-- `mark_failed`
unfoldable pub mark_failed : Env → String → String → Exec Db Job
unfolding get_row save emit_to pure
mark_failed env id message = do
  row ← get_row id
  let job = record row {
    status = failed;
    error = message;
    finished_at = some env.now;
    locked_at = none;
    lock_owner = "";
  }
  save job
  emit_to "job.failed" warning (
      field "job_id" (string job.id)
        (field "task_name" (string job.task_name) (field "error" (string message) end)))
  pure job

abbrev pub delay_or_default : Option ℕ → ℕ → ℕ
delay_or_default (some d) attempts = d
delay_or_default none attempts = retry_delay_seconds attempts

-- The columns that `mark_retrying` writes.
unfoldable pub retried : ℕ → String → ℕ → Job → Job
retried now message delay row = record row {
  status = retrying;
  error = message;
  next_retry_at = some (now + delay * second);
  locked_at = none;
  lock_owner = "";
}

-- `mark_retrying`
unfoldable pub mark_retrying : Env → String → String → Option ℕ → Exec Db Job
unfolding get_row retried save emit_to pure
mark_retrying env id message delay_seconds = do
  row ← get_row id
  let delay = delay_or_default delay_seconds row.attempt_count
  let job = retried env.now message delay row
  save job
  emit_to "job.retry_scheduled" warning (
      field "job_id" (string job.id) (
        field "task_name" (string job.task_name)
          (field "attempt" (num job.attempt_count) (field "delay_seconds" (num delay) end))))
  pure job

-- The columns that `mark_dead_letter` writes.
unfoldable pub buried : ℕ → String → Job → Job
buried now message row = record row {
  status = dead_letter;
  error = message;
  dead_letter_reason = message;
  finished_at = some now;
  next_retry_at = none;
  locked_at = none;
  lock_owner = "";
}

-- `mark_dead_letter`
unfoldable pub mark_dead_letter : Env → String → String → Exec Db Job
unfolding get_row buried save complete_if_keyed emit_to pure
mark_dead_letter env id message = do
  row ← get_row id
  let job = buried env.now message row
  save job
  complete_if_keyed job "failed"
  emit_to "job.dead_letter" error (
      field "job_id" (string job.id)
        (field "task_name" (string job.task_name) (field "error" (string message) end)))
  pure job

abbrev pub is_after : Option ℕ → ℕ → Bool
is_after none now = false
is_after (some t) now = ltb now t

-- `should_run`
unfoldable pub should_run : Job → ℕ → Bool
should_run job now =
    if is_terminal job.status || is_running job.status
    then false
    else if is_after job.next_retry_at now
    then false
    else true

unfoldable pub is_cancellable : JobStatus → Bool
is_cancellable queued = true
is_cancellable retrying = true
is_cancellable running = true
is_cancellable _ = false

-- `cancel`. The revocation of the queued message is Celery's, and changes no state of the program.
unfoldable pub cancel_row : Env → Job → Exec Db Job
unfolding save emit_to audit_to pure raise
cancel_row env row =
    if is_cancellable row.status
    then (do
      let job = record row {
        status = cancelled;
        finished_at = some env.now;
        locked_at = none;
        lock_owner = "";
      }
      save job
      emit_to "job.cancelled" info
          (field "job_id" (string job.id) (field "task_name" (string job.task_name) end))
      audit_to "job.cancel" "background_job" job.id end
      pure job)
    else raise (value_error (f_string ("job is not cancellable: " ∷ status_text row.status ∷ [])))

unfoldable pub cancel : Env → String → Exec Db Job
unfolding get_row cancel_row
cancel env id = do row ← get_row id; cancel_row env row

abbrev pub clamp_limit : ℕ → ℕ → ℕ
clamp_limit top limit = max 1 (min limit top)

-- `list`, newest first; the empty status does not filter
unfoldable pub list_jobs : String → ℕ → Db → List Job
list_jobs status limit db =
    take (clamp_limit 500 limit)
      (keep (λ j. is_empty status || str_eq (status_text j.status) status) (reverse db.jobs))

-- `.nullsfirst()`, then ascending; the sort is stable, so `created_at` decides between equals
abbrev pub retry_before : Job → Job → Bool
retry_before a b = elim a.next_retry_at [
  | none ↦ true
  | some t ↦ elim b.next_retry_at [ none ↦ false | some u ↦ leb t u ]
]

abbrev pub is_due : Option ℕ → ℕ → Bool
is_due none now = true
is_due (some t) now = leb t now

-- `ready_for_retry`
unfoldable pub ready_for_retry : ℕ → ℕ → Db → List Job
ready_for_retry now limit db =
    take (clamp_limit 500 limit) (
      sort_by retry_before (keep (λ j. is_retrying j.status && is_due j.next_retry_at now) db.jobs))
