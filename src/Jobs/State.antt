-- ===== src/Jobs/State.antt =====
-- The rows of backend/infra/models.py that the job service reads and writes, the session's state
-- and what the service takes from outside.
use soul_claw.Base.{
  ℕ, ◌+◌, ◌^◌, String, Bool, true, false, List, [], ◌∷◌, Option, none, some, Exec, Result, ok, err,
  PyError, key_error, Json, Fields, Sink, emit, audit, Severity, f_string, str_eq, if◌then◌else◌,
  min, max,
}

-- The values that the column `status` of `background_jobs` takes.
pub data JobStatus : Type 0 where
  queued retrying running succeeded failed dead_letter cancelled : JobStatus

unfoldable pub status_text : JobStatus → String
status_text queued = "queued"
status_text retrying = "retrying"
status_text running = "running"
status_text succeeded = "succeeded"
status_text failed = "failed"
status_text dead_letter = "dead_letter"
status_text cancelled = "cancelled"

-- An id is its canonical text, so that `uuid.UUID(str(id))` is the id. Times are microseconds.
pub record Job : Type 0 where
  pub id : String
  pub trace_id : String
  pub request_id : String
  pub task_name : String
  pub queue_id : String
  pub status : JobStatus
  pub idempotency_key : String
  pub payload : Json
  pub result : Json
  pub error : String
  pub triggered_by : String
  pub cron_job_id : Option String
  pub attempt_count : ℕ
  pub max_attempts : ℕ
  pub next_retry_at : Option ℕ
  pub locked_at : Option ℕ
  pub lock_owner : String
  pub dead_letter_reason : String
  pub started_at : Option ℕ
  pub finished_at : Option ℕ

-- The values that the column `status` of `outbox_messages` takes.
pub data OutboxStatus : Type 0 where
  pending outbox_retrying dispatched outbox_dead_letter : OutboxStatus

pub record OutboxMessage : Type 0 where
  pub id : String
  pub trace_id : String
  pub request_id : String
  pub topic : String
  pub aggregate_type : String
  pub aggregate_id : String
  pub idempotency_key : String
  pub status : OutboxStatus
  pub payload : Fields
  pub attempt_count : ℕ
  pub max_attempts : ℕ
  pub next_attempt_at : Option ℕ
  pub last_error : String
  pub dispatched_at : Option ℕ

pub record IdempotencyRecord : Type 0 where
  pub scope : String
  pub idempotency_key : String
  pub request_hash : String
  pub status : String
  pub response : Json

-- One message handed to the broker by `apply_async`.
pub record Delivery : Type 0 where
  pub task_name : String
  pub job_id : String
  pub payload : Json
  pub queue_id : String
  pub trace_id : String
  pub request_id : String

-- A session over the tables, in the order of `created_at`. `pending_ids` and `listener` are
-- `db.info`; `hooks` is `hasattr(db, "dispatch")`; `sent` is what left for the broker, which a
-- rollback does not take back; `supply` counts the ids drawn.
pub record Db : Type 0 where
  pub jobs : List Job
  pub outbox : List OutboxMessage
  pub idempotency : List IdempotencyRecord
  pub sink : Sink
  pub hooks : Bool
  pub pending_ids : List String
  pub listener : Bool
  pub sent : List Delivery
  pub supply : ℕ

-- What the code takes from outside: the clock (one reading for each call), the ids of `uuid4`, the
-- digest of a canonical JSON text, the broker's answer (`none` when it accepts), and the trace.
pub record Env : Type 0 where
  pub now : ℕ
  pub uuid4 : ℕ → String
  pub stable_hash : Json → String
  pub broker : Delivery → Option PyError
  pub trace_id : String
  pub request_id : String

abbrev pub second : ℕ
second = 1000000

-- `str(uuid.uuid4())`, the next id of the supply
unfoldable pub fresh_id : Env → Exec Db String
fresh_id env db = (ok (env.uuid4 db.supply), record db { supply = db.supply + 1 })

-- `TERMINAL_JOB_STATUSES`
unfoldable pub is_terminal : JobStatus → Bool
is_terminal succeeded = true
is_terminal failed = true
is_terminal dead_letter = true
is_terminal cancelled = true
is_terminal _ = false

-- `RETRYABLE_JOB_STATUSES`
unfoldable pub is_retryable : JobStatus → Bool
is_retryable queued = true
is_retryable retrying = true
is_retryable _ = false

abbrev pub is_running : JobStatus → Bool
is_running running = true
is_running _ = false

abbrev pub is_retrying : JobStatus → Bool
is_retrying retrying = true
is_retrying _ = false

-- `db.get(BackgroundJob, id)`
unfoldable pub find_job : String → List Job → Option Job
find_job id [] = none
find_job id (j ∷ js) = if str_eq j.id id then some j else find_job id js

-- The row that has the job's id takes the job's columns.
unfoldable pub put_job : Job → List Job → List Job
put_job job [] = []
put_job job (j ∷ js) = if str_eq j.id job.id then job ∷ js else j ∷ put_job job js

-- `_retry_delay_seconds`
unfoldable pub retry_delay_seconds : ℕ → ℕ
retry_delay_seconds attempt_count = min 300 (2 ^ min (max 1 attempt_count) 8)

unfoldable pub emit_to : String → Severity → Fields → Exec Db (Unit {0})
emit_to name severity payload db = (ok tt, record db { sink = emit name severity payload db.sink })

unfoldable pub audit_to : String → String → String → Fields → Exec Db (Unit {0})
audit_to action target_type target_id payload db =
    (ok tt, record db { sink = audit action target_type target_id payload db.sink })

-- the changed columns of a row that the session holds
unfoldable pub save : Job → Exec Db (Unit {0})
save job db = (ok tt, record db { jobs = put_job job db.jobs })

abbrev pub missing_job : String → PyError
missing_job id = key_error (f_string ("background job not found: " ∷ id ∷ []))

abbrev pub row_or_missing : String → Option Job → Result Job
row_or_missing id none = err (missing_job id)
row_or_missing id (some j) = ok j

-- `_get`
unfoldable pub get_row : String → Exec Db Job
get_row id db = (row_or_missing id (find_job id db.jobs), db)
