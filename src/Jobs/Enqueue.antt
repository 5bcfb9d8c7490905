-- ===== src/Jobs/Enqueue.antt =====
-- `enqueue_background_job` and `replay_outbox` of backend/domain/jobs.py, and `session_scope` of
-- backend/infra/db.py.
use soul_claw.Base.{
  ℕ, String, false, [], ◌∷◌, Option, none, some, Exec, Result, ok, err, value_error, Json, string,
  obj, end, field, f_string, is_empty, if◌then◌else◌, ◌>>=◌, pure, raise,
}
use soul_claw.Jobs.State.{Job, Db, Env, get_row}
use soul_claw.Jobs.Idempotency.{IdempotencyStatus, idempotency_status}
use soul_claw.Jobs.Service.{JobRequest, find_by_key, create}
use soul_claw.Jobs.Outbox.{Report, dispatch_outbox, commit, schedule_dispatch}

abbrev pub id_or_empty : Option String → String
id_or_empty none = ""
id_or_empty (some s) = s

abbrev pub request_fields : JobRequest → Json
request_fields r = obj (
    field "task_name" (string r.task_name) (
      field "payload" r.payload (
        field "triggered_by" (string r.triggered_by)
          (field "cron_job_id" (string (id_or_empty r.cron_job_id)) end))))

-- `_job_idempotency_key`
unfoldable pub job_idempotency_key : Env → JobRequest → String
job_idempotency_key env r =
    f_string ("job:" ∷ r.task_name ∷ ":" ∷ env.stable_hash (request_fields r) ∷ [])

-- The request with the key that it is filed under.
unfoldable pub keyed : Env → JobRequest → JobRequest
unfolding job_idempotency_key
keyed env r =
    if is_empty r.idempotency_key
    then record r { idempotency_key = job_idempotency_key env r }
    else r

-- The caller gets the session's object, with the columns that the dispatch wrote.
unfoldable pub create_and_dispatch : Env → JobRequest → Exec Db Job
unfolding create schedule_dispatch get_row
create_and_dispatch env r = do
  job ← create env r
  _ ← schedule_dispatch env job "enqueue"
  get_row job.id

unfoldable pub existing_or_create : Env → JobRequest → Option Job → Exec Db Job
unfolding create_and_dispatch pure
existing_or_create env r (some existing) = pure existing
existing_or_create env r none = create_and_dispatch env r

unfoldable pub enqueue_judged : Env → JobRequest → IdempotencyStatus → Exec Db Job
unfolding existing_or_create raise
enqueue_judged env r status db =
    if status.conflict
    then raise
        (value_error
          (f_string ("idempotency key reused with different payload: " ∷ r.idempotency_key ∷ [])))
        db
    else existing_or_create env r (find_by_key r.idempotency_key db.jobs) db

-- `enqueue_background_job`, for a request with its key
unfoldable pub enqueue_keyed : Env → JobRequest → Exec Db Job
unfolding idempotency_status enqueue_judged
enqueue_keyed env r = do
  status ← idempotency_status env "background_job" r.idempotency_key (request_fields r)
  enqueue_judged env r status

-- `enqueue_background_job`
unfoldable pub enqueue_background_job : Env → JobRequest → Exec Db Job
unfolding enqueue_keyed keyed
enqueue_background_job env r = enqueue_keyed env (keyed env r)

-- `session_scope`: commit, or roll the tables back and raise. The broker keeps what it was sent.
unfoldable pub finish {ℓ} : {A : Type ℓ} → Env → Db → Result A × Db → Result A × Db
unfolding commit
finish env before (ok a, after) = (ok a, commit env after)
finish env before (err e, after) =
    (err e, record before { sent = after.sent; supply = after.supply })

unfoldable pub session_scope : {A : Type 0} → Env → Exec Db A → Exec Db A
unfolding finish
session_scope env m db = finish env db (m (record db { pending_ids = []; listener = false }))

-- `replay_outbox`
unfoldable pub replay_outbox : Env → ℕ → Exec Db Report
unfolding session_scope
replay_outbox env limit =
    session_scope env (λ db. let (r, db') = dispatch_outbox env limit db in (ok r, db'))
