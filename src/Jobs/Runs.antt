-- ===== src/Jobs/Runs.antt =====
-- Theorems on `_run_job`: what an execution leaves in the row of its job.
use soul_claw.Base.{
  ℕ, String, true, false, ◌≡◌, [], some, arith, Exec, ok, err, PyError, str_exc, Json,
  if◌then◌else◌, leb, pure,
}
use soul_claw.Jobs.State.{Job, Db, Env, find_job, get_row, retry_delay_seconds, is_terminal}
use soul_claw.Jobs.Service.{should_run, started as started_row, retried, buried}
use soul_claw.Jobs.Enqueue.{session_scope}
use soul_claw.Jobs.Worker.{
  skipped, started, skip, raised, attempts_of, begin, start_if_due, run_job, record_failure,
  settle_run,
}
use soul_claw.Jobs.Rows.{id-find_job}
use soul_claw.Jobs.Effects.{
  Writes, mark_started-Writes, mark_retrying-Writes, mark_dead_letter-Writes,
}

abbrev pub opened : Db → Db
opened db = record db { pending_ids = []; listener = false }

-- A transaction that schedules nothing commits what it did.
pub scope_ok :
    {A : Type 0} (env : Env) (m : Exec Db A) (db : Db) (a : A)
    → (m (opened db)).0 ≡ ok a
    → (m (opened db)).1.listener ≡ false
    → session_scope env m db ≡ (ok a, opened (m (opened db)).1)
unfolding session_scope
scope_ok env m db a r quiet = ground arith

-- A transaction that raises leaves the tables as they were.
scope_err :
    {A : Type 0} (env : Env) (m : Exec Db A) (db : Db) (e : PyError)
    → (m (opened db)).0 ≡ err e
    → (session_scope env m db).0 ≡ err e
      × ((session_scope env m db).1.jobs ≡ db.jobs)
      × ((session_scope env m db).1.outbox ≡ db.outbox)
      × ((session_scope env m db).1.idempotency ≡ db.idempotency)
unfolding session_scope
scope_err env m db e r = ground arith

due-not_terminal :
    (job : Job) (now : ℕ) → should_run job now ≡ true → is_terminal job.status ≡ false
unfolding should_run
due-not_terminal job now h = ground arith

-- The row that `mark_started` writes is in the table when the first transaction ends.
begin_due :
    (env : Env) (id owner : String) (db : Db) (job : Job)
    → find_job id db.jobs ≡ some job
    → should_run job env.now ≡ true
    → ((begin env owner id db).0 ≡ ok (started (started_row env.now owner job)))
      × (find_job id (begin env owner id db).1.jobs ≡ some (started_row env.now owner job))
      × ((begin env owner id db).1.listener ≡ db.listener)
unfolding begin start_if_due get_row pure
begin_due env id owner db job found due = ground (
  arith,
  id-find_job id db.jobs job found,
  due-not_terminal job env.now due,
  mark_started-Writes env id db job found owner,
)

pub begin_scope :
    (env : Env) (id owner : String) (db : Db) (job : Job)
    → find_job id db.jobs ≡ some job
    → should_run job env.now ≡ true
    → ((session_scope env (begin env owner id) db).0 ≡ ok (started (started_row env.now owner job)))
      × (find_job id (session_scope env (begin env owner id) db).1.jobs
          ≡ some (started_row env.now owner job))
begin_scope env id owner db job found due = ground (
  arith,
  begin_due env id owner (opened db) job found due,
  scope_ok env (begin env owner id) db (started (started_row env.now owner job)),
)

-- The row that an execution leaves which raised `e`, from the row as it was started.
unfoldable pub failed_row : Env → PyError → Job → Job
failed_row env e job =
    if leb (attempts_of job) job.attempt_count
    then buried env.now (str_exc e) job
    else retried env.now (str_exc e) (retry_delay_seconds job.attempt_count) job

record_failure-Writes :
    (env : Env) (id : String) (db : Db) (job : Job) (e : PyError)
    → find_job id db.jobs ≡ some job
    → Writes id
        (failed_row env e job)
        db
        (record_failure env job e db).0
        (record_failure env job e db).1
unfolding record_failure failed_row
record_failure-Writes env id db job e found = ground (
  arith,
  id-find_job id db.jobs job found,
  mark_retrying-Writes env id db job found (str_exc e),
  mark_dead_letter-Writes env id db job found (str_exc e),
)

begin_skips :
    (env : Env) (id owner : String) (db : Db) (job : Job)
    → find_job id db.jobs ≡ some job
    → should_run job env.now ≡ false
    → session_scope env (begin env owner id) db ≡ (ok (skipped job.status), opened db)
unfolding begin start_if_due get_row pure session_scope
begin_skips env id owner db job found due = ground arith

-- An execution of a job that is not due is skipped: it returns the job's status, changes no table,
-- and does not run the task.
pub run_job_skips :
    (env : Env) (id owner : String) (body : Exec Db Json) (db : Db) (job : Job)
    → find_job id db.jobs ≡ some job
    → should_run job env.now ≡ false
    → run_job env owner id body db ≡ (skip job.status, opened db)
unfolding run_job
run_job_skips env id owner body db job found due =
    ground (arith, begin_skips env id owner db job found due)

settle_failing :
    (env : Env) (id : String) (db : Db) (job : Job) (e : PyError)
    → find_job id db.jobs ≡ some job
    → (s : Db) → s.jobs ≡ db.jobs
    → ((settle_run env job (err e, s)).0 ≡ raised e)
      × (find_job id (settle_run env job (err e, s)).1.jobs ≡ some (failed_row env e job))
unfolding settle_run
settle_failing env id db job e found s same = ground (
  arith,
  record_failure-Writes env id (opened s) job e,
  scope_ok env (record_failure env job e) s (failed_row env e job),
)

pub run_job-failed_row :
    (env : Env) (id owner : String) (body : Exec Db Json) (db : Db) (job : Job) (e : PyError)
    → find_job id db.jobs ≡ some job
    → should_run job env.now ≡ true
    → ((s : Db) → (body s).0 ≡ err e)
    → ((run_job env owner id body db).0 ≡ raised e)
      × (find_job id (run_job env owner id body db).1.jobs
          ≡ some (failed_row env e (started_row env.now owner job)))
unfolding run_job
run_job-failed_row env id owner body db job e found due fails =
    let mid : Db = (session_scope env (begin env owner id) db).1 in
    ground (
      arith,
      begin_scope env id owner db job found due,
      scope_err env body mid e (fails (opened mid)),
      settle_failing env id mid (started_row env.now owner job) e
          (begin_scope env id owner db job found due).1 (session_scope env body mid).1,
    )
