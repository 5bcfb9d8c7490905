-- ===== src/Jobs/Worker.antt =====
-- `_run_job` of backend/worker/tasks.py: one execution of a job by a worker process.
use soul_claw.Base.{
  ℕ, String, none, Exec, Result, ok, err, PyError, str_exc, Json, if◌then◌else◌, ◌==◌, leb, ◌>>=◌,
  pure,
}
use soul_claw.Jobs.State.{JobStatus, Job, Db, Env, get_row}
use soul_claw.Jobs.Service.{
  mark_started, mark_succeeded, mark_retrying, mark_dead_letter, should_run,
}
use soul_claw.Jobs.Enqueue.{session_scope}

-- How the first transaction of `_run_job` ends: the job is skipped, or it runs as this row.
pub data Start : Type 0 where
  skipped : JobStatus → Start
  started : Job → Start

unfoldable pub start_if_due : Env → String → Job → Exec Db Start
unfolding mark_started pure
start_if_due env lock_owner job =
    if should_run job env.now
    then (do row ← mark_started env job.id lock_owner; pure (started row))
    else pure (skipped job.status)

unfoldable pub begin : Env → String → String → Exec Db Start
unfolding get_row start_if_due
begin env lock_owner job_id = do job ← get_row job_id; start_if_due env lock_owner job

-- What a call of the task leaves: `skipped`, the task's dictionary, or the exception.
pub data Outcome : Type 0 where
  skip : JobStatus → Outcome
  returned : Json → Outcome
  raised : PyError → Outcome

-- `int(job.max_attempts or 3)`
abbrev pub attempts_of : Job → ℕ
attempts_of job = if job.max_attempts == 0 then 3 else job.max_attempts

-- The handler of an exception of the task's body, in a transaction of its own.
unfoldable pub record_failure : Env → Job → PyError → Exec Db Job
record_failure env job e =
    if leb (attempts_of job) job.attempt_count
    then mark_dead_letter env job.id (str_exc e)
    else mark_retrying env job.id (str_exc e) none

abbrev pub raised_or : PyError → Result Job × Db → Outcome × Db
raised_or e (ok j, db) = (raised e, db)
raised_or e (err e', db) = (raised e', db)

abbrev pub returned_or : Json → Result Job × Db → Outcome × Db
returned_or v (ok j, db) = (returned v, db)
returned_or v (err e, db) = (raised e, db)

-- The rest of `_run_job` after the body `fn(services, db)` returned or raised.
unfoldable pub settle_run : Env → Job → Result Json × Db → Outcome × Db
unfolding record_failure
settle_run env job (ok v, db) = returned_or v (session_scope env (mark_succeeded env job.id v) db)
settle_run env job (err e, db) = raised_or e (session_scope env (record_failure env job e) db)

unfoldable pub run_started : Env → Exec Db Json → Result Start × Db → Outcome × Db
unfolding settle_run
run_started env body (err e, db) = (raised e, db)
run_started env body (ok (skipped s), db) = (skip s, db)
run_started env body (ok (started job), db) = settle_run env job (session_scope env body db)

-- `_run_job`; `body` is the task's own function
unfoldable pub run_job : Env → String → String → Exec Db Json → Db → Outcome × Db
unfolding run_started begin
run_job env lock_owner job_id body db =
    run_started env body (session_scope env (begin env lock_owner job_id) db)
