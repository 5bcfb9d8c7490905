-- ===== src/Jobs/Effects.antt =====
-- What the operations of the job service leave in the row that they are called for, and what they
-- leave alone.
use soul_claw.Base.{String, false, ◌≡◌, none, some, arith, Result, ok, Json}
use soul_claw.Jobs.State.{Job, Db, Env, find_job, put_job, retry_delay_seconds, is_terminal}
use soul_claw.Jobs.Service.{
  mark_started, started as started_row, mark_succeeded, succeeded_with, mark_retrying, retried,
  mark_dead_letter, buried,
}
use soul_claw.Jobs.Rows.{id-find_job, find_job-put_job}

-- The call returns `row`, writes it in the table, and leaves the outbox and the session alone.
pub record Writes (id : String) (row : Job) (before : Db) (r : Result Job) (after : Db)
    : Type 0 where
  pub result : r ≡ ok row
  pub written : find_job id after.jobs ≡ some row
  pub table : after.jobs ≡ put_job row before.jobs
  pub outbox : after.outbox ≡ before.outbox
  pub listener : after.listener ≡ before.listener
  pub pending : after.pending_ids ≡ before.pending_ids

module _ (env : Env) (id : String) (db : Db) (job : Job)
    (found : find_job id db.jobs ≡ some job) where
  pub mark_started-Writes :
      (owner : String)
      → is_terminal job.status ≡ false
      → Writes id
          (started_row env.now owner job)
          db
          (mark_started env id owner db).0
          (mark_started env id owner db).1
  unfolding mark_started
  mark_started-Writes owner live = ground (
    arith,
    id-find_job id db.jobs job found,
    find_job-put_job id db.jobs job (started_row env.now owner job),
  )

  pub mark_succeeded-Writes :
      (v : Json)
      → Writes id
          (succeeded_with env.now v job)
          db
          (mark_succeeded env id v db).0
          (mark_succeeded env id v db).1
  unfolding mark_succeeded
  mark_succeeded-Writes v = ground (
    arith,
    id-find_job id db.jobs job found,
    find_job-put_job id db.jobs job (succeeded_with env.now v job),
  )

  pub mark_retrying-Writes :
      (message : String)
      → let row = retried env.now message (retry_delay_seconds job.attempt_count) job in
        Writes id row db
          (mark_retrying env id message none db).0
          (mark_retrying env id message none db).1
  unfolding mark_retrying
  mark_retrying-Writes message = ground (
    arith,
    id-find_job id db.jobs job found,
    find_job-put_job id db.jobs job
        (retried env.now message (retry_delay_seconds job.attempt_count) job),
  )

  pub mark_dead_letter-Writes :
      (message : String)
      → Writes id
          (buried env.now message job)
          db
          (mark_dead_letter env id message db).0
          (mark_dead_letter env id message db).1
  unfolding mark_dead_letter
  mark_dead_letter-Writes message = ground (
    arith,
    id-find_job id db.jobs job found,
    find_job-put_job id db.jobs job (buried env.now message job),
  )
