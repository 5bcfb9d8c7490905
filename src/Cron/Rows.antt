-- ===== src/Cron/Rows.antt =====
-- What a run of a scheduled job leaves in its row and among the jobs.
use soul_claw.Base.{
  ℕ, ◌+◌, ◌*◌, ◌^◌, ◌≤◌, ◌≡◌, refl, none, some, arith, min, max, Result, ok, err, PyError, info,
  field, string, end,
}
use native.Mathlib.Nat.{pow-le-pow_right}
use soul_claw.Jobs.State.{Job, Db, second}
use soul_claw.Cron.Scheduler.{
  CronJob, CronEnv, CronDb, put_cron, tell, cron_backoff_seconds, cron_enqueue_key, enqueue_task,
  task_of, failed_cron, result_task, succeeded_cron, settle_cron, run_cron_job,
}

-- The delay after a failure is between 2 and 900 seconds.
pub backoff_bounds :
    (failures : ℕ) → (2 ≤ cron_backoff_seconds failures) × (cron_backoff_seconds failures ≤ 900)
unfolding cron_backoff_seconds
backoff_bounds failures =
    let exponent = min (max 1 failures) 10 in
    let grown : 2 ^ 1 ≤ 2 ^ exponent =
      pow-le-pow_right (omega arith) {i = 1} {j = exponent} (omega arith) in
    (omega (arith, grown), omega arith)

-- The row after a run whose enqueue had this outcome
pub record Ran (c : CronJob) (now next : ℕ) (outcome : Result Job) (row : CronJob) : Type 0 where
  pub counted : (row.run_count ≡ c.run_count + 1) × (row.last_run_at ≡ some now)
  pub scheduled : row.next_run_at ≡ some next
  pub enqueued :
      (job : Job) → outcome ≡ ok job → (row.last_status ≡ "succeeded") × (row.backoff_until ≡ none)
  pub refused :
      (e : PyError)
      → outcome ≡ err e
      → (row.last_status ≡ "failed")
        × (row.failure_count ≡ c.failure_count + 1)
        × (row.backoff_until ≡ some (now + cron_backoff_seconds (c.failure_count + 1) * second))

settle_cron-Ran :
    (env : CronEnv) (c : CronJob) (now next : ℕ) (r : Result Job) (db : Db) (s : CronDb)
    → env.compute_next_run c.cron_expr c.timezone now ≡ ok next
    → (row : CronJob) × ((settle_cron env c now (r, db) s).0 ≡ ok tt)
      × ((settle_cron env c now (r, db) s).1.crons ≡ put_cron row s.crons)
      × ((settle_cron env c now (r, db) s).1.db.jobs ≡ db.jobs)
      × Ran c now next r row
unfolding settle_cron
settle_cron-Ran env c now next (ok job) db s reads =
    let row : CronJob =
      record (succeeded_cron c (cron_enqueue_key env c now) (result_task c job.task_name) job.id) {
        last_run_at = some now;
        run_count = c.run_count + 1;
        next_run_at = some next;
      } in
    (
      row,
      rw reads refl,
      rw reads refl,
      rw reads refl,
      record {
        counted = (refl, refl);
        scheduled = refl;
        enqueued = λ j h. (refl, refl);
        refused = λ e h. cc;
      },
    )
settle_cron-Ran env c now next (err e) db s reads =
    let row : CronJob = record (failed_cron c now e) {
      last_run_at = some now;
      run_count = c.run_count + 1;
      next_run_at = some next;
    } in
    (
      row,
      rw reads refl,
      rw reads refl,
      rw reads refl,
      record {
        counted = (refl, refl);
        scheduled = refl;
        enqueued = λ j h. cc;
        refused = λ f h. (refl, refl, refl);
      },
    )

-- A run of a scheduled job does not raise where its expression can be read, whatever the enqueue does:
-- the row counts the run and has the next time, and it says `succeeded` without a backoff, or `failed`
-- with one more failure and the backoff of that many.
pub run_cron_job-Ran :
    (env : CronEnv) (c : CronJob) (now next : ℕ) (s : CronDb)
    → env.compute_next_run c.cron_expr c.timezone now ≡ ok next
    → let told =
        tell "cron.job.started" info
          (field "job_id" (string c.id) (field "name" (string c.name) end))
          s in
      (row : CronJob) × ((run_cron_job env c now s).0 ≡ ok tt)
      × ((run_cron_job env c now s).1.crons ≡ put_cron row s.crons)
      × Ran c now next (enqueue_task env c now (task_of env c) told.db).0 row
unfolding run_cron_job
run_cron_job-Ran env c now next s reads =
    let told =
      tell "cron.job.started" info (field "job_id" (string c.id) (field "name" (string c.name) end))
        s in
    let (r, db) = enqueue_task env c now (task_of env c) told.db in
    let (row, done, rows, _, ran) = settle_cron-Ran env c now next r db told reads in
    (row, done, rows, ran)
