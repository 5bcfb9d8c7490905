-- ===== src/Jobs/Attempts.antt =====
-- How often a job is executed, over any number of deliveries of the same message.
use soul_claw.Base.{
  ℕ, ◌+◌, ◌*◌, ◌≤◌, ◌<◌, String, Bool, true, false, if◌then◌else◌, ◌≡◌, List, [], ◌∷◌, none, some,
  arith, Exec, err, PyError, str_exc, Json, min, max, zero, suc,
}
use native.Mathlib.Decide.{dec_lt}
use soul_claw.Jobs.State.{
  retrying, dead_letter, Job, Db, Env, second, find_job, retry_delay_seconds, is_terminal,
  is_retryable,
}
use soul_claw.Jobs.Service.{should_run, started as started_row, retried, buried}
use soul_claw.Jobs.Worker.{Outcome, raised, returned, skip, attempts_of, run_job}
use soul_claw.Jobs.Runs.{failed_row, run_job-failed_row}

-- What a failed execution leaves in the row of its job.
pub record FailedRow (env : Env) (e : PyError) (job row : Job) : Type 0 where
  pub attempt : row.attempt_count ≡ job.attempt_count + 1
  pub message : row.error ≡ str_exc e
  pub unlocked : (row.locked_at ≡ none) × (row.lock_owner ≡ "")
  pub exhausted :
      attempts_of job ≤ job.attempt_count + 1
      → (row.status ≡ dead_letter) × (row.next_retry_at ≡ none) × (row.finished_at ≡ some env.now)
  pub waits :
      job.attempt_count + 1 < attempts_of job
      → (row.status ≡ retrying)
        × (row.next_retry_at
            ≡ some (env.now + retry_delay_seconds (job.attempt_count + 1) * second))

failed_row_lem :
    (env : Env) (owner : String) (e : PyError) (job : Job)
    → FailedRow env e job (failed_row env e (started_row env.now owner job))
unfolding failed_row started_row retried buried
failed_row_lem env owner e job = ground arith

-- A due job whose task raises is counted as one more attempt, unlocked, and keeps the message. It
-- goes to the dead letters when its attempts are used up, and otherwise waits for
-- `_retry_delay_seconds` of the new count. The call raises the task's exception.
pub run_job_fails :
    (env : Env) (id owner : String) (body : Exec Db Json) (db : Db) (job : Job) (e : PyError)
    → find_job id db.jobs ≡ some job
    → should_run job env.now ≡ true
    → ((s : Db) → (body s).0 ≡ err e)
    → ((run_job env owner id body db).0 ≡ raised e)
      × (row : Job) × (find_job id (run_job env owner id body db).1.jobs ≡ some row)
      × FailedRow env e job row
run_job_fails env id owner body db job e found due fails =
    let (out, row) = run_job-failed_row env id owner body db job e found due fails in
    (out, failed_row env e (started_row env.now owner job), row, failed_row_lem env owner e job)

-- One delivery: the worker's clock and name, and the task's exception.
pub record Delivered : Type 0 where
  pub env : Env
  pub owner : String
  pub error : PyError

abbrev pub failing : Delivered → Exec Db Json
failing d s = (err d.error, s)

-- Whether a delivery executed the task, which raises whenever it is executed.
abbrev pub was_executed : Outcome → Bool
was_executed (raised e) = true
was_executed (returned v) = false
was_executed (skip status) = false

abbrev pub counted : Outcome → ℕ → ℕ
counted o n = if was_executed o then n + 1 else n

-- The deliveries of one job, each executed by `_run_job` with a task that raises: how many executed the
-- task, and the session behind them.
unfoldable pub run_all : String → List Delivered → Db → ℕ × Db
run_all id [] db = (0, db)
run_all id (d ∷ ds) db =
    let (o, next) = run_job d.env d.owner id (failing d) db in
    let (executions, after) = run_all id ds next in (counted o executions, after)

-- What holds of a job that only failing executions have touched.
pub record IsBounded (limit : ℕ) (job : Job) : Type 0 where
  pub limit_kept : attempts_of job ≡ limit
  pub bounded : job.attempt_count ≤ limit
  pub live : is_retryable job.status ≡ true → job.attempt_count < limit
  pub spent : is_terminal job.status ≡ true → job.attempt_count ≡ limit

late : (a : ℕ) → 8 ≤ a → retry_delay_seconds a ≡ 256
unfolding retry_delay_seconds
late a h = let e : min (max 1 a) 8 ≡ 8 = omega arith in rw e

abbrev DelayBounds : ℕ → Type 0
DelayBounds a =
    (2 ≤ retry_delay_seconds a)
    × (retry_delay_seconds a ≤ 256)
    × (1 ≤ a → a < 8 → retry_delay_seconds (a + 1) ≡ 2 * retry_delay_seconds a)
    × (8 ≤ a → retry_delay_seconds a ≡ 256)

early : (a : ℕ) → a < 8 → DelayBounds a
unfolding retry_delay_seconds
early zero h = omega arith
early (suc zero) h = omega arith
early (suc (suc zero)) h = omega arith
early (suc (suc (suc zero))) h = omega arith
early (suc (suc (suc (suc zero)))) h = omega arith
early (suc (suc (suc (suc (suc zero))))) h = omega arith
early (suc (suc (suc (suc (suc (suc zero)))))) h = omega arith
early (suc (suc (suc (suc (suc (suc (suc zero))))))) h = omega arith
early (suc (suc (suc (suc (suc (suc (suc (suc a)))))))) h = absurd (omega arith)

-- The delay doubles with each attempt from two seconds to 256 and stays there: the ceiling of 300
-- seconds is never reached.
pub retry_delay_bounds :
    (a : ℕ)
    → (2 ≤ retry_delay_seconds a)
      × (retry_delay_seconds a ≤ 256)
      × (1 ≤ a → a < 8 → retry_delay_seconds (a + 1) ≡ 2 * retry_delay_seconds a)
      × (8 ≤ a → retry_delay_seconds a ≡ 256)
retry_delay_bounds a = elim (dec_lt a 8) [ yes h ↦ early a h | no h ↦ omega (arith, late a) ]
