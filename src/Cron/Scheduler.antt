-- ===== src/Cron/Scheduler.antt =====
-- `tick`, `_run_job` and `_dispatch_retryable_jobs` of backend/runtime/cron.py, over
-- the jobs. Times are microseconds.
use Prim.Native.String.{compare as compare_text}
use Prim.Native.Nat.{Ordering, compare}
use soul_claw.Base.{
  ℕ, ◌+◌, ◌-◌, ◌*◌, ◌%◌, ◌^◌, String, Bool, true, false, ◌&&◌, List, [], ◌∷◌, Option, none, some,
  min, max, Result, ok, err, Exec, pure, ◌>>◌, PyError, str_exc, num, string, obj, Fields, end,
  field, field_get, text_or_empty, as_fields, Json, flag, truthy, value_error, other_error,
  f_string, str, str_eq, is_empty, keep, take, sort_by, leb, length, emit, info, warning, Severity,
  if◌then◌else◌, ◌==◌,
}
use soul_claw.Jobs.State.{Job, Db, Env, second}
use soul_claw.Jobs.Service.{JobRequest, ready_for_retry}
use soul_claw.Jobs.Outbox.{dispatch_outbox, reschedule_job}
use soul_claw.Jobs.Enqueue.{enqueue_background_job, finish}

-- `CronJob` of backend/infra/models.py, the columns that the scheduler reads or writes
pub record CronJob : Type 0 where
  pub id : String
  pub name : String
  pub cron_expr : String
  pub timezone : String
  pub enabled : Bool
  pub last_run_at : Option ℕ
  pub next_run_at : Option ℕ
  pub backoff_until : Option ℕ
  pub last_status : String
  pub last_result : Fields
  pub run_count : ℕ
  pub failure_count : ℕ
  pub last_enqueue_key : String
  pub metadata : Fields

-- The jobs' environment; `compute_next_run`, with croniter and the time zones behind it, which raises
-- on an expression that it cannot read; and the digest of a job's key in a minute.
pub record CronEnv : Type 0 where
  pub jobs : Env
  pub compute_next_run : String → String → ℕ → Result ℕ
  pub enqueue_digest : String → String → ℕ → Fields → String
  pub int_of_text : String → Option ℕ

pub record CronDb : Type 0 where
  pub crons : List CronJob
  pub db : Db

unfoldable pub put_cron : CronJob → List CronJob → List CronJob
put_cron c [] = []
put_cron c (d ∷ ds) = if str_eq d.id c.id then c ∷ ds else d ∷ put_cron c ds

abbrev pub save : CronJob → CronDb → CronDb
save c s = record s { crons = put_cron c s.crons }

abbrev pub tell : String → Severity → Fields → CronDb → CronDb
tell name severity payload s = record s {
  db = record (s.db) { sink = emit name severity payload s.db.sink };
}

-- `_cron_backoff_seconds`
unfoldable pub cron_backoff_seconds : ℕ → ℕ
cron_backoff_seconds failure_count = min 900 (2 ^ min (max 1 failure_count) 10)

-- `now.replace(second=0, microsecond=0)`
unfoldable pub minute_of : ℕ → ℕ
minute_of now = now - now % (60 * second)

-- `_cron_enqueue_key`
unfoldable pub cron_enqueue_key : CronEnv → CronJob → ℕ → String
unfolding minute_of
cron_enqueue_key env c now =
    f_string
      ("cron:" ∷ c.name ∷ ":" ∷ env.enqueue_digest c.id c.name (minute_of now) c.metadata ∷ [])

abbrev pub system_task : CronJob → String
system_task c = text_or_empty (field_get "system_task" c.metadata)

abbrev pub or_dream : String → String
or_dream s = if is_empty s then "dream_review" else s

abbrev pub is_dream : CronJob → Bool
is_dream c = str_eq (system_task c) "dream_review"

abbrev pub is_heartbeat : CronJob → Bool
is_heartbeat c = str_eq (system_task c) "heartbeat"

abbrev pub read_int : String → Option ℕ → Result ℕ
read_int s (some n) = ok n
read_int s none =
    err (value_error (f_string ("invalid literal for int() with base 10: '" ∷ s ∷ "'" ∷ [])))

-- `int(value or default)`, which raises where the value is a text that is no number, a list or a
-- dictionary
unfoldable pub int_or : (String → Option ℕ) → ℕ → Option Json → Result ℕ
unfolding truthy
int_or int default (some (num n)) = ok (if n == 0 then default else n)
int_or int default (some (flag b)) = ok (if b then 1 else default)
int_or int default (some (string s)) = if is_empty s then ok default else read_int s (int s)
int_or int default v =
    if truthy v
    then err (other_error "int() argument must be a string, a bytes-like object or a real number")
    else ok default

abbrev pub dream_task : Result ℕ → Result ℕ → Result (String × Fields)
dream_task (err e) limit = err e
dream_task (ok hours) (err e) = err e
dream_task (ok hours) (ok limit) =
    ok ("dream_review", field "window_hours" (num hours) (field "limit" (num limit) end))

-- the task and the payload of the three kinds of job, or the exception of reading its numbers
unfoldable pub task_of : CronEnv → CronJob → Result (String × Fields)
unfolding int_or
task_of env c =
    if is_dream c
    then dream_task (int_or env.int_of_text 24 (field_get "window_hours" c.metadata))
        (int_or env.int_of_text 50 (field_get "limit" c.metadata))
    else if is_heartbeat c
    then ok ("heartbeat_check", end)
    else ok (
      or_dream (text_or_empty (field_get "task_name" c.metadata)),
      as_fields (field_get "payload" c.metadata),
    )

-- the task name of the result: the code's own for a system task, else the job's
abbrev pub result_task : CronJob → String → String
result_task c of_job =
    if is_dream c then "dream_review" else if is_heartbeat c then "heartbeat_check" else of_job

unfoldable pub request_of : CronEnv → CronJob → ℕ → String × Fields → JobRequest
unfolding cron_enqueue_key
request_of env c now (task, payload) = record {
  task_name = task;
  payload = obj payload;
  triggered_by = f_string ("cron:" ∷ c.name ∷ []);
  cron_job_id = some c.id;
  idempotency_key = cron_enqueue_key env c now;
  max_attempts = 3;
}

-- the body of the `try`
abbrev pub enqueue_task : CronEnv → CronJob → ℕ → Result (String × Fields) → Db → Result Job × Db
enqueue_task env c now (err e) db = (err e, db)
enqueue_task env c now (ok task) db = enqueue_background_job env.jobs (request_of env c now task) db

-- the row after `except Exception`, and after `else`
abbrev pub failed_cron : CronJob → ℕ → PyError → CronJob
failed_cron c now e = record c {
  last_status = "failed";
  failure_count = c.failure_count + 1;
  last_result = field "error" (string (str_exc e)) end;
  backoff_until = some (now + cron_backoff_seconds (c.failure_count + 1) * second);
}

abbrev pub succeeded_cron : CronJob → String → String → String → CronJob
succeeded_cron c key task job_id = record c {
  last_status = "succeeded";
  last_result =
      field "mode" (string "enqueue")
        (field "task_name" (string task) (field "job_id" (string job_id) end));
  backoff_until = none;
  last_enqueue_key = key;
}

-- `finally`: the run is counted, and the next one is computed, which may raise.
unfoldable pub finally_next : CronEnv → CronJob → ℕ → Result ℕ → Exec CronDb (Unit {0})
unfolding put_cron
finally_next env c now (ok next) s = (
  ok tt,
  save (record c { last_run_at = some now; run_count = c.run_count + 1; next_run_at = some next })
      s,
)
finally_next env c now (err e) s =
    (err e, save (record c { last_run_at = some now; run_count = c.run_count + 1 }) s)

unfoldable pub settle_cron :
    CronEnv → CronJob → ℕ → Result Job × Db → CronDb → Result (Unit {0}) × CronDb
unfolding finally_next cron_backoff_seconds
settle_cron env c now (err e, db) s =
    finally_next env (failed_cron c now e) now (env.compute_next_run c.cron_expr c.timezone now) (
      tell "cron.job.failed" warning
        (field "job_id" (string c.id)
          (field "name" (string c.name) (field "error" (string (str_exc e)) end)))
        (record s { db = db }))
settle_cron env c now (ok job, db) s =
    finally_next env
      (succeeded_cron c (cron_enqueue_key env c now) (result_task c job.task_name) job.id) now
      (env.compute_next_run c.cron_expr c.timezone now)
      (tell "cron.job.succeeded" info
        (field "job_id" (string c.id)
          (field "name" (string c.name) (field "mode" (string "enqueue") end)))
        (record s { db = db }))

-- `_run_job`
unfoldable pub run_cron_job : CronEnv → CronJob → ℕ → Exec CronDb (Unit {0})
unfolding settle_cron enqueue_background_job request_of task_of
run_cron_job env c now s =
    let told =
      tell "cron.job.started" info (field "job_id" (string c.id) (field "name" (string c.name) end))
        s in
    settle_cron env c now (enqueue_task env c now (task_of env c) told.db) told

-- `_dispatch_retryable_jobs`, over the jobs that are ready
unfoldable pub reschedule_each : Env → List Job → Exec Db (Unit {0})
unfolding reschedule_job pure
reschedule_each env [] = pure tt
reschedule_each env (job ∷ jobs) = do
  reschedule_job env job (f_string ("retry:" ∷ str job.attempt_count ∷ []))
  reschedule_each env jobs

abbrev pub is_due : Option ℕ → ℕ → Bool
is_due none now = true
is_due (some t) now = leb t now

-- the order of the due jobs: by the next run, none first, then by name
abbrev pub time_before : Option ℕ → Option ℕ → Ordering
time_before none none = Ordering.eq
time_before none (some b) = Ordering.lt
time_before (some a) none = Ordering.gt
time_before (some a) (some b) = compare a b

abbrev pub not_after : Ordering → Ordering → Bool
not_after Ordering.lt names = true
not_after Ordering.eq Ordering.gt = false
not_after Ordering.eq _ = true
not_after Ordering.gt names = false

abbrev pub runs_before : CronJob → CronJob → Bool
runs_before a b = not_after (time_before a.next_run_at b.next_run_at) (compare_text a.name b.name)

-- the query of `tick`
unfoldable pub due_jobs : ℕ → ℕ → List CronJob → List CronJob
due_jobs now limit crons = take limit (
    sort_by runs_before
      (keep (λ c. c.enabled && (is_due c.next_run_at now && is_due c.backoff_until now)) crons))

unfoldable pub run_each : CronEnv → ℕ → List CronJob → Exec CronDb (Unit {0})
unfolding run_cron_job pure
run_each env now [] = pure tt
run_each env now (c ∷ cs) = do run_cron_job env c now; run_each env now cs

-- an action on the jobs' tables
abbrev pub on_db : {A : Type 0} → Exec Db A → Exec CronDb A
on_db m s = let (r, db) = m s.db in (r, record s { db = db })

abbrev pub counted : ℕ → Result (Unit {0}) → CronDb → Result ℕ × CronDb
counted n (ok _) s = (ok n, s)
counted n (err e) s = (err e, s)

-- `tick` inside its session
unfoldable pub tick_body : CronEnv → ℕ → ℕ → Exec CronDb ℕ
unfolding dispatch_outbox reschedule_each ready_for_retry due_jobs run_each pure
tick_body env now limit = do
  on_db (λ db. let (report, after) = dispatch_outbox env.jobs 100 db in (ok tt, after))
  on_db (λ db. reschedule_each env.jobs (ready_for_retry now 100 db) db)
  λ s.
      let due = due_jobs now limit s.crons in
      let (r, after) = run_each env now due s in counted (length due) r after

-- the end of the session: commit, or roll the tables back and raise
unfoldable pub end_tick : Env → CronDb → Result ℕ × CronDb → Result ℕ × CronDb
unfolding finish
end_tick env before (ok n, s) =
    let (r, db) = finish env before.db (ok n, s.db) in (r, record s { db = db })
end_tick env before (err e, s) =
    let (r, db) = finish env before.db (err e, s.db) in (r, record before { db = db })

-- `tick`
unfoldable pub tick : CronEnv → ℕ → ℕ → CronDb → Result ℕ × CronDb
unfolding tick_body end_tick
tick env now limit s = end_tick env.jobs s (
    tick_body env now limit
      (record s { db = record (s.db) { pending_ids = []; listener = false } }))
