-- ===== src/Jobs/Tests.antt =====
-- The theorems on jobs at concrete inputs, and runs of the service.
use soul_claw.Base.{
  true, false, some, value_error, [], ◌∷◌, true, false, ◌≡◌, refl, List, [], ◌∷◌, ◌++◌, none, some,
  Exec, ok, err, PyError, other_error, Json, obj, end, f_string, is_empty, str,
}
use soul_claw.Jobs.State.{
  queued, Job, Db, Env, OutboxMessage, IdempotencyRecord, find_job, is_terminal,
}
use soul_claw.Jobs.Idempotency.{find_record, job_to_response}
use soul_claw.Jobs.Service.{JobRequest, new_job, should_run}
use soul_claw.Jobs.Outbox.{dispatch_outbox_message, new_message}
use soul_claw.Jobs.Enqueue.{enqueue_background_job}
use soul_claw.Jobs.Worker.{returned, raised, run_job}
use soul_claw.Jobs.Attempts.{FailedRow, Delivered, run_job_fails}
use soul_claw.Jobs.Dispatch.{Attempted}
use soul_claw.Jobs.Stored.{Dispatched, find_row, dispatch_outbox_message-Dispatched}
use soul_claw.Jobs.Success.{SucceededRow, run_job_succeeds}
use soul_claw.Jobs.Once.{enqueue_once}

abbrev env : Env
env = record {
  now = 1000;
  uuid4 = λ n. f_string ("id-" ∷ str n ∷ []);
  stable_hash = λ j. "digest";
  broker = λ d. none;
  trace_id = "t";
  request_id = "r";
}

abbrev broken : Env
broken = record env { broker = λ d. some (other_error "no broker") }

abbrev request : JobRequest
request = record {
  task_name = "wiki_lint";
  payload = obj end;
  triggered_by = "cron:lint";
  cron_job_id = none;
  idempotency_key = "";
  max_attempts = 2;
}

abbrev empty : Db
empty = record {
  jobs = [];
  outbox = [];
  idempotency = [];
  sink = record { attached = true; runtime = []; audits = [] };
  hooks = true;
  pending_ids = [];
  listener = false;
  sent = [];
  supply = 0;
}

abbrev job : Job
job = new_job env "id-7" (record request { idempotency_key = "k" })

abbrev message : OutboxMessage
message = new_message "id-8" job "q" "dispatch:k:enqueue:0"

abbrev db : Db
db = record empty { jobs = job ∷ []; outbox = message ∷ [] }

abbrev boom : PyError
boom = other_error "boom"

enqueue_once_example :
    (j : Job) × ((enqueue_background_job env request empty).0 ≡ ok j)
    × ((enqueue_background_job env request empty).1.jobs ≡ [] ++ (j ∷ []))
    × ((enqueue_background_job env request empty).1.sent ≡ [])
    × (j.status ≡ queued)
    × (j.task_name ≡ "wiki_lint")
    × (j.payload ≡ obj end)
    × (enqueue_background_job env request (enqueue_background_job env request empty).1
        ≡ (ok j, (enqueue_background_job env request empty).1))
unfolding find_record find_job
enqueue_once_example = enqueue_once env env request empty refl refl refl refl refl

run_job_fails_example :
    ((run_job env "w" "id-7" (λ s. (err boom, s)) db).0 ≡ raised boom)
    × (row : Job) × (find_job "id-7" (run_job env "w" "id-7" (λ s. (err boom, s)) db).1.jobs
        ≡ some row)
    × FailedRow env boom job row
unfolding find_job should_run new_job is_terminal
run_job_fails_example =
    run_job_fails env "id-7" "w" (λ s. (err boom, s)) db job boom refl refl (λ s. refl)

abbrev thrice : List Delivered
thrice =
    record { env = env; owner = "w"; error = boom }
    ∷ record { env = record env { now = 5000000 }; owner = "v"; error = boom }
    ∷ record { env = record env { now = 9000000 }; owner = "w"; error = boom }
    ∷ []

abbrev outbox_db : Db
outbox_db = record db { outbox = message ∷ [] }

dispatch_outbox_message-Dispatched_example :
    let (a, after) = dispatch_outbox_message broken message outbox_db in
    (true ≡ true
      → Attempted broken message outbox_db a after × Dispatched broken message outbox_db a after)
    × (true ≡ false
        → (a.raised ≡ some (value_error "unsupported outbox topic: celery.dispatch"))
          × (a.message ≡ message)
          × (after ≡ outbox_db))
unfolding new_message find_row
dispatch_outbox_message-Dispatched_example =
    dispatch_outbox_message-Dispatched broken message outbox_db refl

abbrev note : Exec Db Json
note s = (ok (obj end), s)

run_job_succeeds_example :
    let after = (run_job env "w" "id-7" note db).1 in
    ((run_job env "w" "id-7" note db).0 ≡ returned (obj end))
    × (row : Job) × (find_job "id-7" after.jobs ≡ some row)
    × SucceededRow env (obj end) job row
    × (is_empty job.idempotency_key ≡ false
        → (rec : IdempotencyRecord) × (find_record "background_job" job.idempotency_key
              after.idempotency
            ≡ some rec)
          × (rec.status ≡ "succeeded")
          × (rec.response ≡ job_to_response row))
unfolding find_job should_run new_job is_terminal
run_job_succeeds_example =
    run_job_succeeds env "id-7" "w" note db job (obj end) refl refl (λ s. refl) (λ s. refl)
      (λ s. refl)
