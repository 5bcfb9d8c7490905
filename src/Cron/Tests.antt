-- ===== src/Cron/Tests.antt =====
-- The theorems on scheduled jobs at a concrete job.
use soul_claw.Base.{
  ◌++◌, ◌+◌, true, ◌≡◌, refl, [], ◌∷◌, none, ok, string, end, field, f_string, str, false,
  field_get,
}
use soul_claw.Cron.Scheduler.{CronJob, CronEnv, CronDb, run_cron_job}
use soul_claw.Jobs.State.{Job}
use soul_claw.Cron.Scheduler.{minute_of, task_of}
use soul_claw.Jobs.Idempotency.{find_record}
use soul_claw.Jobs.State.{find_job}
use soul_claw.Cron.Minute.{one_job_a_minute}

abbrev env : CronEnv
env = record {
  jobs = record {
    now = 1000;
    uuid4 = λ n. f_string ("id-" ∷ str n ∷ []);
    stable_hash = λ j. "digest";
    broker = λ d. none;
    trace_id = "t";
    request_id = "r";
  };
  compute_next_run = λ expr timezone now. ok (now + 60000000);
  enqueue_digest = λ id name minute metadata. f_string (name ∷ "@" ∷ str minute ∷ []);
  int_of_text = λ s. none;
}

abbrev lint : CronJob
lint = record {
  id = "cron-1";
  name = "lint";
  cron_expr = "* * * * *";
  timezone = "UTC";
  enabled = true;
  last_run_at = none;
  next_run_at = none;
  backoff_until = none;
  last_status = "never_run";
  last_result = end;
  run_count = 0;
  failure_count = 0;
  last_enqueue_key = "";
  metadata = field "task_name" (string "wiki_lint") end;
}

abbrev crons : CronDb
crons = record {
  crons = lint ∷ [];
  db = record {
    jobs = [];
    outbox = [];
    idempotency = [];
    sink = record { attached = true; runtime = []; audits = [] };
    hooks = true;
    pending_ids = [];
    listener = false;
    sent = [];
    supply = 0;
  };
}

one_job_a_minute_example :
    let first = (run_cron_job env lint 90000000 crons).1 in
    (job : Job) × (first.db.jobs ≡ [] ++ (job ∷ []))
    × ((run_cron_job env lint 95000000 first).1.db.jobs ≡ first.db.jobs)
unfolding minute_of find_record find_job task_of field_get
one_job_a_minute_example =
    one_job_a_minute env env lint lint 90000000 95000000 crons ("wiki_lint", end) refl refl refl
      refl refl refl refl refl refl refl refl refl
