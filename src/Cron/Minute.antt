-- ===== src/Cron/Minute.antt =====
-- A scheduled job that is run twice in one minute.
use soul_claw.Base.{
  String, Fields, ok, ℕ, true, ◌≡◌, refl, ap, ◌∙◌, [], ◌∷◌, ◌++◌, none, ok, err, Result, info,
  field, string, end,
}
use soul_claw.Jobs.State.{Job, Db, find_job}
use soul_claw.Jobs.Idempotency.{find_record}
use soul_claw.Jobs.Service.{JobRequest, find_by_key}
use soul_claw.Jobs.Enqueue.{enqueue_background_job, keyed}
use soul_claw.Jobs.Once.{enqueue_absorbed}
use soul_claw.Cron.Scheduler.{
  CronJob, CronEnv, CronDb, tell, minute_of, cron_enqueue_key, int_or, task_of, request_of,
  finally_next, settle_cron, run_cron_job,
}

finally_next-db :
    (env : CronEnv) (c : CronJob) (now : ℕ) (next : Result ℕ) (s : CronDb)
    → (finally_next env c now next s).1.db ≡ s.db
unfolding finally_next
finally_next-db env c now (ok next) s = refl
finally_next-db env c now (err e) s = refl

settle_cron-tables :
    (env : CronEnv) (c : CronJob) (now : ℕ) (r : Result Job) (db : Db) (s : CronDb)
    → ((settle_cron env c now (r, db) s).1.db.jobs ≡ db.jobs)
      × ((settle_cron env c now (r, db) s).1.db.idempotency ≡ db.idempotency)
unfolding settle_cron
settle_cron-tables env c now (ok job) db s = rw finally_next-db (refl, refl)
settle_cron-tables env c now (err e) db s = rw finally_next-db (refl, refl)

same_task :
    (env later_env : CronEnv) (c again : CronJob)
    → later_env.int_of_text ≡ env.int_of_text
    → again.metadata ≡ c.metadata
    → task_of later_env again ≡ task_of env c
unfolding task_of int_or
same_task env later_env c again g d = rw (g, d) refl

same_request :
    (env later_env : CronEnv) (c again : CronJob) (now later : ℕ) (task : String × Fields)
    → later_env.enqueue_digest ≡ env.enqueue_digest
    → again.id ≡ c.id
    → again.name ≡ c.name
    → again.metadata ≡ c.metadata
    → minute_of later ≡ minute_of now
    → request_of later_env again later task ≡ request_of env c now task
unfolding request_of cron_enqueue_key
same_request env later_env c again now later task g i n d e = rw (g, i, n, d, e) refl

abbrev pub announced : CronJob → CronDb → CronDb
announced c s =
    tell "cron.job.started" info (field "job_id" (string c.id) (field "name" (string c.name) end)) s

-- Two runs of a scheduled job in one minute, one after the other, add one job: the first adds it, and
-- the second finds it, whatever the first did to the job's row besides its id, name and metadata. The
-- numbers in its metadata can be read, and none of its keys and ids is taken before.
pub one_job_a_minute :
    (env later_env : CronEnv) (c again : CronJob) (now later : ℕ) (s : CronDb)
    (task : String × Fields)
    → s.db.hooks ≡ true
    → later_env.jobs.stable_hash ≡ env.jobs.stable_hash
    → later_env.enqueue_digest ≡ env.enqueue_digest
    → later_env.int_of_text ≡ env.int_of_text
    → again.id ≡ c.id
    → again.name ≡ c.name
    → again.metadata ≡ c.metadata
    → minute_of later ≡ minute_of now
    → task_of env c ≡ ok task
    → find_record "background_job"
        (keyed env.jobs (request_of env c now task)).idempotency_key
        s.db.idempotency
      ≡ none
    → find_by_key (keyed env.jobs (request_of env c now task)).idempotency_key s.db.jobs ≡ none
    → find_job (env.jobs.uuid4 s.db.supply) s.db.jobs ≡ none
    → let first = (run_cron_job env c now s).1 in
      (job : Job) × (first.db.jobs ≡ s.db.jobs ++ (job ∷ []))
      × ((run_cron_job later_env again later first).1.db.jobs ≡ first.db.jobs)
unfolding run_cron_job
one_job_a_minute env later_env c again now later s task hooks hash digest ints i n d e t f fj fid =
    let r = request_of env c now task in
    let (outcome, db) = enqueue_background_job env.jobs r (announced c s).db in
    let first = (settle_cron env c now (outcome, db) (announced c s)).1 in
    let (jobs, records) = settle_cron-tables env c now outcome db (announced c s) in
    let (job, added, absorbed) =
      enqueue_absorbed env.jobs later_env.jobs r (announced c s).db hooks hash f fj fid
        (announced again first).db jobs records in
    let (r2, db2) =
      enqueue_background_job later_env.jobs (request_of later_env again later task)
        (announced again first).db in
    let (jobs2, _) = settle_cron-tables later_env again later r2 db2 (announced again first) in
    let same = same_request env later_env c again now later task digest i n d e in
    let t2 : task_of later_env again ≡ ok task = same_task env later_env c again ints d ∙ t in
    rw (t, t2)
      (
        job,
        jobs ∙ added,
        jobs2
            ∙ ap
                (λ (q : JobRequest).
                  (enqueue_background_job later_env.jobs q (announced again first).db).1.jobs)
                same
            ∙ ap (λ (p : Result Job × Db). p.1.jobs) absorbed,
      )
