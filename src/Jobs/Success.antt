-- ===== src/Jobs/Success.antt =====
-- What a successful execution leaves: the row of the job and the record of its key.
use soul_claw.Base.{
  ◌+◌, String, true, false, ◌≡◌, refl, List, [], ◌∷◌, none, some, arith, Exec, ok, Json, eq_iff,
  is_empty, inl, inr, Option-cases, ◌∙◌,
}
use soul_claw.Jobs.State.{succeeded, Job, Db, Env, IdempotencyRecord, find_job, put_job}
use soul_claw.Jobs.Idempotency.{find_record, put_record, complete_idempotency, job_to_response}
use soul_claw.Jobs.Service.{should_run, started as started_row, mark_succeeded, succeeded_with}
use soul_claw.Jobs.Enqueue.{session_scope}
use soul_claw.Jobs.Worker.{returned, run_job, settle_run, begin}
use soul_claw.Jobs.Rows.{find_record-append, id-find_job}
use soul_claw.Jobs.Effects.{mark_succeeded-Writes}
use soul_claw.Jobs.Runs.{opened, scope_ok, begin_scope}

find_record-put_record :
    (scope key : String) (rs : List IdempotencyRecord) (old rec : IdempotencyRecord)
    → find_record scope key rs ≡ some old
    → rec.scope ≡ scope
    → rec.idempotency_key ≡ key
    → find_record scope key (put_record rec rs) ≡ some rec
unfolding find_record put_record
find_record-put_record scope key [] old rec h e e' = ground arith
find_record-put_record scope key (r ∷ rs) old rec h e e' = ground (
  arith,
  eq_iff r.scope scope,
  eq_iff r.scope rec.scope,
  eq_iff r.idempotency_key key,
  eq_iff r.idempotency_key rec.idempotency_key,
  eq_iff rec.scope scope,
  eq_iff rec.idempotency_key key,
  find_record-put_record scope key rs old rec,
)

find_record_keys :
    (scope key : String) (rs : List IdempotencyRecord) (r : IdempotencyRecord)
    → find_record scope key rs ≡ some r
    → (r.scope ≡ scope) × (r.idempotency_key ≡ key)
unfolding find_record
find_record_keys scope key [] r h = ground arith
find_record_keys scope key (q ∷ rs) r h =
    ground
      (arith, eq_iff q.scope scope, eq_iff q.idempotency_key key, find_record_keys scope key rs r)

-- Completing a key files the response and the status under it, whether or not it was filed before.
complete_lem :
    (scope key status : String) (response : Json) (db : Db)
    → is_empty key ≡ false
    → (rec : IdempotencyRecord) × (find_record scope key
          (complete_idempotency scope key response status db).1.idempotency
        ≡ some rec)
      × (rec.status ≡ status)
      × (rec.response ≡ response)
unfolding complete_idempotency
complete_lem scope key status response db k =
    elim (Option-cases (find_record scope key db.idempotency)) [
      | inl missing ↦ (
        record {
          scope = scope;
          idempotency_key = key;
          request_hash = "";
          status = status;
          response = response;
        },
        ground (
          arith,
          find_record-append scope key db.idempotency (record {
            scope = scope;
            idempotency_key = key;
            request_hash = "";
            status = status;
            response = response;
          }),
        ),
        refl,
        refl,
      )
      | inr (old, found) ↦ (
        record old { status = status; response = response },
        ground (
          arith,
          find_record_keys scope key db.idempotency old,
          find_record-put_record scope key db.idempotency old
              (record old { status = status; response = response }),
        ),
        refl,
        refl,
      )
    ]

mark_succeeded_record :
    (env : Env) (id : String) (v : Json) (db : Db) (job : Job)
    → find_job id db.jobs ≡ some job
    → is_empty job.idempotency_key ≡ false
    → (rec : IdempotencyRecord) × (find_record "background_job" job.idempotency_key
          (mark_succeeded env id v db).1.idempotency
        ≡ some rec)
      × (rec.status ≡ "succeeded")
      × (rec.response ≡ job_to_response (succeeded_with env.now v job))
unfolding mark_succeeded succeeded_with
mark_succeeded_record env id v db job found k =
    let row : Job = succeeded_with env.now v job in
    let (rec, there, status, response) =
      complete_lem "background_job" job.idempotency_key "succeeded" (job_to_response row)
        (record db { jobs = put_job row db.jobs }) k in
    (rec, ground (arith, there), status, response)

settle_ok :
    (env : Env) (id : String) (v : Json) (s : Db) (job : Job)
    → find_job id s.jobs ≡ some job
    → settle_run env job (ok v, s) ≡ (returned v, opened (mark_succeeded env id v (opened s)).1)
unfolding settle_run
settle_ok env id v s job found = ground (
  arith,
  id-find_job id s.jobs job found,
  mark_succeeded-Writes env id (opened s) job found v,
  scope_ok env (mark_succeeded env id v) s (succeeded_with env.now v job),
)

-- The state that the last transaction starts from, and the whole execution as that transaction.
run_job_ok :
    (env : Env) (id owner : String) (body : Exec Db Json) (db : Db) (job : Job) (v : Json)
    → find_job id db.jobs ≡ some job
    → should_run job env.now ≡ true
    → ((s : Db) → (body s).0 ≡ ok v)
    → ((s : Db) → find_job id (body s).1.jobs ≡ find_job id s.jobs)
    → ((s : Db) → (body s).1.listener ≡ s.listener)
    → (s : Db) × (find_job id s.jobs ≡ some (started_row env.now owner job))
      × (run_job env owner id body db ≡ (returned v, opened (mark_succeeded env id v (opened s)).1))
unfolding run_job
run_job_ok env id owner body db job v found due returns keeps quiet =
    let mid : Db = (session_scope env (begin env owner id) db).1 in
    let after : Db = opened (body (opened mid)).1 in
    let row : Job = started_row env.now owner job in
    let (begun, there) = begin_scope env id owner db job found due in
    let kept : find_job id after.jobs ≡ some row = keeps (opened mid) ∙ there in
    (
      after,
      kept,
      ground (
        arith,
        begun,
        scope_ok env body mid v (returns (opened mid)) (quiet (opened mid)),
        settle_ok env id v after row kept,
      ),
    )

-- What a task that returns `v` and leaves the row of its own job alone makes of that row.
pub record SucceededRow (env : Env) (v : Json) (job row : Job) : Type 0 where
  pub status : row.status ≡ succeeded
  pub attempt : row.attempt_count ≡ job.attempt_count + 1
  pub result : row.result ≡ v
  pub unlocked : (row.locked_at ≡ none) × (row.lock_owner ≡ "")
  pub settled : (row.next_retry_at ≡ none) × (row.error ≡ "") × (row.finished_at ≡ some env.now)

-- A due job whose task returns `v`, where the task leaves the row of the job and the dispatch queue
-- of its session alone: the call returns `v`, and the row is counted, unlocked and succeeded. A job
-- with an idempotency key has its response filed under the key as succeeded.
pub run_job_succeeds :
    (env : Env) (id owner : String) (body : Exec Db Json) (db : Db) (job : Job) (v : Json)
    → find_job id db.jobs ≡ some job
    → should_run job env.now ≡ true
    → ((s : Db) → (body s).0 ≡ ok v)
    → ((s : Db) → find_job id (body s).1.jobs ≡ find_job id s.jobs)
    → ((s : Db) → (body s).1.listener ≡ s.listener)
    → let after = (run_job env owner id body db).1 in
      ((run_job env owner id body db).0 ≡ returned v)
      × (row : Job) × (find_job id after.jobs ≡ some row)
      × SucceededRow env v job row
      × (is_empty job.idempotency_key ≡ false
          → (rec : IdempotencyRecord) × (find_record "background_job" job.idempotency_key
                after.idempotency
              ≡ some rec)
            × (rec.status ≡ "succeeded")
            × (rec.response ≡ job_to_response row))
unfolding started_row succeeded_with
run_job_succeeds env id owner body db job v found due returns keeps quiet =
    let (s, there, run) = run_job_ok env id owner body db job v found due returns keeps quiet in
    let row : Job = started_row env.now owner job in
    rw run (
      refl,
      succeeded_with env.now v row,
      (mark_succeeded-Writes env id (opened s) row there v).written,
      record {
        status = refl;
        attempt = refl;
        result = refl;
        unlocked = (refl, refl);
        settled = (refl, refl, refl);
      },
      mark_succeeded_record env id v (opened s) row there,
    )
