-- ===== src/Jobs/Once.antt =====
-- Enqueueing a request more than once.
use soul_claw.Base.{
  ◌+◌, String, true, false, ◌≡◌, refl, ◌≢◌, List, [], ◌∷◌, ◌++◌, none, some, arith, ok, err,
  value_error, str_eq, eq_iff, if◌then◌else◌, is_empty, pure, Bool-cases, inl, inr, f_string,
  or_else, str, Option-cases, ap,
}
use Prim.Native.String.{count, ◌++◌ as concat}
use text.Mathlib.TextLemmas.{length-append}
use soul_claw.Jobs.State.{
  queued, Job, Db, Env, find_job, put_job, get_row, emit_to, audit_to, OutboxMessage,
  IdempotencyRecord, fresh_id,
}
use soul_claw.Jobs.Idempotency.{find_record, idempotency_status, status_of, processing}
use soul_claw.Jobs.Service.{
  JobRequest, find_by_key, new_job, insert_job, create, replay_or_insert, add_job,
}
use soul_claw.Jobs.Outbox.{find_message, new_message, schedule_dispatch}
use soul_claw.Jobs.Enqueue.{
  request_fields, keyed, job_idempotency_key, enqueue_keyed, enqueue_judged, existing_or_create,
  create_and_dispatch, enqueue_background_job,
}
use soul_claw.Jobs.Rows.{find_record-append}

find_job-append :
    (id : String) (js : List Job) (j : Job)
    → find_job id js ≡ none
    → find_job id (js ++ (j ∷ [])) ≡ (if str_eq j.id id then some j else none)
unfolding find_job
find_job-append id [] j h = refl
find_job-append id (k ∷ js) j h = ground (arith, find_job-append id js j)

put_job-append :
    (js : List Job) (j row : Job)
    → find_job row.id js ≡ none
    → j.id ≡ row.id
    → put_job row (js ++ (j ∷ [])) ≡ js ++ (row ∷ [])
unfolding find_job put_job
put_job-append [] j row h e = ground (arith, eq_iff j.id row.id)
put_job-append (k ∷ js) j row h e = ground (arith, put_job-append js j row)

find_by_key-append :
    (key : String) (js : List Job) (j : Job)
    → find_by_key key js ≡ none
    → j.idempotency_key ≡ key
    → find_by_key key (js ++ (j ∷ [])) ≡ some j
find_by_key-append key [] j h e = ground (arith, eq_iff j.idempotency_key key)
find_by_key-append key (k ∷ js) j h e = ground (arith, find_by_key-append key js j)

-- A key that was filed for another request is refused, and nothing changes.
pub enqueue_conflict :
    (env : Env) (r : JobRequest) (db : Db) (filed : IdempotencyRecord)
    → is_empty r.idempotency_key ≡ false
    → find_record "background_job" r.idempotency_key db.idempotency ≡ some filed
    → is_empty filed.request_hash ≡ false
    → is_empty (env.stable_hash (request_fields r)) ≡ false
    → filed.request_hash ≢ env.stable_hash (request_fields r)
    → enqueue_background_job env r db ≡ (
      err (
          value_error (
            f_string ("idempotency key reused with different payload: " ∷ r.idempotency_key ∷ []))),
      db,
    )
unfolding enqueue_background_job
enqueue_conflict env r db filed k f e e' ne =
    ground (arith, eq_iff filed.request_hash (env.stable_hash (request_fields r)))

-- A key that was filed for the same request, and whose job is there, returns that job and changes
-- nothing.
enqueue_again :
    (env : Env) (r : JobRequest) (db : Db) (filed : IdempotencyRecord) (job : Job)
    → is_empty r.idempotency_key ≡ false
    → find_record "background_job" r.idempotency_key db.idempotency ≡ some filed
    → filed.request_hash ≡ env.stable_hash (request_fields r)
    → find_by_key r.idempotency_key db.jobs ≡ some job
    → enqueue_keyed env r db ≡ (ok job, db)
unfolding enqueue_keyed
enqueue_again env r db filed job k f e found =
    ground (arith, eq_iff filed.request_hash (env.stable_hash (request_fields r)))

abbrev dispatch_key : Job → String → String
dispatch_key job reason = f_string (
    "dispatch:"
    ∷ or_else job.idempotency_key (f_string ("job:" ∷ job.id ∷ []))
    ∷ ":"
    ∷ reason
    ∷ ":"
    ∷ str job.attempt_count
    ∷ [])

-- Scheduling the job that was added last writes its two columns in place and stores a message for
-- the outbox; nothing is sent before the commit.
abbrev enqueued : String → Job → Job
enqueued q job = record job { queue_id = q; status = queued }

schedule_new :
    (env : Env) (db : Db) (js : List Job) (job : Job) (reason : String)
    → db.hooks ≡ true
    → db.jobs ≡ js ++ (job ∷ [])
    → find_job job.id js ≡ none
    → let (r, after) = schedule_dispatch env job reason db in
      (after.jobs ≡ js ++ (enqueued (env.uuid4 db.supply) job ∷ []))
      × (after.idempotency ≡ db.idempotency)
      × (after.sent ≡ db.sent)
      × (m : OutboxMessage) × (r ≡ ok m)
unfolding schedule_dispatch
schedule_new env db js job reason hooks here new =
    elim (Option-cases (find_message (dispatch_key job reason) db.outbox)) [
      | inl unused ↦ (
        ground (arith, facts),
        ground (arith, facts),
        ground (arith, facts),
        new_message (env.uuid4 (db.supply + 1)) (enqueued q job) q (dispatch_key job reason),
        ground (arith, facts),
      )
      | inr (m, used) ↦ (
        ground (arith, facts),
        ground (arith, facts),
        ground (arith, facts),
        m,
        ground (arith, facts),
      )
    ]
  where
    q : String
    q = env.uuid4 db.supply

    facts :
        (find_job job.id db.jobs ≡ some job)
        × (put_job (enqueued q job) db.jobs ≡ js ++ (enqueued q job ∷ []))
    facts = (
      rw here (rw (find_job-append job.id js job new) (ground (arith, eq_iff job.id job.id))),
      rw here (put_job-append js job (enqueued q job) new refl),
    )

-- The first enqueue of a key adds one queued job, one record, and sends nothing yet.
enqueue_first :
    (env : Env) (r : JobRequest) (db : Db)
    → db.hooks ≡ true
    → is_empty r.idempotency_key ≡ false
    → find_record "background_job" r.idempotency_key db.idempotency ≡ none
    → find_by_key r.idempotency_key db.jobs ≡ none
    → find_job (env.uuid4 db.supply) db.jobs ≡ none
    → let job = enqueued (env.uuid4 (db.supply + 1)) (new_job env (env.uuid4 db.supply) r) in
      let after = (enqueue_keyed env r db).1 in
      ((enqueue_keyed env r db).0 ≡ ok job)
      × (after.jobs ≡ db.jobs ++ (job ∷ []))
      × (after.idempotency
          ≡ db.idempotency
            ++ (processing "background_job" r.idempotency_key (env.stable_hash (request_fields r))
                ∷ []))
      × (after.sent ≡ db.sent)
unfolding enqueue_keyed idempotency_status enqueue_judged existing_or_create create_and_dispatch
    create replay_or_insert insert_job add_job fresh_id emit_to audit_to pure get_row status_of
    new_job
enqueue_first env r db hooks k f fj fid =
    let job0 : Job = new_job env (env.uuid4 db.supply) r in
    let d1 : Db = record db {
      idempotency =
          db.idempotency
          ++ (processing "background_job" r.idempotency_key (env.stable_hash (request_fields r))
              ∷ []);
    } in
    let d2 : Db = (insert_job env r d1).1 in
    ground (
      arith,
      schedule_new env d2 db.jobs job0 "enqueue" hooks refl fid,
      find_job-append job0.id db.jobs (enqueued (env.uuid4 (db.supply + 1)) job0) fid,
      eq_iff job0.id job0.id,
    )

computed_key-not_empty : (env : Env) (r : JobRequest) → is_empty (job_idempotency_key env r) ≡ false
unfolding job_idempotency_key
computed_key-not_empty env r = elim (Bool-cases (is_empty key)) [
  | inl e ↦ absurd (omega (arith, ap count ((eq_iff key "").0 e), length-append "job:" rest))
  | inr e ↦ e
]
  where
    rest : String
    rest = f_string (r.task_name ∷ ":" ∷ env.stable_hash (request_fields r) ∷ [])

    key : String
    key = concat "job:" rest

keyed-not_empty : (env : Env) (r : JobRequest) → is_empty (keyed env r).idempotency_key ≡ false
unfolding keyed
keyed-not_empty env r = ground (arith, computed_key-not_empty env r)

same_key :
    (env env' : Env) (r : JobRequest)
    → env'.stable_hash ≡ env.stable_hash
    → keyed env' r ≡ keyed env r
unfolding keyed job_idempotency_key
same_key env env' r e = rw e

-- A request that is enqueued for the first time makes one queued job, with the request's task and
-- payload, at the end of the table, and sends nothing before the commit. Enqueueing the same request
-- again, at any later time, returns that job and changes nothing at all. The key may be left out.
pub enqueue_once :
    (env env' : Env) (r : JobRequest) (db : Db)
    → db.hooks ≡ true
    → env'.stable_hash ≡ env.stable_hash
    → find_record "background_job" (keyed env r).idempotency_key db.idempotency ≡ none
    → find_by_key (keyed env r).idempotency_key db.jobs ≡ none
    → find_job (env.uuid4 db.supply) db.jobs ≡ none
    → (job : Job) × ((enqueue_background_job env r db).0 ≡ ok job)
      × ((enqueue_background_job env r db).1.jobs ≡ db.jobs ++ (job ∷ []))
      × ((enqueue_background_job env r db).1.sent ≡ db.sent)
      × (job.status ≡ queued)
      × (job.task_name ≡ r.task_name)
      × (job.payload ≡ r.payload)
      × (enqueue_background_job env' r (enqueue_background_job env r db).1
          ≡ (ok job, (enqueue_background_job env r db).1))
unfolding enqueue_background_job
enqueue_once env env' r db hooks hash f fj fid =
    let k : JobRequest = keyed env r in
    let job : Job = enqueued (env.uuid4 (db.supply + 1)) (new_job env (env.uuid4 db.supply) k) in
    let (res, rows, recs, out) = enqueue_first env k db hooks (keyed-not_empty env r) f fj fid in
    let filed : IdempotencyRecord =
      processing "background_job" k.idempotency_key (env.stable_hash (request_fields k)) in
    let record_there : find_record "background_job" k.idempotency_key
          (enqueue_keyed env k db).1.idempotency
        ≡ some filed =
      rw recs
        (find_record-append "background_job" k.idempotency_key db.idempotency filed f refl refl) in
    let job_there : find_by_key k.idempotency_key (enqueue_keyed env k db).1.jobs ≡ some job =
      rw rows (find_by_key-append k.idempotency_key db.jobs job fj (unfold new_job in refl)) in
    (
      job,
      res,
      rows,
      out,
      refl,
      unfold new_job keyed in ground arith,
      unfold new_job keyed in ground arith,
      rw (same_key env env' r hash) (
          enqueue_again env' k (enqueue_keyed env k db).1 filed job (keyed-not_empty env r)
            record_there (rw hash refl) job_there),
    )

-- The first enqueue of a request, and the request again on any tables with the same jobs and records
pub enqueue_absorbed :
    (env env' : Env) (r : JobRequest) (db : Db)
    → db.hooks ≡ true
    → env'.stable_hash ≡ env.stable_hash
    → find_record "background_job" (keyed env r).idempotency_key db.idempotency ≡ none
    → find_by_key (keyed env r).idempotency_key db.jobs ≡ none
    → find_job (env.uuid4 db.supply) db.jobs ≡ none
    → (later : Db) → later.jobs ≡ (enqueue_background_job env r db).1.jobs
    → later.idempotency ≡ (enqueue_background_job env r db).1.idempotency
    → (job : Job) × ((enqueue_background_job env r db).1.jobs ≡ db.jobs ++ (job ∷ []))
      × (enqueue_background_job env' r later ≡ (ok job, later))
unfolding enqueue_background_job
enqueue_absorbed env env' r db hooks hash f fj fid later same_jobs same_records =
    let k : JobRequest = keyed env r in
    let job : Job = enqueued (env.uuid4 (db.supply + 1)) (new_job env (env.uuid4 db.supply) k) in
    let (res, rows, recs, out) = enqueue_first env k db hooks (keyed-not_empty env r) f fj fid in
    let filed : IdempotencyRecord =
      processing "background_job" k.idempotency_key (env.stable_hash (request_fields k)) in
    let record_there : find_record "background_job" k.idempotency_key later.idempotency
        ≡ some filed =
      rw same_records (
        rw recs (
          find_record-append "background_job" k.idempotency_key db.idempotency filed f refl
            refl)) in
    let job_there : find_by_key k.idempotency_key later.jobs ≡ some job =
      rw same_jobs
        (rw rows (find_by_key-append k.idempotency_key db.jobs job fj (unfold new_job in refl))) in
    (
      job,
      rows,
      rw (same_key env env' r hash) (
          enqueue_again env' k later filed job (keyed-not_empty env r) record_there (rw hash refl)
            job_there),
    )
