-- ===== src/Jobs/Idempotency.antt =====
-- `idempotency_status`, `complete_idempotency` and `job_to_response` of backend/domain/jobs.py.
use soul_claw.Base.{
  String, Bool, true, false, ◌&&◌, ◌||◌, not, List, [], ◌∷◌, ◌++◌, Option, none, some, Exec, ok,
  Json, string, obj, end, field, str_eq, is_empty, if◌then◌else◌,
}
use soul_claw.Jobs.State.{Db, Env, Job, IdempotencyRecord, status_text}

unfoldable pub find_record : String → String → List IdempotencyRecord → Option IdempotencyRecord
find_record scope key [] = none
find_record scope key (r ∷ rs) =
    if str_eq r.scope scope && str_eq r.idempotency_key key
    then some r
    else find_record scope key rs

unfoldable pub put_record : IdempotencyRecord → List IdempotencyRecord → List IdempotencyRecord
put_record rec [] = []
put_record rec (r ∷ rs) =
    if str_eq r.scope rec.scope && str_eq r.idempotency_key rec.idempotency_key
    then rec ∷ rs
    else r ∷ put_record rec rs

-- The dictionary that `idempotency_status` returns.
pub record IdempotencyStatus : Type 0 where
  pub replayed : Bool
  pub conflict : Bool
  pub found : Option IdempotencyRecord

-- The record of a key that was found: a conflict where the hashes differ, a replay where it is done.
unfoldable pub judge : String → IdempotencyRecord → IdempotencyStatus
judge request_hash r =
    if not (is_empty r.request_hash)
      && (not (is_empty request_hash) && not (str_eq r.request_hash request_hash))
    then record { replayed = false; conflict = true; found = some r }
    else record {
      replayed = str_eq r.status "succeeded" || str_eq r.status "failed";
      conflict = false;
      found = some r;
    }

abbrev pub processing : String → String → String → IdempotencyRecord
processing scope key request_hash = record {
  scope = scope;
  idempotency_key = key;
  request_hash = request_hash;
  status = "processing";
  response = obj end;
}

unfoldable pub status_of :
    Env → String → String → Json → Option IdempotencyRecord → Exec Db IdempotencyStatus
unfolding judge
status_of env scope key request none db =
    let r = processing scope key (env.stable_hash request) in
    (
      ok (record { replayed = false; conflict = false; found = some r }),
      record db { idempotency = db.idempotency ++ (r ∷ []) },
    )
status_of env scope key request (some r) db = (ok (judge (env.stable_hash request) r), db)

-- `idempotency_status`
unfoldable pub idempotency_status : Env → String → String → Json → Exec Db IdempotencyStatus
unfolding status_of
idempotency_status env scope key request db =
    if is_empty key
    then (ok (record { replayed = false; conflict = false; found = none }), db)
    else status_of env scope key request (find_record scope key db.idempotency) db

unfoldable pub complete : String → String → Json → String → Option IdempotencyRecord → Db → Db
complete scope key response status none db = record db {
  idempotency =
      db.idempotency
      ++ (record {
        scope = scope;
        idempotency_key = key;
        request_hash = "";
        status = status;
        response = response;
      }
          ∷ []);
}
complete scope key response status (some r) db = record db {
  idempotency = put_record (record r { status = status; response = response }) db.idempotency;
}

-- `complete_idempotency`
unfoldable pub complete_idempotency : String → String → Json → String → Exec Db (Unit {0})
unfolding complete
complete_idempotency scope key response status db =
    if is_empty key
    then (ok tt, db)
    else (ok tt, complete scope key response status (find_record scope key db.idempotency) db)

-- `job_to_response`
unfoldable pub job_to_response : Job → Json
job_to_response job = obj (
    field "job_id" (string job.id) (
      field "task_name" (string job.task_name) (
        field "queue_id" (string job.queue_id) (
          field "status" (string (status_text job.status)) (
            field "trace_id" (string job.trace_id) (
              field "request_id" (string job.request_id)
                (field "result" job.result (field "error" (string job.error) end))))))))
