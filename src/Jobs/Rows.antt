-- ===== src/Jobs/Rows.antt =====
-- Reading the tables after a row was written.
use soul_claw.Base.{
  String, false, ◌≡◌, refl, List, [], ◌∷◌, ◌++◌, none, some, arith, str_eq, eq_iff,
}
use soul_claw.Jobs.State.{Job, IdempotencyRecord, find_job, put_job}
use soul_claw.Jobs.Idempotency.{find_record}

pub id-find_job : (id : String) (js : List Job) (j : Job) → find_job id js ≡ some j → j.id ≡ id
unfolding find_job
id-find_job id [] j h = ground arith
id-find_job id (k ∷ js) j h = ground (arith, eq_iff k.id id, id-find_job id js j)

-- The written row is the one that is found, whatever columns changed beside the id.
pub find_job-put_job :
    (id : String) (js : List Job) (j row : Job)
    → find_job id js ≡ some j
    → row.id ≡ id
    → find_job id (put_job row js) ≡ some row
unfolding find_job put_job
find_job-put_job id [] j row h e = ground arith
find_job-put_job id (k ∷ js) j row h e =
    ground
      (arith, eq_iff k.id id, eq_iff k.id row.id, eq_iff row.id id, find_job-put_job id js j row)

pub find_job-put_job_ne :
    (id : String) (js : List Job) (row : Job)
    → str_eq row.id id ≡ false
    → find_job id (put_job row js) ≡ find_job id js
unfolding find_job put_job
find_job-put_job_ne id [] row h = refl
find_job-put_job_ne id (k ∷ js) row h =
    ground
      (arith, eq_iff k.id id, eq_iff k.id row.id, eq_iff row.id id, find_job-put_job_ne id js row)

pub find_record-append :
    (scope key : String) (rs : List IdempotencyRecord) (r : IdempotencyRecord)
    → find_record scope key rs ≡ none
    → r.scope ≡ scope
    → r.idempotency_key ≡ key
    → find_record scope key (rs ++ (r ∷ [])) ≡ some r
unfolding find_record
find_record-append scope key [] r h e e' =
    ground (arith, eq_iff r.scope scope, eq_iff r.idempotency_key key)
find_record-append scope key (q ∷ rs) r h e e' = ground (arith, find_record-append scope key rs r)
