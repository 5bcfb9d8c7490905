-- ===== src/Platform/Schedules.antt =====
-- Ensuring the system's cron jobs, at every start of the program.
use soul_claw.Base.{
  String, true, ◌≡◌, refl, ◌∙◌, List, [], ◌∷◌, Option, none, some, Option-cases, arith, str_eq,
  eq_iff, eq_refl, if◌then◌else◌, inl, inr, pure,
}
use soul_claw.Platform.State.{CronEntry, PlatformDb, PlatformEnv, emit_to, find_named, put_named}
use soul_claw.Platform.Service.{CronRequest, cron_name, save_cron, ensured, ensure_system_cron_job}

module _ {A : Type 0} (name_of : A → String) where
  pub find-put_named :
      (k : String) (x : A) (xs : List A)
      → find_named name_of k (put_named name_of x xs)
        ≡ (if str_eq (name_of x) k then some x else find_named name_of k xs)
  unfolding find_named put_named
  find-put_named k x [] = refl
  find-put_named k x (y ∷ ys) = ground (
    arith,
    eq_iff (name_of y) (name_of x),
    eq_iff (name_of y) k,
    eq_iff (name_of x) k,
    find-put_named k x ys,
  )

  pub put_found :
      (k : String) (x : A) (xs : List A)
      → name_of x ≡ k
      → find_named name_of k xs ≡ some x
      → put_named name_of x xs ≡ xs
  unfolding find_named put_named
  put_found k x [] e found = ground arith
  put_found k x (y ∷ ys) e found =
      ground (arith, eq_iff (name_of y) (name_of x), eq_iff (name_of y) k, put_found k x ys)

  pub found_name :
      (k : String) (x : A) (xs : List A) → find_named name_of k xs ≡ some x → name_of x ≡ k
  unfolding find_named
  found_name k x [] found = ground arith
  found_name k x (y ∷ ys) found = ground (arith, eq_iff (name_of y) k, found_name k x ys)

ensured-name :
    (env : PlatformEnv) (r : CronRequest) (jobs : List CronEntry)
    → (ensured env r (find_named cron_name r.name jobs)).name ≡ r.name
ensured-name env r jobs = elim (Option-cases (find_named cron_name r.name jobs)) [
  | inl absent ↦ rw absent (unfold ensured in refl)
  | inr (old, found) ↦ rw found (unfold ensured in found_name cron_name r.name old jobs found)
]

ensured_again :
    (env later : PlatformEnv) (r : CronRequest) (old : Option CronEntry)
    → ensured later r (some (ensured env r old)) ≡ ensured env r old
unfolding ensured
ensured_again env later r none = ground (arith, eq_refl r.cron_expr, eq_refl r.timezone)
ensured_again env later r (some job) = ground (arith, eq_refl r.cron_expr, eq_refl r.timezone)

ensure-jobs :
    (env : PlatformEnv) (r : CronRequest) (db : PlatformDb)
    → env.is_valid_cron r.cron_expr ≡ true
    → (ensure_system_cron_job env r db).1.cron_jobs
      ≡ put_named cron_name (ensured env r (find_named cron_name r.name db.cron_jobs)) db.cron_jobs
unfolding ensure_system_cron_job save_cron emit_to pure
ensure-jobs env r db valid = rw valid refl

-- Ensuring a system job again, at whatever later time, changes no cron job: its next run is not put off,
-- and a job that was switched off stays off.
pub ensure_twice :
    (env later : PlatformEnv) (r : CronRequest) (db : PlatformDb)
    → env.is_valid_cron r.cron_expr ≡ true
    → later.is_valid_cron r.cron_expr ≡ true
    → (ensure_system_cron_job later r (ensure_system_cron_job env r db).1).1.cron_jobs
      ≡ (ensure_system_cron_job env r db).1.cron_jobs
ensure_twice env later r db valid valid' =
    let job = ensured env r (find_named cron_name r.name db.cron_jobs) in
    let jobs = put_named cron_name job db.cron_jobs in
    let name = ensured-name env r db.cron_jobs in
    let found : find_named cron_name r.name jobs ≡ some job =
      find-put_named cron_name r.name job db.cron_jobs ∙ rw name (rw (eq_refl r.name) refl) in
    ensure-jobs later r (ensure_system_cron_job env r db).1 valid'
    ∙ rw (ensure-jobs env r db valid) (
        rw found (
          rw (ensured_again env later r (find_named cron_name r.name db.cron_jobs))
            (put_found cron_name r.name job jobs name found)))
