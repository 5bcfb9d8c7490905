-- ===== src/Jobs/Stored.antt =====
-- What the dispatch of one message of the outbox leaves in the tables, for every topic and every answer
-- of the broker.
use soul_claw.Base.{
  ℕ, ◌+◌, String, true, false, ◌≡◌, refl, sym, ap, ◌∙◌, List, [], ◌∷◌, Option, none, some, arith,
  Result, ok, err, PyError, value_error, str_exc, str_eq, eq_iff, f_string, if◌then◌else◌,
  Bool-cases, inl, inr,
}
use soul_claw.Jobs.State.{Job, Db, Env, dead_letter, find_job, OutboxMessage, Delivery}
use soul_claw.Jobs.Service.{mark_dead_letter, buried}
use soul_claw.Jobs.Effects.{mark_dead_letter-Writes}
use soul_claw.Jobs.Outbox.{
  Attempt, dispatch_outbox_message, settle, dispatch_task, answer, failed_message, delivery_of,
  put_message, save_message, is_task_name, is_dead,
}
use soul_claw.Jobs.Dispatch.{Attempted, dispatch_outbox_message-Attempted}

-- the row of the outbox with this id
unfoldable pub find_row : String → List OutboxMessage → Option OutboxMessage
find_row id [] = none
find_row id (m ∷ ms) = if str_eq m.id id then some m else find_row id ms

find-put_message :
    (id : String) (ms : List OutboxMessage) (m row : OutboxMessage)
    → find_row id ms ≡ some m
    → row.id ≡ id
    → find_row id (put_message row ms) ≡ some row
unfolding find_row put_message
find-put_message id [] m row h e = ground arith
find-put_message id (x ∷ xs) m row h e = ground (
  arith,
  eq_iff x.id id,
  eq_iff x.id row.id,
  eq_iff row.id id,
  λ (found : find_row id xs ≡ some m). find-put_message id xs m row found e,
)

-- The attempt at a message, and the tables behind it.
pub record Dispatched (env : Env) (m : OutboxMessage) (db : Db) (a : Attempt) (after : Db)
    : Type 0 where
  pub stored : find_row m.id after.outbox ≡ some a.message
  pub buried_job :
      (job : Job)
      → find_job m.aggregate_id db.jobs ≡ some job
      → is_dead a.message ≡ true
      → (row : Job) × (find_job m.aggregate_id after.jobs ≡ some row)
        × (row.status ≡ dead_letter)
        × (row.error ≡ a.message.last_error)
  pub other_jobs : is_dead a.message ≡ false → after.jobs ≡ db.jobs

outbox-mark_dead_letter :
    (env : Env) (id message : String) (db : Db)
    → (mark_dead_letter env id message db).1.outbox ≡ db.outbox
unfolding mark_dead_letter
outbox-mark_dead_letter env id message db = ground arith

dispatch_task-outbox :
    (env : Env) (d : Delivery) (db : Db)
    → ((dispatch_task env d db).1.outbox ≡ db.outbox) × ((dispatch_task env d db).1.jobs ≡ db.jobs)
unfolding dispatch_task
dispatch_task-outbox env d db = elim (Bool-cases (is_task_name d.task_name)) [
  | inl known ↦ rw known (answered _ _)
  | inr unknown ↦ rw unknown (refl, refl)
]
  where
    answered :
        (o : Option PyError) (d' : Delivery)
        → ((answer o d' db).1.outbox ≡ db.outbox) × ((answer o d' db).1.jobs ≡ db.jobs)
    answered none d' = (refl, refl)
    answered (some e) d' = (refl, refl)

failed_id : (now : ℕ) (e : PyError) (m : OutboxMessage) → (failed_message now e m).id ≡ m.id
unfolding failed_message
failed_id now e m = ground arith

failed_about :
    (now : ℕ) (e : PyError) (m : OutboxMessage)
    → (failed_message now e m).aggregate_id ≡ m.aggregate_id
unfolding failed_message
failed_about now e m = ground arith

failed_error :
    (now : ℕ) (e : PyError) (m : OutboxMessage) → (failed_message now e m).last_error ≡ str_exc e
unfolding failed_message
failed_error now e m = ground arith

-- A saved row is found again, behind any one that was saved before it.
save-again :
    (m m' row : OutboxMessage) (db sent : Db)
    → find_row m.id db.outbox ≡ some m
    → m'.id ≡ m.id
    → row.id ≡ m.id
    → sent.outbox ≡ put_message m' db.outbox
    → find_row m.id (save_message row sent).outbox ≡ some row
save-again m m' row db sent found same own outbox =
    find-put_message m.id sent.outbox m' row
      (ap (find_row m.id) outbox ∙ find-put_message m.id db.outbox m m' found same) own

settle-Dispatched :
    (env : Env) (m m' : OutboxMessage) (db : Db) (r : Result (Unit {0})) (sent : Db)
    → find_row m.id db.outbox ≡ some m
    → (m'.id ≡ m.id) × (m'.aggregate_id ≡ m.aggregate_id)
    → sent.outbox ≡ put_message m' db.outbox
    → sent.jobs ≡ db.jobs
    → Dispatched env m db (settle env m' (r, sent)).0 (settle env m' (r, sent)).1
unfolding settle
settle-Dispatched env m m' db (ok u) sent found (same, about) outbox jobs = record {
  stored = save-again m m' _ db sent found same same outbox;
  buried_job = λ job there dead. ground arith;
  other_jobs = λ live. jobs;
}
settle-Dispatched env m m' db (err e) sent found (same, about) outbox jobs =
    let f : OutboxMessage = failed_message env.now e m' in
    let f_id : f.id ≡ m.id = failed_id env.now e m' ∙ same in
    let f_about : f.aggregate_id ≡ m.aggregate_id = failed_about env.now e m' ∙ about in
    let saved = save-again m m' f db sent found same f_id outbox in
    let store : Db = save_message f sent in
    elim (Bool-cases (is_dead f)) [
      | inl dead ↦ rw dead (record {
        stored =
            ap (find_row m.id) (outbox-mark_dead_letter env f.aggregate_id (str_exc e) store)
            ∙ saved;
        buried_job = λ job there _.
            let there' : find_job f.aggregate_id store.jobs ≡ some job =
              ap (find_job f.aggregate_id) jobs
              ∙ (ap (λ (i : String). find_job i db.jobs) f_about ∙ there) in
            let writes = mark_dead_letter-Writes env f.aggregate_id store job there' (str_exc e) in
            let after = (mark_dead_letter env f.aggregate_id (str_exc e) store).1 in
            (
              buried env.now (str_exc e) job,
              ap (λ (i : String). find_job i after.jobs) (sym f_about) ∙ writes.written,
              unfold buried in refl,
              unfold buried in sym (failed_error env.now e m'),
            );
        other_jobs = λ live. ground (arith, dead);
      })
      | inr live ↦ rw live (record {
        stored = saved;
        buried_job = λ job there dead. ground (arith, live);
        other_jobs = λ _. jobs;
      })
    ]

Dispatched-row :
    (env : Env) (m : OutboxMessage) (db : Db)
    → find_row m.id db.outbox ≡ some m
    → let m' : OutboxMessage = record m { attempt_count = m.attempt_count + 1 } in
      let r = dispatch_task env (delivery_of m') (save_message m' db) in
      Dispatched env m db (settle env m' r).0 (settle env m' r).1
Dispatched-row env m db found =
    let m' : OutboxMessage = record m { attempt_count = m.attempt_count + 1 } in
    let start = save_message m' db in
    let (outbox, jobs) = dispatch_task-outbox env (delivery_of m') start in
    let (r, sent) = dispatch_task env (delivery_of m') start in
    settle-Dispatched env m m' db r sent found (refl, refl) outbox jobs

-- An attempt at a message whose row is stored. Another topic than `celery.dispatch` raises and changes
-- nothing. On that topic the attempt is counted and the row has what the attempt left: where the task is
-- accepted, one delivery leaves for the broker and the message is dispatched; where it raises, nothing
-- is sent, and the message waits for the delay of its count or, with its attempts used up, is a dead
-- letter. Then its job is a dead letter with the same error, if there is such a job; in any other case
-- no job is changed.
pub dispatch_outbox_message-Dispatched :
    (env : Env) (m : OutboxMessage) (db : Db)
    → find_row m.id db.outbox ≡ some m
    → let (a, after) = dispatch_outbox_message env m db in
      (str_eq m.topic "celery.dispatch" ≡ true
        → Attempted env m db a after × Dispatched env m db a after)
      × (str_eq m.topic "celery.dispatch" ≡ false
          → (a.raised ≡ some (value_error (f_string ("unsupported outbox topic: " ∷ m.topic ∷ []))))
            × (a.message ≡ m)
            × (after ≡ db))
dispatch_outbox_message-Dispatched env m db found = (
  λ topic. (
    dispatch_outbox_message-Attempted env m db topic,
    unfold dispatch_outbox_message in rw topic (Dispatched-row env m db found),
  ),
  λ other. unfold dispatch_outbox_message in rw other (refl, refl, refl),
)
