-- ===== src/Jobs/Dispatch.antt =====
-- What the dispatch of the outbox reports, sends and leaves in the messages.
use soul_claw.Base.{
  ℕ, ◌+◌, ◌*◌, ◌≤◌, ◌<◌, String, true, false, ◌≡◌, refl, List, [], ◌∷◌, Option, none, some, arith,
  Result, ok, err, PyError, str_exc, str_eq, if◌then◌else◌, min, max, length, is_some, length-take,
  Bool-cases, Option-cases, inl, inr,
}
use soul_claw.Jobs.State.{
  Db, Env, second, retry_delay_seconds, OutboxMessage, Delivery, outbox_retrying, dispatched,
  outbox_dead_letter,
}
use soul_claw.Jobs.Service.{mark_dead_letter}
use soul_claw.Jobs.Outbox.{
  Attempt, Report, dispatch_outbox_message, settle, dispatch_task, answer, failed_message,
  attempts_allowed, delivery_of, save_message, is_task_name, tally, dispatch_each, dispatch_outbox,
  outbox_due,
}

sent-mark_dead_letter :
    (env : Env) (id message : String) (db : Db)
    → (mark_dead_letter env id message db).1.sent ≡ db.sent
unfolding mark_dead_letter
sent-mark_dead_letter env id message db = ground arith

-- What one attempt to dispatch a message of the outbox does.
pub record Attempted (env : Env) (m : OutboxMessage) (db : Db) (a : Attempt) (after : Db)
    : Type 0 where
  pub counted : a.message.attempt_count ≡ m.attempt_count + 1
  pub accepted :
      a.raised ≡ none
      → (a.message.status ≡ dispatched)
        × (a.message.next_attempt_at ≡ none)
        × (length after.sent ≡ length db.sent + 1)
  pub refused :
      (e : PyError)
      → a.raised ≡ some e
      → (a.message.last_error ≡ str_exc e)
        × (after.sent ≡ db.sent)
        × (attempts_allowed m ≤ m.attempt_count + 1 → a.message.status ≡ outbox_dead_letter)
        × (m.attempt_count + 1 < attempts_allowed m
            → (a.message.status ≡ outbox_retrying)
              × (a.message.next_attempt_at
                  ≡ some (env.now + retry_delay_seconds (m.attempt_count + 1) * second)))

abbrev Sent : Db → Result (Unit {0}) × Db → Type 0
Sent before (ok _, after) = length after.sent ≡ length before.sent + 1
Sent before (err e, after) = after.sent ≡ before.sent

dispatch_task-Sent : (env : Env) (d : Delivery) (db : Db) → Sent db (dispatch_task env d db)
unfolding dispatch_task
dispatch_task-Sent env d db = elim (Bool-cases (is_task_name d.task_name)) [
  | inl known ↦ rw known (answered _ _)
  | inr unknown ↦ rw unknown refl
]
  where
    answered : (o : Option PyError) (d' : Delivery) → Sent db (answer o d' db)
    answered none d' = omega arith
    answered (some e) d' = refl

settle-Attempted :
    (env : Env) (m m' : OutboxMessage) (db : Db) (r : Result (Unit {0}) × Db)
    → m' ≡ record m { attempt_count = m.attempt_count + 1 }
    → Sent db r
    → Attempted env m db (settle env m' r).0 (settle env m' r).1
unfolding settle
settle-Attempted env m m' db (ok u, after) same sent = ground arith
settle-Attempted env m m' db (err e, after) same sent =
    let f : OutboxMessage = failed_message env.now e m' in
    record {
      counted = ground arith;
      accepted = ground arith;
      refused = λ x h.
          ground
            (arith, sent-mark_dead_letter env f.aggregate_id (str_exc e) (save_message f after));
    }

-- An attempt at a message of the dispatch topic is counted. Where it is accepted, one delivery
-- leaves for the broker and the message is dispatched; where it raises, nothing is sent, and the
-- message waits for the delay of its count or, with its attempts used up, is a dead letter.
pub dispatch_outbox_message-Attempted :
    (env : Env) (m : OutboxMessage) (db : Db)
    → str_eq m.topic "celery.dispatch" ≡ true
    → Attempted env m db (dispatch_outbox_message env m db).0 (dispatch_outbox_message env m db).1
unfolding dispatch_outbox_message
dispatch_outbox_message-Attempted env m db h =
    let m' : OutboxMessage = record m { attempt_count = m.attempt_count + 1 } in
    rw h (
      settle-Attempted env m m' db (dispatch_task env (delivery_of m') (save_message m' db)) refl
        (dispatch_task-Sent env (delivery_of m') (save_message m' db)))

-- How the counts of a report and the deliveries of the session move together.
pub record Accounts (n : ℕ) (r r' : Report) (before after : Db) : Type 0 where
  pub scanned : r'.scanned ≡ r.scanned
  pub every : r'.dispatched + r'.failed ≡ r.dispatched + r.failed + n
  pub dead : r'.dead_letter + r.failed ≤ r.dead_letter + r'.failed
  pub sent : length after.sent + r.dispatched ≡ length before.sent + r'.dispatched

attempt_sends :
    (env : Env) (m : OutboxMessage) (db : Db)
    → length (dispatch_outbox_message env m db).1.sent
      ≡ length db.sent + (if is_some (dispatch_outbox_message env m db).0.raised then 0 else 1)
attempt_sends env m db = elim (Bool-cases (str_eq m.topic "celery.dispatch")) [
  | inl topic ↦
      counted (dispatch_outbox_message env m db).0 (dispatch_outbox_message env m db).1
        (dispatch_outbox_message-Attempted env m db topic)
  | inr other ↦ unsupported other
]
  where
    counted :
        (a : Attempt) (after : Db)
        → Attempted env m db a after
        → length after.sent ≡ length db.sent + (if is_some a.raised then 0 else 1)
    counted a after h = elim (Option-cases a.raised) [
      | inl e ↦ ground (arith, h.accepted e)
      | inr (x, e) ↦ rw (e, (h.refused x e).1) (omega arith)
    ]

    unsupported :
        str_eq m.topic "celery.dispatch" ≡ false
        → length (dispatch_outbox_message env m db).1.sent
          ≡ length db.sent + (if is_some (dispatch_outbox_message env m db).0.raised then 0 else 1)
    unsupported other = unfold dispatch_outbox_message in rw other (omega arith)

outbox_due-length :
    (now limit : ℕ) (db : Db) → length (outbox_due now limit db) ≤ max 1 (min limit 500)
unfolding outbox_due
outbox_due-length now limit db = omega (arith, length-take {0})

dispatch_each-Accounts :
    (env : Env) (ms : List OutboxMessage) (r : Report) (db : Db)
    → Accounts (length ms) r (dispatch_each env ms r db).0 db (dispatch_each env ms r db).1
unfolding dispatch_each tally
dispatch_each-Accounts env [] r db = ground arith
dispatch_each-Accounts env (m ∷ ms) r db =
    let (a, db') = dispatch_outbox_message env m db in
    let (r', db'') = tally a r db' in
    ground (arith, attempt_sends env m db, dispatch_each-Accounts env ms r' db'')

-- The report of `dispatch_outbox` accounts for every message that it read: each was dispatched or
-- failed, a dead letter is one of the failures, as many deliveries left for the broker as were
-- dispatched, and at most 500 messages were read.
pub dispatch_outbox-Accounts :
    (env : Env) (limit : ℕ) (db : Db)
    → let (r, after) = dispatch_outbox env limit db in
      (r.scanned ≡ r.dispatched + r.failed)
      × (r.dead_letter ≤ r.failed)
      × (length after.sent ≡ length db.sent + r.dispatched)
      × (r.scanned ≤ max 1 (min limit 500))
unfolding dispatch_outbox
dispatch_outbox-Accounts env limit db =
    let items : List OutboxMessage = outbox_due env.now limit db in
    omega (
      arith,
      dispatch_each-Accounts env items
          (record { scanned = length items; dispatched = 0; failed = 0; dead_letter = 0 }) db,
      outbox_due-length env.now limit db,
    )
