-- ===== src/Jobs/Outbox.antt =====
-- The transactional outbox of backend/domain/jobs.py, `dispatch_task` of backend/worker/tasks.py, and
-- what happens after a commit.
use soul_claw.Base.{
  as_fields, text_or_empty, ℕ, ◌+◌, ◌*◌, String, Bool, true, false, ◌&&◌, ◌||◌, not, List, [], ◌∷◌,
  ◌++◌, Option, none, some, Exec, Result, ok, err, PyError, value_error, str_exc, Fields, string,
  obj, end, field, field_get, field_put, info, warning, f_string, str, str_eq, is_empty, is_some,
  or_else, member, length, keep, take, if◌then◌else◌, leb, ◌==◌, max, pure, raise, ◌>>=◌, ◌>>◌,
}
use soul_claw.Jobs.State.{
  status_text, Job, OutboxStatus, pending, outbox_retrying, dispatched, outbox_dead_letter,
  OutboxMessage, Delivery, Db, Env, second, fresh_id, is_retryable, retry_delay_seconds, emit_to,
}
use soul_claw.Jobs.Service.{mark_enqueued, mark_dead_letter, clamp_limit, is_due}

-- `dispatch_task`: the registered task names
unfoldable pub is_task_name : String → Bool
is_task_name name = member name (
    "dream_review" ∷ "wiki_compile" ∷ "wiki_lint" ∷ "wiki_repair" ∷ "skill_scan" ∷ "mcp_refresh"
    ∷ "heartbeat_check" ∷ [])

-- `d.setdefault(k, v)` where v is a text that is not empty
unfoldable pub set_default : String → String → Fields → Fields
set_default k v d = if is_empty v || is_some (field_get k d) then d else field_put k (string v) d

unfoldable pub answer : Option PyError → Delivery → Exec Db (Unit {0})
answer none d db = (ok tt, record db { sent = d ∷ db.sent })
answer (some e) d db = (err e, db)

-- `dispatch_task`: `apply_async` or `delay` of the task that the name stands for
unfoldable pub dispatch_task : Env → Delivery → Exec Db (Unit {0})
unfolding is_task_name set_default answer raise
dispatch_task env d =
    if is_task_name d.task_name
    then (let d' : Delivery = record d {
      payload = obj (
          set_default "_request_id" d.request_id
            (set_default "_trace_id" d.trace_id (as_fields (some d.payload))));
    } in
        answer (env.broker d') d')
    else raise (value_error (f_string ("unsupported background task: " ∷ d.task_name ∷ [])))

unfoldable pub find_message : String → List OutboxMessage → Option OutboxMessage
find_message key [] = none
find_message key (m ∷ ms) = if str_eq m.idempotency_key key then some m else find_message key ms

unfoldable pub put_message : OutboxMessage → List OutboxMessage → List OutboxMessage
put_message m [] = []
put_message m (n ∷ ms) = if str_eq n.id m.id then m ∷ ms else n ∷ put_message m ms

abbrev pub save_message : OutboxMessage → Db → Db
save_message m db = record db { outbox = put_message m db.outbox }

-- The row that `create_outbox` adds.
unfoldable pub new_message : String → Job → String → String → OutboxMessage
new_message id job queue_id key = record {
  id = id;
  trace_id = job.trace_id;
  request_id = job.request_id;
  topic = "celery.dispatch";
  aggregate_type = "background_job";
  aggregate_id = job.id;
  idempotency_key = key;
  status = pending;
  payload = field "task_name" (string job.task_name) (
      field "job_id" (string job.id) (
        field "payload" job.payload (
          field "queue_id" (string queue_id) (
            field "trace_id" (string job.trace_id)
              (field "request_id" (string job.request_id) end)))));
  attempt_count = 0;
  max_attempts = 5;
  next_attempt_at = none;
  last_error = "";
  dispatched_at = none;
}

unfoldable pub add_message : OutboxMessage → Exec Db (Unit {0})
add_message m db = (ok tt, record db { outbox = db.outbox ++ (m ∷ []) })

unfoldable pub reuse_or_add :
    Env → Job → String → String → Option OutboxMessage → Exec Db OutboxMessage
unfolding fresh_id new_message add_message emit_to pure
reuse_or_add env job queue_id key (some existing) = pure existing
reuse_or_add env job queue_id key none = do
  id ← fresh_id env
  let message = new_message id job queue_id key
  add_message message
  emit_to "outbox.created" info (
      field "outbox_id" (string id)
        (field "job_id" (string job.id) (field "topic" (string message.topic) end)))
  pure message

-- `create_outbox`
unfoldable pub create_outbox : Env → Job → String → String → Exec Db OutboxMessage
unfolding reuse_or_add
create_outbox env job queue_id key db =
    reuse_or_add env job queue_id key (find_message key db.outbox) db

-- The message object and the exception, if one left the call.
pub record Attempt : Type 0 where
  pub raised : Option PyError
  pub message : OutboxMessage

abbrev pub delivery_of : OutboxMessage → Delivery
delivery_of m = record {
  task_name = text_or_empty (field_get "task_name" m.payload);
  job_id = text_or_empty (field_get "job_id" m.payload);
  payload = obj (as_fields (field_get "payload" m.payload));
  queue_id = text_or_empty (field_get "queue_id" m.payload);
  trace_id = or_else (text_or_empty (field_get "trace_id" m.payload)) m.trace_id;
  request_id = or_else (text_or_empty (field_get "request_id" m.payload)) m.request_id;
}

-- `message.max_attempts or 5`
abbrev pub attempts_allowed : OutboxMessage → ℕ
attempts_allowed m = if m.max_attempts == 0 then 5 else m.max_attempts

-- The columns after a failed attempt: dead letter once the attempts are used up, else a later try.
unfoldable pub failed_message : ℕ → PyError → OutboxMessage → OutboxMessage
failed_message now e m =
    if leb (attempts_allowed m) m.attempt_count
    then record m { last_error = str_exc e; status = outbox_dead_letter; dispatched_at = some now }
    else record m {
      last_error = str_exc e;
      status = outbox_retrying;
      next_attempt_at = some (now + retry_delay_seconds m.attempt_count * second);
    }

abbrev pub is_dead : OutboxMessage → Bool
is_dead m = elim m.status [ outbox_dead_letter ↦ true | _ ↦ false ]

-- The handlers of `_dispatch_outbox_message` for the broker's answer. The dead letter of the job is
-- tried, and its own exception is dropped.
unfoldable pub settle : Env → OutboxMessage → Result (Unit {0}) × Db → Attempt × Db
unfolding failed_message emit_to
settle env m (err e, db) =
    let m' : OutboxMessage = failed_message env.now e m in
    let db' : Db = save_message m' db in
    (
      record { raised = some e; message = m' },
      if is_dead m' then (mark_dead_letter env m'.aggregate_id (str_exc e) db').1 else db',
    )
settle env m (ok _, db) =
    let m' : OutboxMessage = record m {
      status = dispatched;
      last_error = "";
      next_attempt_at = none;
      dispatched_at = some env.now;
    } in
    (
      record { raised = none; message = m' },
      (emit_to "outbox.dispatched" info
          (field "outbox_id" (string m'.id) (field "topic" (string m'.topic) end))
          (save_message m' db)).1,
    )

-- `_dispatch_outbox_message`
unfoldable pub dispatch_outbox_message : Env → OutboxMessage → Db → Attempt × Db
unfolding settle
dispatch_outbox_message env m db =
    if str_eq m.topic "celery.dispatch"
    then (let m' : OutboxMessage = record m { attempt_count = m.attempt_count + 1 } in
        settle env m' (dispatch_task env (delivery_of m') (save_message m' db)))
    else (
      record {
        raised = some (value_error (f_string ("unsupported outbox topic: " ∷ m.topic ∷ [])));
        message = m;
      },
      db,
    )

-- The dictionary that `dispatch_outbox` returns.
pub record Report : Type 0 where
  pub scanned : ℕ
  pub dispatched : ℕ
  pub failed : ℕ
  pub dead_letter : ℕ

abbrev pub count_if : Bool → ℕ → ℕ
count_if b n = if b then n + 1 else n

abbrev pub outbox_status_text : OutboxStatus → String
outbox_status_text pending = "pending"
outbox_status_text outbox_retrying = "retrying"
outbox_status_text dispatched = "dispatched"
outbox_status_text outbox_dead_letter = "dead_letter"

-- The body of the loop of `dispatch_outbox`, once the call has returned or raised.
unfoldable pub tally : Attempt → Report → Db → Report × Db
unfolding emit_to
tally a r db = elim a.raised [
  | none ↦ (record r { dispatched = r.dispatched + 1 }, db)
  | some e ↦ (
    record r { failed = r.failed + 1; dead_letter = count_if (is_dead a.message) r.dead_letter },
    (emit_to "outbox.dispatch.failed" warning
        (field "outbox_id" (string a.message.id) (
          field "error" (string (str_exc e))
            (field "status" (string (outbox_status_text a.message.status)) end)))
        db).1,
  )
]

-- The loop of `dispatch_outbox`, over the rows that the query returned.
unfoldable pub dispatch_each : Env → List OutboxMessage → Report → Db → Report × Db
dispatch_each env [] r db = (r, db)
dispatch_each env (m ∷ ms) r db =
    let (a, db') = dispatch_outbox_message env m db in
    let (r', db'') = tally a r db' in dispatch_each env ms r' db''

abbrev pub awaits_dispatch : OutboxStatus → Bool
awaits_dispatch pending = true
awaits_dispatch outbox_retrying = true
awaits_dispatch _ = false

unfoldable pub outbox_due : ℕ → ℕ → Db → List OutboxMessage
outbox_due now limit db =
    take (clamp_limit 500 limit)
      (keep (λ m. awaits_dispatch m.status && is_due m.next_attempt_at now) db.outbox)

-- `dispatch_outbox`
unfoldable pub dispatch_outbox : Env → ℕ → Db → Report × Db
unfolding outbox_due
dispatch_outbox env limit db =
    let items = outbox_due env.now limit db in
    dispatch_each env items
      (record { scanned = length items; dispatched = 0; failed = 0; dead_letter = 0 }) db

-- `_dispatch_outbox_after_commit`: without session hooks at once, else when the session commits
unfoldable pub dispatch_outbox_after_commit : Env → String → Exec Db (Unit {0})
dispatch_outbox_after_commit env outbox_id db =
    if db.hooks
    then (
      ok tt,
      record db {
        pending_ids =
            if member outbox_id db.pending_ids then db.pending_ids else outbox_id ∷ db.pending_ids;
        listener = true;
      },
    )
    else (ok tt, (dispatch_outbox env 100 db).1)

-- `session.commit()` with the listener `_after_commit`, which replays the outbox once
unfoldable pub commit : Env → Db → Db
commit env db =
    if db.listener && not (length db.pending_ids == 0)
    then (dispatch_outbox env (max 100 (length db.pending_ids))
        (record db { pending_ids = []; listener = false })).1
    else record db { pending_ids = []; listener = false }

-- `schedule_dispatch`
unfoldable pub schedule_dispatch : Env → Job → String → Exec Db OutboxMessage
unfolding fresh_id mark_enqueued create_outbox dispatch_outbox_after_commit pure
schedule_dispatch env job reason = do
  queue_id ← fresh_id env
  enqueued ← mark_enqueued job.id queue_id
  let key_base = or_else enqueued.idempotency_key (f_string ("job:" ∷ enqueued.id ∷ []))
  outbox ←
      create_outbox env enqueued queue_id
        (f_string ("dispatch:" ∷ key_base ∷ ":" ∷ reason ∷ ":" ∷ str enqueued.attempt_count ∷ []))
  dispatch_outbox_after_commit env outbox.id
  pure outbox

-- `reschedule_job`
unfoldable pub reschedule_job : Env → Job → String → Exec Db OutboxMessage
unfolding schedule_dispatch raise
reschedule_job env job reason =
    if is_retryable job.status
    then schedule_dispatch env job reason
    else raise (value_error (f_string ("job is not retryable: " ∷ status_text job.status ∷ [])))
