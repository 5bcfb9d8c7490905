-- ===== src/Tools/Executor.antt =====
-- `ToolExecutor` of backend/domain/tools.py, and `create_approval` of backend/domain/platform.py.
use soul_claw.Base.{
  String, Bool, true, false, ◌&&◌, not, List, [], ◌∷◌, ◌++◌, Option, none, some, Exec, Result, ok,
  err, PyError, key_error, runtime_error, approval_required, is_permission, str_exc, Json, Fields,
  null, flag, string, obj, end, field, field_put, info, warning, f_string, if◌then◌else◌, ◌>>=◌,
  ◌>>◌, pure, raise,
}
use soul_claw.Tools.State.{
  ToolRun, Approval, ToolDb, ToolDefinition, ToolEnv, Handler, fresh_id, emit_to, audit_to, put_run,
}
use soul_claw.Tools.Floor.{validate}
use soul_claw.Tools.Registry.{Registry, get}

abbrev pub all_decisions : List String
all_decisions = "approve" ∷ "edit" ∷ "reject" ∷ "respond" ∷ []

abbrev pub call_payload : String → Fields → String → Bool → Fields
call_payload tool_name arguments turn_id dynamic = field "tool_name" (string tool_name) (
    field "arguments" (obj arguments) (
      field "turn_id" (string turn_id)
        (if dynamic then field "dynamic_approval" (flag true) end else end)))

abbrev pub id_json : Option String → Json
id_json none = null
id_json (some id) = string id

abbrev pub id_text : Option String → String
id_text none = ""
id_text (some id) = id

-- The dictionary that `execute` returns.
pub record Executed : Type 0 where
  pub tool_run_id : String
  pub tool_name : String
  pub status : String
  pub result : Json

module _ {S : Type 0} where
  unfoldable pub add_approval : Approval → Exec (ToolDb S) (Unit {0})
  add_approval a db = (ok tt, record db { approvals = db.approvals ++ (a ∷ []) })

  -- `PlatformService.create_approval`, for the subject, payload and checkpoints that are given
  unfoldable pub create_approval :
      ToolEnv
      → String
      → String
      → Fields
      → Fields
      → Fields
      → List String
      → Fields
      → Exec (ToolDb S) Approval
  unfolding fresh_id add_approval emit_to audit_to pure
  create_approval env subject_type subject_id payload turn_checkpoint original allowed resume = do
    id ← fresh_id env
    let approval : Approval = record {
      id = id;
      status = "pending";
      subject_type = subject_type;
      subject_id = subject_id;
      payload = payload;
      turn_checkpoint = turn_checkpoint;
      original_tool_call = original;
      allowed_decisions = allowed;
      edited_arguments = end;
      resume_state = resume;
      resolved_at = none;
    }
    add_approval approval
    emit_to "approval.created" info (
        field "approval_id" (string id)
          (field "subject_type" (string subject_type) (field "subject_id" (string subject_id) end)))
    audit_to "approval.create" "approval" id payload
    pure approval

  unfoldable pub approval_id_of : Exec (ToolDb S) Approval → Exec (ToolDb S) (Option String)
  unfolding pure
  approval_id_of m = do a ← m; pure (some a.id)

  -- `_create_tool_approval`, as the id of the approval; none without a platform service
  unfoldable pub create_tool_approval :
      ToolEnv → String → Fields → String → Bool → Exec (ToolDb S) (Option String)
  unfolding create_approval approval_id_of pure
  create_tool_approval env tool_name arguments turn_id dynamic =
      if env.has_platform
      then approval_id_of (
          create_approval env "tool_run" tool_name
            (call_payload tool_name arguments turn_id dynamic)
            (field "turn_id" (string turn_id) (field "tool_name" (string tool_name) end))
            (field "tool_name" (string tool_name) (field "arguments" (obj arguments) end))
            all_decisions (field "mode" (string "rerun_tool") end))
      else pure none

  unfoldable pub save_run : ToolRun → Exec (ToolDb S) (Unit {0})
  unfolding put_run
  save_run r db = (ok tt, record db { runs = put_run r db.runs })

  unfoldable pub add_run : ToolRun → Exec (ToolDb S) (Unit {0})
  add_run r db = (ok tt, record db { runs = db.runs ++ (r ∷ []) })

  -- `except PermissionError` around the handler
  unfoldable pub pause_run : ToolEnv → ToolRun → PyError → Exec (ToolDb S) Executed
  unfolding create_tool_approval save_run emit_to raise
  pause_run env run e = do
    approval ← create_tool_approval env run.tool_name run.arguments run.turn_id true
    save_run (record run {
      status = "approval_required";
      result =
          obj (field "error" (string (str_exc e)) (field "approval_id" (id_json approval) end));
      finished_at = some env.now;
    })
    emit_to "tool.approval_required" warning (
        field "tool_run_id" (string run.id) (
          field "tool_name" (string run.tool_name)
            (field "approval_id" (id_json approval) (field "error" (string (str_exc e)) end))))
    raise (approval_required (str_exc e) run.tool_name (id_text approval))

  -- `except Exception` around the handler
  unfoldable pub fail_run : ToolEnv → ToolRun → PyError → Exec (ToolDb S) Executed
  unfolding save_run emit_to raise
  fail_run env run e = do
    save_run (record run {
      status = "failed";
      result = obj (field "error" (string (str_exc e)) end);
      finished_at = some env.now;
    })
    emit_to "tool.failed" warning (
        field "tool_run_id" (string run.id)
          (field "tool_name" (string run.tool_name) (field "error" (string (str_exc e)) end)))
    raise e

  unfoldable pub finish_run : ToolEnv → ToolRun → Json → Exec (ToolDb S) Executed
  unfolding save_run emit_to pure
  finish_run env run v = do
    save_run (record run { status = "succeeded"; result = v; finished_at = some env.now })
    emit_to "tool.succeeded" info
        (field "tool_run_id" (string run.id) (field "tool_name" (string run.tool_name) end))
    pure (record {
      tool_run_id = run.id;
      tool_name = run.tool_name;
      status = "succeeded";
      result = v;
    })

  unfoldable pub settle_run :
      ToolEnv → ToolRun → Result Json × ToolDb S → Result Executed × ToolDb S
  unfolding pause_run fail_run finish_run
  settle_run env run (ok v, db) = finish_run env run v db
  settle_run env run (err e, db) =
      if is_permission e then pause_run env run e db else fail_run env run e db

  -- from `run = ToolRun(...)` on
  unfoldable pub run_tool :
      ToolEnv → Handler S → String → Fields → String → Bool → Exec (ToolDb S) Executed
  unfolding fresh_id add_run emit_to settle_run
  run_tool env handler tool_name arguments turn_id approved = do
    id ← fresh_id env
    checkpoint ← fresh_id env
    let run : ToolRun = record {
      id = id;
      turn_id = turn_id;
      tool_name = tool_name;
      status = "running";
      arguments = arguments;
      result = obj (field "checkpoint" (string checkpoint) end);
      finished_at = none;
    }
    add_run run
    emit_to "tool.started" info
        (field "tool_run_id" (string id) (field "tool_name" (string tool_name) end))
    λ db.
        settle_run env run
          (handler (if approved then field_put "_approved" (flag true) arguments else arguments) db)

  -- the refusal of the safety floor
  unfoldable pub blocked : String → String → PyError → Exec (ToolDb S) Executed
  unfolding emit_to raise
  blocked tool_name turn_id e = do
    emit_to "tool.blocked" warning
        (field "tool_name" (string tool_name) (field "error" (string (str_exc e)) end))
    raise e

  unfoldable pub validated :
      ToolEnv
      → Handler S
      → String
      → Fields
      → String
      → Bool
      → Result (Unit {0})
      → Exec (ToolDb S) Executed
  unfolding blocked run_tool
  validated env handler tool_name arguments turn_id approved (err e) = blocked tool_name turn_id e
  validated env handler tool_name arguments turn_id approved (ok _) =
      run_tool env handler tool_name arguments turn_id approved

  unfoldable pub note_approved : String → Fields → String → Bool → Exec (ToolDb S) (Unit {0})
  unfolding audit_to emit_to pure
  note_approved tool_name arguments turn_id approved =
      if approved
      then (do
        audit_to "tool.approved_execution" "tool" tool_name (
            field "tool_name" (string tool_name)
              (field "arguments" (obj arguments) (field "turn_id" (string turn_id) end)))
        emit_to "tool.approved_execution" info (field "tool_name" (string tool_name) end))
      else pure tt

  unfoldable pub ask_approval : ToolEnv → String → Fields → String → Exec (ToolDb S) Executed
  unfolding create_tool_approval emit_to raise
  ask_approval env tool_name arguments turn_id = do
    approval ← create_tool_approval env tool_name arguments turn_id false
    emit_to "tool.approval_required" warning
        (field "tool_name" (string tool_name) (field "approval_id" (id_json approval) end))
    raise (
        approval_required (f_string ("tool requires approval: " ∷ tool_name ∷ [])) tool_name
          (id_text approval))

  unfoldable pub execute_found :
      ToolEnv
      → ToolDefinition S
      → Handler S
      → String
      → Fields
      → String
      → Bool
      → Exec (ToolDb S) Executed
  unfolding note_approved validated ask_approval raise
  execute_found env tool handler tool_name arguments turn_id approved =
      if not tool.available
      then raise (runtime_error (f_string ("tool unavailable: " ∷ tool_name ∷ [])))
      else if tool.requires_approval && not approved
      then ask_approval env tool_name arguments turn_id
      else (do
        note_approved tool_name arguments turn_id approved
        validated env handler tool_name arguments turn_id approved
            (validate env tool arguments approved))

  unfoldable pub execute_or_missing :
      ToolEnv
      → Option (ToolDefinition S)
      → String
      → Fields
      → String
      → Bool
      → Exec (ToolDb S) Executed
  unfolding execute_found raise
  execute_or_missing env none tool_name arguments turn_id approved =
      raise (key_error (f_string ("tool not found: " ∷ tool_name ∷ [])))
  execute_or_missing env (some tool) tool_name arguments turn_id approved = elim tool.handler [
    | none ↦ raise (key_error (f_string ("tool not found: " ∷ tool_name ∷ [])))
    | some handler ↦ execute_found env tool handler tool_name arguments turn_id approved
  ]

  -- `execute`
  unfoldable pub execute :
      ToolEnv → Registry S → String → Fields → String → Bool → Exec (ToolDb S) Executed
  unfolding get execute_or_missing
  execute env reg tool_name arguments turn_id approved =
      execute_or_missing env (get reg tool_name) tool_name arguments turn_id approved
