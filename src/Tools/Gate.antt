-- ===== src/Tools/Gate.antt =====
-- What stands between a call of `execute` and the handler of the tool.
use soul_claw.Base.{
  String, Bool, true, false, ◌≡◌, ◌⊎◌, inl, inr, [], ◌∷◌, ◌++◌, none, some, arith, ok, err,
  permission_error, approval_required, Fields, string, obj, end, field, f_string, Option-cases, not,
  ◌&&◌,
}
use soul_claw.Tools.State.{Approval, ToolDb, ToolDefinition, ToolEnv, Handler}
use soul_claw.Tools.Floor.{validate, first_blocked, blocked_patterns, codes}
use soul_claw.Tools.Registry.{Registry, get}
use soul_claw.Tools.Executor.{Executed, execute}

-- The approval that a gated call leaves, with what is needed to run the call later.
pub record Asked (env : ToolEnv) (name : String) (arguments : Fields) (turn_id : String)
    (a : Approval) : Type 0 where
  pub pending : a.status ≡ "pending"
  pub subject : (a.subject_type ≡ "tool_run") × (a.subject_id ≡ name)
  pub call :
      a.original_tool_call ≡ field "tool_name" (string name) (field "arguments" (obj arguments) end)
  pub checkpoint :
      a.turn_checkpoint ≡ field "turn_id" (string turn_id) (field "tool_name" (string name) end)

pub validate_blocked :
    {S : Type 0} (env : ToolEnv) (tool : ToolDefinition S) (arguments : Fields) (approved : Bool)
    (pattern : String)
    → first_blocked blocked_patterns (codes (env.repr arguments)) ≡ some pattern
    → validate env tool arguments approved
      ≡ err (permission_error (f_string ("blocked by hard safety floor: " ∷ pattern ∷ [])))
unfolding validate
validate_blocked env tool arguments approved pattern hit = ground arith

pub validate_ok :
    {S : Type 0} (env : ToolEnv) (tool : ToolDefinition S) (arguments : Fields) (approved : Bool)
    → validate env tool arguments approved ≡ ok tt
    → first_blocked blocked_patterns (codes (env.repr arguments)) ≡ none
unfolding validate
validate_ok env tool arguments approved hit = ground arith

module _ {S : Type 0} (env : ToolEnv) (reg : Registry S) (name : String) (arguments : Fields)
    (turn_id : String) (db : ToolDb S) where
  -- A call without approval of an available tool that requires it is not run, whatever the handler
  -- does: it adds one pending approval that holds the call, raises `ToolApprovalRequired` with the
  -- approval's id, and leaves the tool runs and the handlers' state alone.
  pub approval_gate :
      (tool : ToolDefinition S) (handler : Handler S)
      → get reg name ≡ some tool
      → tool.handler ≡ some handler
      → tool.available ≡ true
      → tool.requires_approval ≡ true
      → env.has_platform ≡ true
      → let (r, after) = execute env reg name arguments turn_id false db in
        (a : Approval) × (r
          ≡ err (approval_required (f_string ("tool requires approval: " ∷ name ∷ [])) name a.id))
        × (after.approvals ≡ db.approvals ++ (a ∷ []))
        × Asked env name arguments turn_id a
        × (after.runs ≡ db.runs)
        × (after.rest ≡ db.rest)
  unfolding execute
  approval_gate tool handler found h available gated platform =
      let a : Approval = record {
        id = env.uuid4 db.supply;
        status = "pending";
        subject_type = "tool_run";
        subject_id = name;
        payload =
            field "tool_name" (string name)
              (field "arguments" (obj arguments) (field "turn_id" (string turn_id) end));
        turn_checkpoint = field "turn_id" (string turn_id) (field "tool_name" (string name) end);
        original_tool_call =
            field "tool_name" (string name) (field "arguments" (obj arguments) end);
        allowed_decisions = "approve" ∷ "edit" ∷ "reject" ∷ "respond" ∷ [];
        edited_arguments = end;
        resume_state = field "mode" (string "rerun_tool") end;
        resolved_at = none;
      } in
      (a, ground arith, ground arith, ground arith, ground arith, ground arith)

  -- A call whose serialized arguments match a blocked pattern does not reach the handler, approved or
  -- not: a call that got past the approval gate raises `PermissionError` and leaves the tool runs, the
  -- approvals and the handlers' state alone.
  pub floor_blocks :
      (approved : Bool) (tool : ToolDefinition S) (handler : Handler S) (pattern : String)
      → get reg name ≡ some tool
      → tool.handler ≡ some handler
      → tool.available ≡ true
      → (tool.requires_approval && not approved) ≡ false
      → first_blocked blocked_patterns (codes (env.repr arguments)) ≡ some pattern
      → let (r, after) = execute env reg name arguments turn_id approved db in
        (r ≡ err (permission_error (f_string ("blocked by hard safety floor: " ∷ pattern ∷ []))))
        × (after.runs ≡ db.runs)
        × (after.approvals ≡ db.approvals)
        × (after.rest ≡ db.rest)
  unfolding execute
  floor_blocks approved tool handler pattern found h available past hit =
      ground (arith, validate_blocked env tool arguments approved pattern hit)

  -- A call that returns a result named a registered, available tool with a handler, was approved if
  -- the tool requires it, and matched no blocked pattern.
  pub execute_needs :
      (approved : Bool) (r : Executed)
      → (execute env reg name arguments turn_id approved db).0 ≡ ok r
      → (tool : ToolDefinition S) × (get reg name ≡ some tool)
        × (tool.available ≡ true)
        × ((tool.requires_approval ≡ false) ⊎ (approved ≡ true))
        × (first_blocked blocked_patterns (codes (env.repr arguments)) ≡ none)
  unfolding execute
  execute_needs approved r h = elim (Option-cases (get reg name)) [
    | inl missing ↦ ground arith
    | inr (tool, found) ↦ (
      tool,
      found,
      ground arith,
      ground arith,
      ground (arith, validate_ok env tool arguments approved),
    )
  ]
