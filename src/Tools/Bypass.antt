-- ===== src/Tools/Bypass.antt =====
-- Calls that go through the tool `tool_call`, which looks at the key `_approved` of its arguments.
use soul_claw.Base.{
  as_fields, text_or_empty, ◌+◌, String, Bool, true, false, ◌≡◌, refl, [], ◌∷◌, ◌++◌, none, some,
  arith, ok, err, approval_required, Json, Fields, string, obj, end, field, field_get, field_put,
  emit, info, truthy, f_string, str_eq, is_empty, ◌||◌,
}
use soul_claw.Tools.State.{Approval, ToolDb, ToolDefinition, ToolEnv, Handler}
use soul_claw.Tools.Floor.{validate, is_mutating, first_blocked, blocked_patterns, codes}
use soul_claw.Tools.Registry.{Registry, get, tool_call}
use soul_claw.Tools.Executor.{Executed, execute}

validate_open :
    {S : Type 0} (env : ToolEnv) (tool : ToolDefinition S) (arguments : Fields) (approved : Bool)
    → first_blocked blocked_patterns (codes (env.repr arguments)) ≡ none
    → tool.requires_approval ≡ false
    → validate env tool arguments approved ≡ ok tt
unfolding validate
validate_open env tool arguments approved clear open_tool = ground arith

-- `tool_call` is registered in `reg`, and its handler looks the target up in `inner`. In the program
-- both are the one registry, which the handler reaches through `self`; it never looks up itself.
module _ {S : Type 0} (env : ToolEnv) (reg inner : Registry S) (outer target : ToolDefinition S)
    (handler : Handler S) (arguments : Fields) (turn_id : String) (db : ToolDb S)
    (registered : get reg "tool_call" ≡ some outer)
    (runs_call : outer.handler ≡ some (tool_call inner))
    (outer_open : outer.requires_approval ≡ false) (outer_there : outer.available ≡ true)
    (clear : first_blocked blocked_patterns (codes (env.repr arguments)) ≡ none)
    (named : is_empty (text_or_empty (field_get "tool_name" arguments)) ≡ false)
    (not_itself : str_eq (text_or_empty (field_get "tool_name" arguments)) "tool_call" ≡ false)
    (found : get inner (text_or_empty (field_get "tool_name" arguments)) ≡ some target)
    (target_handler : target.handler ≡ some handler) (target_there : target.available ≡ true)
    (platform : env.has_platform ≡ true) where
  abbrev answer_of : Json → Json
  answer_of v = obj (
      field "tool_name" (string (text_or_empty (field_get "tool_name" arguments)))
        (field "result" v end))

  -- The session as the handler of `tool_call` finds it: the run is there, and the bus was told.
  abbrev started_db : ToolDb S
  started_db = record db {
    runs =
        db.runs
        ++ (record {
          id = env.uuid4 db.supply;
          turn_id = turn_id;
          tool_name = "tool_call";
          status = "running";
          arguments = arguments;
          result = obj (field "checkpoint" (string (env.uuid4 (db.supply + 1))) end);
          finished_at = none;
        }
            ∷ []);
    supply = db.supply + 1 + 1;
    sink =
        emit "tool.started" info
          (field "tool_run_id" (string (env.uuid4 db.supply))
            (field "tool_name" (string "tool_call") end))
          db.sink;
  }

  -- Without the key `_approved` in its arguments, an unapproved call of `tool_call` runs no handler of
  -- a target that requires approval or has a mutating scope: it raises `ToolApprovalRequired` for a new
  -- pending approval and leaves the handlers' state alone.
  pub tool_call_gate :
      truthy (field_get "_approved" arguments) ≡ false
      → (target.requires_approval || is_mutating target.scope) ≡ true
      → let (r, after) = execute env reg "tool_call" arguments turn_id false db in
        (a : Approval) × (r
          ≡ err (
              approval_required
                (f_string (
                  "tool requires approval: "
                  ∷ text_or_empty (field_get "tool_name" arguments)
                  ∷ []))
                "tool_call"
                a.id))
        × (after.approvals ≡ db.approvals ++ (a ∷ []))
        × (a.status ≡ "pending")
        × (after.rest ≡ db.rest)
  unfolding execute tool_call
  tool_call_gate unset gated =
      let a : Approval = record {
        id = env.uuid4 (db.supply + 1 + 1);
        status = "pending";
        subject_type = "tool_run";
        subject_id = "tool_call";
        payload = field "tool_name" (string "tool_call") (
            field "arguments" (obj arguments)
              (field "turn_id" (string turn_id) (field "dynamic_approval" (Json.flag true) end)));
        turn_checkpoint =
            field "turn_id" (string turn_id) (field "tool_name" (string "tool_call") end);
        original_tool_call =
            field "tool_name" (string "tool_call") (field "arguments" (obj arguments) end);
        allowed_decisions = "approve" ∷ "edit" ∷ "reject" ∷ "respond" ∷ [];
        edited_arguments = end;
        resume_state = field "mode" (string "rerun_tool") end;
        resolved_at = none;
      } in
      (
        a,
        ground (arith, validate_open env outer arguments false),
        ground (arith, validate_open env outer arguments false),
        refl,
        ground (arith, validate_open env outer arguments false),
      )

  called_with_flag :
      (v : Json)
      → truthy (field_get "_approved" arguments) ≡ true
      → ((a : Fields) (s : ToolDb S) → (handler a s).0 ≡ ok v)
      → ((a : Fields) (s : ToolDb S) → (handler a s).1.approvals ≡ s.approvals)
      → (s : ToolDb S)
      → ((tool_call inner arguments s).0 ≡ ok (answer_of v))
        × ((tool_call inner arguments s).1.approvals ≡ s.approvals)
  unfolding tool_call
  called_with_flag v set returns keeps s =
      let a : Fields =
        field_put "_approved" (Json.flag true) (as_fields (field_get "arguments" arguments)) in
      ground (arith, returns a s, keeps a s)

  -- The key `_approved` of the arguments is taken from the caller: with it, an unapproved call of
  -- `tool_call` runs the handler of any available target, also one that requires approval or has a
  -- mutating scope, and returns its result; no approval is created.
  pub tool_call_trusts_flag :
      (v : Json)
      → truthy (field_get "_approved" arguments) ≡ true
      → ((a : Fields) (s : ToolDb S) → (handler a s).0 ≡ ok v)
      → ((a : Fields) (s : ToolDb S) → (handler a s).1.approvals ≡ s.approvals)
      → let (r, after) = execute env reg "tool_call" arguments turn_id false db in
        (x : Executed) × (r ≡ ok x)
        × (x.result
            ≡ obj (
                field "tool_name"
                  (string (text_or_empty (field_get "tool_name" arguments)))
                  (field "result" v end)))
        × (after.approvals ≡ db.approvals)
  unfolding execute
  tool_call_trusts_flag v set returns keeps =
      let s : ToolDb S = started_db in
      let (answered, kept) = called_with_flag v set returns keeps s in
      (
        record {
          tool_run_id = env.uuid4 db.supply;
          tool_name = "tool_call";
          status = "succeeded";
          result = answer_of v;
        },
        ground (arith, validate_open env outer arguments false, answered, kept),
        refl,
        ground (arith, validate_open env outer arguments false, answered, kept),
      )
