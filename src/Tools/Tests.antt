-- ===== src/Tools/Tests.antt =====
-- The theorems on tools at concrete inputs.
use soul_claw.Base.{
  text_or_empty, String, true, false, ◌≡◌, refl, List, [], ◌∷◌, ◌++◌, some, ok, err,
  permission_error, approval_required, Fields, num, flag, string, obj, end, field, field_get,
  truthy, f_string, str,
}
use soul_claw.Tools.State.{ToolRun, Approval, ToolDb, ToolDefinition, ToolEnv, Handler, find_run}
use soul_claw.Tools.Floor.{
  blocked_patterns, first_blocked, search_from, match_here, is_word, fold_case, is_space,
}
use soul_claw.Tools.Registry.{Registry, get, tool_call}
use soul_claw.Tools.Executor.{Executed, execute, run_tool}
use soul_claw.Tools.Gate.{Asked, approval_gate, floor_blocks}
use soul_claw.Tools.Bypass.{tool_call_trusts_flag}
use soul_claw.Tools.Audit.{Closed, run_tool_closes}
use soul_claw.Tools.Builtin.{definition}

abbrev text_of : Fields → String
text_of end = ""
text_of (field k v rest) = f_string (k ∷ " " ∷ text_or_empty (some v) ∷ " " ∷ text_of rest ∷ [])

abbrev env : ToolEnv
env = record {
  now = 500;
  uuid4 = λ n. f_string ("id-" ∷ str n ∷ []);
  repr = text_of;
  lower = λ s. s;
  has_platform = true;
}

-- The state of the handlers is the list of what they sent.
abbrev send : Handler (List String)
send arguments db = (ok (num 1), record db { rest = "sent" ∷ db.rest })

abbrev sender : ToolDefinition (List String)
sender = definition "gateway_send" "Send" "external.write" true send

abbrev linter : ToolDefinition (List String)
linter = definition "wiki_lint" "Lint" "wiki.write" false send

abbrev registry : List (ToolDefinition (List String)) → Registry (List String)
registry tools = record {
  tools = tools;
  sink = record { attached = true; runtime = []; audits = [] };
  max_direct_tool_schemas = 32;
}

-- `tool_call` over a registry with the gated sender, and the registry that has it.
abbrev caller : ToolDefinition (List String)
caller = definition "tool_call" "Call" "system.write" false (tool_call (registry (sender ∷ [])))

abbrev outer : Registry (List String)
outer = registry (caller ∷ sender ∷ [])

abbrev db : ToolDb (List String)
db = record {
  runs = [];
  approvals = [];
  sink = record { attached = true; runtime = []; audits = [] };
  supply = 0;
  rest = [];
}

abbrev hello : Fields
hello = field "text" (string "hello") end

abbrev destructive : Fields
destructive = field "text" (string "RM  -rf /") end

approval_gate_example :
    let (r, after) = execute env (registry (sender ∷ [])) "gateway_send" hello "turn" false db in
    (a : Approval) × (r
      ≡ err (approval_required "tool requires approval: gateway_send" "gateway_send" a.id))
    × (after.approvals ≡ [] ++ (a ∷ []))
    × Asked env "gateway_send" hello "turn" a
    × (after.runs ≡ [])
    × (after.rest ≡ [])
unfolding get
approval_gate_example =
    approval_gate env (registry (sender ∷ [])) "gateway_send" hello "turn" db sender send refl refl
      refl refl refl

floor_blocks_example :
    let (r, after) = execute env (registry (linter ∷ [])) "wiki_lint" destructive "turn" true db in
    (r ≡ err (permission_error "blocked by hard safety floor: \\brm\\s+-rf\\s+/"))
    × (after.runs ≡ [])
    × (after.approvals ≡ [])
    × (after.rest ≡ [])
unfolding get first_blocked blocked_patterns search_from match_here is_word fold_case is_space
floor_blocks_example =
    floor_blocks env (registry (linter ∷ [])) "wiki_lint" destructive "turn" db true linter send
      "\\brm\\s+-rf\\s+/" refl refl refl refl refl

run_tool_closes_example :
    (run : ToolRun) × ((run_tool env send "wiki_lint" hello "turn" false db).1.runs
      ≡ [] ++ (run ∷ []))
    × Closed env "wiki_lint" hello (run_tool env send "wiki_lint" hello "turn" false db).0 run
unfolding find_run
run_tool_closes_example =
    run_tool_closes env send "wiki_lint" hello "turn" false db refl (λ a s. refl)

abbrev call_flagged : Fields
call_flagged = field "tool_name" (string "gateway_send") (field "_approved" (flag true) end)

tool_call_trusts_flag_example :
    let (r, after) = execute env outer "tool_call" call_flagged "turn" false db in
    (x : Executed) × (r ≡ ok x)
    × (x.result ≡ obj (field "tool_name" (string "gateway_send") (field "result" (num 1) end)))
    × (after.approvals ≡ [])
unfolding get first_blocked blocked_patterns search_from match_here is_word fold_case field_get
    truthy
tool_call_trusts_flag_example =
    tool_call_trusts_flag env outer (registry (sender ∷ [])) caller sender send call_flagged "turn"
      db refl refl refl refl refl refl refl refl refl refl refl (num 1) refl (λ a s. refl)
      (λ a s. refl)
