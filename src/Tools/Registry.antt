-- ===== src/Tools/Registry.antt =====
-- `ToolRegistry` of backend/domain/tools.py: the dictionary of tools, and the tools that look at it or
-- call through it.
use Prim.Native.String.{compare as compare_text}
use Prim.Native.Nat.{Ordering}
use text.Mathlib.Text.{find?}
use soul_claw.Base.{
  as_fields, text_or_empty, ℕ, String, Bool, true, false, ◌&&◌, ◌||◌, not, List, [], ◌∷◌, Option,
  none, some, Exec, Result, ok, err, key_error, value_error, runtime_error, permission_error, Json,
  Fields, flag, string, obj, end, field, field_get, field_put, truthy, info, emit, Sink, f_string,
  str_eq, is_empty, is_some, member, length, keep, take, sort_by, starts_with, if◌then◌else◌, leb,
  min, max,
}
use soul_claw.Tools.State.{ToolDefinition, ToolDb, ToolEnv, Handler}
use soul_claw.Tools.Floor.{is_mutating}

-- One item of `_tool_search`; the score is 1.0 where `in_name`, else 0.7.
pub record SearchItem (S : Type 0) : Type 0 where
  pub tool : ToolDefinition S
  pub in_name : Bool

-- `self._tools` and the bus. A dictionary keeps the place of a key that is assigned again.
pub record Registry (S : Type 0) : Type 0 where
  pub tools : List (ToolDefinition S)
  pub sink : Sink
  pub max_direct_tool_schemas : ℕ

unfoldable pub emit_unregistered : List String → Sink → Sink
emit_unregistered [] sink = sink
emit_unregistered (n ∷ ns) sink =
    emit_unregistered ns (emit "tool.unregistered" info (field "tool_name" (string n) end) sink)

unfoldable pub is_direct : String → Bool
is_direct name = member name (
    "tool_search" ∷ "tool_describe" ∷ "tool_call" ∷ "wiki_orient" ∷ "wiki_route" ∷ "wiki_browse"
    ∷ "wiki_search" ∷ "wiki_read" ∷ "wiki_follow_links" ∷ "memory_search" ∷ "skill_search"
    ∷ "skill_read" ∷ "wiki_sufficiency_check" ∷ [])

module _ {S : Type 0} where
  unfoldable pub find_tool : String → List (ToolDefinition S) → Option (ToolDefinition S)
  find_tool name [] = none
  find_tool name (t ∷ ts) = if str_eq t.name name then some t else find_tool name ts

  unfoldable pub put_tool : ToolDefinition S → List (ToolDefinition S) → List (ToolDefinition S)
  put_tool d [] = d ∷ []
  put_tool d (t ∷ ts) = if str_eq t.name d.name then d ∷ ts else t ∷ put_tool d ts

  -- `get`
  unfoldable pub get : Registry S → String → Option (ToolDefinition S)
  unfolding find_tool
  get reg name = find_tool name reg.tools

  -- `register`
  unfoldable pub register : ToolDefinition S → Registry S → Registry S
  unfolding put_tool
  register d reg = record reg {
    tools = put_tool d reg.tools;
    sink =
        emit "tool.registered" info
          (field "tool_name" (string d.name) (field "scope" (string d.scope) end)) reg.sink;
  }

  -- `register_many`
  unfoldable pub register_many : List (ToolDefinition S) → Registry S → Registry S
  register_many [] reg = reg
  register_many (d ∷ ds) reg = register_many ds (register d reg)

  unfoldable pub remove_prefix : String → List (ToolDefinition S) → List (ToolDefinition S)
  remove_prefix prefix [] = []
  remove_prefix prefix (t ∷ ts) =
      let rest = remove_prefix prefix ts in if starts_with t.name prefix then rest else t ∷ rest

  unfoldable pub names_with : String → List (ToolDefinition S) → List String
  names_with prefix [] = []
  names_with prefix (t ∷ ts) =
      let rest = names_with prefix ts in if starts_with t.name prefix then t.name ∷ rest else rest

  -- `unregister_prefix`
  unfoldable pub unregister_prefix : String → Registry S → ℕ × Registry S
  unfolding remove_prefix names_with emit_unregistered
  unregister_prefix prefix reg =
      let names = names_with prefix reg.tools in
      (
        length names,
        record reg {
          tools = remove_prefix prefix reg.tools;
          sink = emit_unregistered names reg.sink;
        },
      )

  abbrev pub name_before : ToolDefinition S → ToolDefinition S → Bool
  name_before a b = elim (compare_text a.name b.name) [ Ordering.gt ↦ false | _ ↦ true ]

  -- `list`
  unfoldable pub list_tools : Registry S → List (ToolDefinition S)
  list_tools reg = sort_by name_before reg.tools

  -- `openai_tools`, as the definitions whose schemas it returns
  unfoldable pub openai_tools : Registry S → List (ToolDefinition S)
  unfolding list_tools
  openai_tools reg =
      let available = keep (λ t. t.available) (list_tools reg) in
      if leb (length available) reg.max_direct_tool_schemas
      then available
      else keep (λ t. is_direct t.name) available

  abbrev pub haystack : ToolEnv → ToolDefinition S → String
  haystack env t = env.lower (f_string (t.name ∷ " " ∷ t.description ∷ " " ∷ t.scope ∷ []))

  unfoldable pub search_items : ToolEnv → String → List (ToolDefinition S) → List (SearchItem S)
  search_items env query [] = []
  search_items env query (t ∷ ts) =
      let rest = search_items env query ts in
      if not (is_empty query) && not (is_some (find? (haystack env t) query))
      then rest
      else record {
        tool = t;
        in_name = not (is_empty query) && is_some (find? (env.lower t.name) query);
      }
        ∷ rest

  -- `_tool_search`, for a query that is stripped and in lower case: the items and the total
  unfoldable pub tool_search : ToolEnv → Registry S → String → ℕ → List (SearchItem S) × ℕ
  unfolding search_items
  tool_search env reg query limit =
      let items = search_items env query (list_tools reg) in
      (take (max 1 (min limit 100)) items, length items)

module _ {S : Type 0} where
  abbrev pub wrap : String → Result Json × ToolDb S → Result Json × ToolDb S
  wrap name (ok v, db) = (ok (obj (field "tool_name" (string name) (field "result" v end))), db)
  wrap name (err e, db) = (err e, db)

  -- `_tool_call` once the tool is found, with the guards in the code's order
  unfoldable pub call_found : String → ToolDefinition S → Handler S → Fields → Exec (ToolDb S) Json
  call_found name tool handler arguments db =
      if not tool.available
      then (err (runtime_error (f_string ("tool unavailable: " ∷ name ∷ []))), db)
      else if (tool.requires_approval || is_mutating tool.scope)
          && not (truthy (field_get "_approved" arguments))
      then (err (permission_error (f_string ("tool requires approval: " ∷ name ∷ []))), db)
      else wrap name (
          handler
            (let given = as_fields (field_get "arguments" arguments) in
              if truthy (field_get "_approved" arguments)
              then field_put "_approved" (flag true) given
              else given)
            db)

  unfoldable pub call_or_missing :
      String → Option (ToolDefinition S) → Fields → Exec (ToolDb S) Json
  unfolding call_found
  call_or_missing name none arguments db =
      (err (key_error (f_string ("tool not found: " ∷ name ∷ []))), db)
  call_or_missing name (some tool) arguments db = elim tool.handler [
    | none ↦ (err (key_error (f_string ("tool not found: " ∷ name ∷ []))), db)
    | some handler ↦ call_found name tool handler arguments db
  ]

  -- `_tool_call`
  unfoldable pub tool_call : Registry S → Handler S
  unfolding call_or_missing get
  tool_call reg arguments db =
      let name = text_or_empty (field_get "tool_name" arguments) in
      if str_eq name "tool_call" || is_empty name
      then (err (value_error "tool_call requires a non-recursive target tool_name"), db)
      else call_or_missing name (get reg name) arguments db
