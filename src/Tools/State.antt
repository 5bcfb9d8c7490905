-- ===== src/Tools/State.antt =====
-- Tool definitions, the rows that the executor writes, and the session that handlers work on.
use soul_claw.Base.{
  ℕ, ◌+◌, String, Bool, List, [], ◌∷◌, Option, none, some, Exec, ok, Json, Fields, Sink, Severity,
  emit, audit, str_eq, if◌then◌else◌,
}

pub record ToolRun : Type 0 where
  pub id : String
  pub turn_id : String
  pub tool_name : String
  pub status : String
  pub arguments : Fields
  pub result : Json
  pub finished_at : Option ℕ

pub record Approval : Type 0 where
  pub id : String
  pub status : String
  pub subject_type : String
  pub subject_id : String
  pub payload : Fields
  pub turn_checkpoint : Fields
  pub original_tool_call : Fields
  pub allowed_decisions : List String
  pub edited_arguments : Fields
  pub resume_state : Fields
  pub resolved_at : Option ℕ

-- The session: the tables of tool runs and approvals, the events, and `rest`, all the state that
-- only the handlers touch. `supply` counts the ids drawn.
pub record ToolDb (S : Type 0) : Type 0 where
  pub runs : List ToolRun
  pub approvals : List Approval
  pub sink : Sink
  pub supply : ℕ
  pub rest : S

abbrev pub Handler : Type 0 → Type 0
Handler S = Fields → Exec (ToolDb S) Json

-- `ToolDefinition`; the JSON schema of the parameters is only passed on, and is left out.
pub record ToolDefinition (S : Type 0) : Type 0 where
  pub name : String
  pub description : String
  pub scope : String
  pub requires_approval : Bool
  pub available : Bool
  pub handler : Option (Handler S)

-- The clock, the ids of `uuid4`, `repr` of a dictionary, `str.lower`, and whether the services that
-- may be `None` are there.
pub record ToolEnv : Type 0 where
  pub now : ℕ
  pub uuid4 : ℕ → String
  pub repr : Fields → String
  pub lower : String → String
  pub has_platform : Bool

module _ {S : Type 0} where
  unfoldable pub fresh_id : ToolEnv → Exec (ToolDb S) String
  fresh_id env db = (ok (env.uuid4 db.supply), record db { supply = db.supply + 1 })

  unfoldable pub emit_to : String → Severity → Fields → Exec (ToolDb S) (Unit {0})
  emit_to name severity payload db =
      (ok tt, record db { sink = emit name severity payload db.sink })

  unfoldable pub audit_to : String → String → String → Fields → Exec (ToolDb S) (Unit {0})
  audit_to action target_type target_id payload db =
      (ok tt, record db { sink = audit action target_type target_id payload db.sink })

-- The row with the run's id takes the run's columns.
unfoldable pub put_run : ToolRun → List ToolRun → List ToolRun
put_run r [] = []
put_run r (q ∷ qs) = if str_eq q.id r.id then r ∷ qs else q ∷ put_run r qs

unfoldable pub find_run : String → List ToolRun → Option ToolRun
find_run id [] = none
find_run id (q ∷ qs) = if str_eq q.id id then some q else find_run id qs

unfoldable pub find_approval : String → List Approval → Option Approval
find_approval id [] = none
find_approval id (a ∷ as') = if str_eq a.id id then some a else find_approval id as'

unfoldable pub put_approval : Approval → List Approval → List Approval
put_approval a [] = []
put_approval a (b ∷ bs) = if str_eq b.id a.id then a ∷ bs else b ∷ put_approval a bs
