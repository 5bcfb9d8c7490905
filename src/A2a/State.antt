-- ===== src/A2a/State.antt =====
-- The rows of backend/infra/models.py that `A2AService` works on, and what it takes from outside.
use soul_claw.Base.{
  ℕ, String, Bool, List, [], ◌∷◌, Option, none, some, Exec, ok, Fields, Sink, Severity, emit, audit,
  str_eq, if◌then◌else◌,
}

pub record Connection : Type 0 where
  pub name : String
  pub kind : String
  pub endpoint : String
  pub rpc_url : String
  pub agent_card : Fields
  pub config : Fields
  pub enabled : Bool
  pub status : String
  pub capabilities : List String
  pub skills : List Fields
  pub last_error : String
  pub last_discovered_at : Option ℕ

pub record Task : Type 0 where
  pub task_id : String
  pub connection_name : String
  pub capability : String
  pub context_id : String
  pub remote_task_id : String
  pub remote_context_id : String
  pub status : String
  pub input_text : String
  pub result : Fields
  pub error : String
  pub metadata : Fields
  pub started_at : Option ℕ
  pub finished_at : Option ℕ

pub record Event : Type 0 where
  pub task_id : String
  pub event_type : String
  pub sequence : ℕ
  pub payload : Fields

pub record Artifact : Type 0 where
  pub task_id : String
  pub artifact_id : String
  pub name : String
  pub mime_type : String
  pub content : String
  pub uri : String
  pub parts : List Fields
  pub metadata : Fields

-- The tables in the order of `created_at`, the events told, and the number of ids drawn
pub record A2aDb : Type 0 where
  pub connections : List Connection
  pub tasks : List Task
  pub events : List Event
  pub artifacts : List Artifact
  pub sink : Sink
  pub supply : ℕ

-- The clock, `uuid4().hex` and `str.lower`
pub record A2aEnv : Type 0 where
  pub now : ℕ
  pub uuid4_hex : ℕ → String
  pub lower : String → String

unfoldable pub emit_to : String → Severity → Fields → Exec A2aDb (Unit {0})
emit_to name severity payload db = (ok tt, record db { sink = emit name severity payload db.sink })

unfoldable pub audit_to : String → String → String → Fields → Exec A2aDb (Unit {0})
audit_to action target_type target_id payload db =
    (ok tt, record db { sink = audit action target_type target_id payload db.sink })

unfoldable pub find_connection : String → List Connection → Option Connection
find_connection name [] = none
find_connection name (c ∷ cs) = if str_eq c.name name then some c else find_connection name cs

-- The row of this name takes the columns; a new row where there is none.
unfoldable pub put_connection : Connection → List Connection → List Connection
put_connection c [] = c ∷ []
put_connection c (d ∷ ds) = if str_eq d.name c.name then c ∷ ds else d ∷ put_connection c ds

unfoldable pub find_task : String → List Task → Option Task
find_task id [] = none
find_task id (t ∷ ts) = if str_eq t.task_id id then some t else find_task id ts

unfoldable pub put_task : Task → List Task → List Task
put_task t [] = []
put_task t (u ∷ us) = if str_eq u.task_id t.task_id then t ∷ us else u ∷ put_task t us
