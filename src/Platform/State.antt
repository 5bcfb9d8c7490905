-- ===== src/Platform/State.antt =====
-- The rows that `PlatformService` (backend/domain/platform.py) writes. Of a cron job these are the
-- columns that it sets; the others are the scheduler's.
use soul_claw.Base.{
  ℕ, String, Bool, List, [], ◌∷◌, Option, none, some, Exec, ok, Fields, Sink, Severity, emit, audit,
  str_eq, if◌then◌else◌,
}
use soul_claw.Tools.State.{Approval}
use soul_claw.Gateway.State.{GatewayConnection}

pub record CronEntry : Type 0 where
  pub name : String
  pub cron_expr : String
  pub timezone : String
  pub instruction : String
  pub enabled : Bool
  pub next_run_at : Option ℕ
  pub metadata : Fields

pub record McpServer : Type 0 where
  pub name : String
  pub transport : String
  pub command : String
  pub url : String
  pub config : Fields
  pub config_source : String
  pub permission_policy : Fields
  pub session_mode : String
  pub health_status : String
  pub last_imported_checksum : String
  pub enabled : Bool
  pub status : String
  pub last_connected_at : Option ℕ
  pub last_error : String
  pub tool_count : ℕ
  pub tools_cache : List Fields

pub record PlatformDb : Type 0 where
  pub approvals : List Approval
  pub cron_jobs : List CronEntry
  pub servers : List McpServer
  pub gateways : List GatewayConnection
  pub sink : Sink

-- The clock, croniter's check of an expression and its next time in a time zone, and the digest of a
-- configuration
pub record PlatformEnv : Type 0 where
  pub now : ℕ
  pub is_valid_cron : String → Bool
  pub compute_next_run : String → String → ℕ
  pub checksum : Fields → String

unfoldable pub emit_to : String → Severity → Fields → Exec PlatformDb (Unit {0})
emit_to name severity payload db = (ok tt, record db { sink = emit name severity payload db.sink })

unfoldable pub audit_to : String → String → String → Fields → Exec PlatformDb (Unit {0})
audit_to action target_type target_id payload db =
    (ok tt, record db { sink = audit action target_type target_id payload db.sink })

-- Rows by their name, which a table holds once: the row with this name, and the row put in its place, or
-- added where there is none.
module _ {A : Type 0} (name_of : A → String) where
  unfoldable pub find_named : String → List A → Option A
  find_named name [] = none
  find_named name (x ∷ xs) = if str_eq (name_of x) name then some x else find_named name xs

  unfoldable pub put_named : A → List A → List A
  put_named x [] = x ∷ []
  put_named x (y ∷ ys) = if str_eq (name_of y) (name_of x) then x ∷ ys else y ∷ put_named x ys
