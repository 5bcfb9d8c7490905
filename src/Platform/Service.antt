-- ===== src/Platform/Service.antt =====
-- Approvals, cron jobs and gateways: `PlatformService` of backend/domain/platform.py. `create_approval`
-- is with the tools.
use Prim.Native.String
use Prim.Native.Nat.{Ordering}
use soul_claw.Base.{
  ℕ, String, Bool, true, false, not, ◌&&◌, ◌||◌, List, [], ◌∷◌, Option, none, some, Exec, ok,
  value_error, key_error, Fields, string, flag, end, field, info, f_string, str_eq, is_empty,
  is_some, or_else, if◌then◌else◌, keep, take, reverse, sort_by, max, min, pure, raise, ◌>>◌,
}
use soul_claw.Tools.State.{Approval, find_approval, put_approval}
use soul_claw.Gateway.State.{GatewayConnection}
use soul_claw.Platform.State.{
  CronEntry, PlatformDb, PlatformEnv, emit_to, audit_to, find_named, put_named,
}

-- `list_approvals`; the table is in the order of `created_at`
unfoldable pub list_approvals : String → ℕ → PlatformDb → List Approval
list_approvals status limit db =
    take (max 1 (min limit 500))
      (reverse (keep (λ a. is_empty status || str_eq a.status status) db.approvals))

unfoldable pub save_approval : Approval → Exec PlatformDb (Unit {0})
save_approval a db = (ok tt, record db { approvals = put_approval a db.approvals })

abbrev pub resolve_row : PlatformEnv → String → String → Option Approval → Exec PlatformDb Approval
resolve_row env id status none = raise (key_error (f_string ("approval not found: " ∷ id ∷ [])))
resolve_row env id status (some a) = do
  let resolved = record a { status = status; resolved_at = some env.now }
  save_approval resolved
  emit_to "approval.resolved" info
      (field "approval_id" (string a.id) (field "status" (string status) end))
  audit_to "approval.resolve" "approval" a.id (field "status" (string status) end)
  pure resolved

-- `resolve_approval`
unfoldable pub resolve_approval : PlatformEnv → String → String → Exec PlatformDb Approval
unfolding save_approval emit_to audit_to pure raise find_approval
resolve_approval env id status db =
    if str_eq status "approved" || (str_eq status "rejected" || str_eq status "cancelled")
    then resolve_row env id status (find_approval id db.approvals) db
    else raise (value_error "approval status must be approved, rejected, or cancelled") db

abbrev pub text_le : String → String → Bool
text_le s t = elim (String.compare s t) [ Ordering.gt ↦ false | _ ↦ true ]

abbrev pub wanted : Option Bool → Bool → Bool
wanted none enabled = true
wanted (some true) enabled = enabled
wanted (some false) enabled = not enabled

-- `list_cron_jobs`
unfoldable pub list_cron_jobs : Option Bool → ℕ → PlatformDb → List CronEntry
unfolding sort_by
list_cron_jobs enabled limit db =
    take (max 1 (min limit 500))
      (sort_by (λ a b. text_le a.name b.name) (keep (λ j. wanted enabled j.enabled) db.cron_jobs))

abbrev pub cron_name : CronEntry → String
cron_name j = j.name

unfoldable pub save_cron : CronEntry → Exec PlatformDb (Unit {0})
unfolding put_named
save_cron j db = (ok tt, record db { cron_jobs = put_named cron_name j db.cron_jobs })

-- What the two operations on cron jobs are called with
pub record CronRequest : Type 0 where
  pub name : String
  pub cron_expr : String
  pub timezone : String
  pub instruction : String
  pub enabled : Bool
  pub metadata : Fields

-- `upsert_cron_job`; every column that it reads it has set before
unfoldable pub upsert_cron_job : PlatformEnv → CronRequest → Exec PlatformDb CronEntry
unfolding save_cron emit_to audit_to pure raise
upsert_cron_job env r =
    if not (env.is_valid_cron r.cron_expr)
    then raise (value_error "invalid cron expression")
    else do
      let job : CronEntry = record {
        name = r.name;
        cron_expr = r.cron_expr;
        timezone = r.timezone;
        instruction = r.instruction;
        enabled = r.enabled;
        next_run_at =
            if r.enabled then some (env.compute_next_run r.cron_expr r.timezone) else none;
        metadata = r.metadata;
      }
      save_cron job
      emit_to "cron.upsert" info
          (field "name" (string r.name) (field "enabled" (flag r.enabled) end))
      audit_to "cron.upsert" "cron_job" r.name (field "enabled" (flag r.enabled) end)
      pure job

-- the row that `ensure_system_cron_job` leaves: a new one, or the old one with its switch kept, and with
-- its next time too where neither the schedule changed nor the time is missing
unfoldable pub ensured : PlatformEnv → CronRequest → Option CronEntry → CronEntry
ensured env r none = record {
  name = r.name;
  cron_expr = r.cron_expr;
  timezone = r.timezone;
  instruction = r.instruction;
  enabled = r.enabled;
  next_run_at = if r.enabled then some (env.compute_next_run r.cron_expr r.timezone) else none;
  metadata = r.metadata;
}
ensured env r (some old) = record {
  name = old.name;
  cron_expr = r.cron_expr;
  timezone = r.timezone;
  instruction = r.instruction;
  enabled = old.enabled;
  next_run_at =
      if old.enabled
        && ((not (str_eq old.cron_expr r.cron_expr) || not (str_eq old.timezone r.timezone))
            || not (is_some old.next_run_at))
      then some (env.compute_next_run r.cron_expr r.timezone)
      else old.next_run_at;
  metadata = r.metadata;
}

-- `ensure_system_cron_job`. A new row's `next_run_at` is computed twice where its time zone is not the
-- column's default, both times for the same expression and zone.
unfoldable pub ensure_system_cron_job : PlatformEnv → CronRequest → Exec PlatformDb CronEntry
unfolding ensured save_cron emit_to pure raise find_named
ensure_system_cron_job env r db =
    if not (env.is_valid_cron r.cron_expr)
    then raise (value_error "invalid cron expression") db
    else (do
      let job = ensured env r (find_named cron_name r.name db.cron_jobs)
      save_cron job
      emit_to "cron.system.ensure" info
          (field "name" (string r.name) (field "enabled" (flag job.enabled) end))
      pure job)
        db

-- `list_gateways`
unfoldable pub list_gateways : String → ℕ → PlatformDb → List GatewayConnection
unfolding sort_by
list_gateways kind limit db = take (max 1 (min limit 500)) (
    sort_by (λ a b. text_le a.name b.name)
      (keep (λ g. is_empty kind || str_eq g.kind kind) db.gateways))

abbrev pub gateway_name : GatewayConnection → String
gateway_name g = g.name

-- a new row with the columns' defaults
abbrev pub new_gateway : String → String → GatewayConnection
new_gateway name kind = record {
  name = name;
  kind = kind;
  status = "disabled";
  endpoint = "";
  config = end;
  enabled = false;
  last_inbound_at = none;
  last_outbound_at = none;
  last_error = "";
  inbound_count = 0;
  outbound_count = 0;
  failure_count = 0;
}

abbrev pub gateway_or_new : String → String → Option GatewayConnection → GatewayConnection
gateway_or_new name kind none = new_gateway name kind
gateway_or_new name kind (some g) = g

abbrev pub is_gateway_kind : String → Bool
is_gateway_kind kind =
    str_eq kind "weixin"
    || (str_eq kind "wecom"
        || (str_eq kind "telegram"
            || (str_eq kind "slack" || (str_eq kind "webhook" || str_eq kind "local"))))

-- `upsert_gateway`; no status is the empty text
unfoldable pub upsert_gateway :
    String → String → String → Fields → Bool → String → Exec PlatformDb GatewayConnection
unfolding find_named put_named emit_to audit_to pure raise
upsert_gateway name kind endpoint config enabled status db =
    if not (is_gateway_kind kind)
    then raise (value_error "unsupported gateway kind") db
    else (do
      let old = gateway_or_new name kind (find_named gateway_name name db.gateways)
      let g : GatewayConnection = record old {
        kind = kind;
        endpoint = endpoint;
        config = config;
        enabled = enabled;
        status = if enabled then or_else status "enabled" else "disabled";
        last_error = if enabled then old.last_error else "";
      }
      (λ before. (ok tt, record before { gateways = put_named gateway_name g before.gateways }))
      emit_to "gateway.upsert" info (
          field "name" (string name)
            (field "kind" (string kind) (field "enabled" (flag enabled) end)))
      audit_to "gateway.upsert" "gateway" name
          (field "kind" (string kind) (field "enabled" (flag enabled) end))
      pure g)
        db
