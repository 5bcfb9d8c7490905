-- ===== src/Platform/Tests.antt =====
-- The theorems on the platform's rows at concrete data.
use soul_claw.Base.{
  Fields, true, false, ◌≡◌, refl, [], ◌∷◌, none, some, ok, end, field, string, obj, field_get,
}
use soul_claw.Platform.State.{PlatformDb, PlatformEnv, find_named}
use soul_claw.Platform.Service.{CronRequest, ensure_system_cron_job}
use soul_claw.Platform.Servers.{import_mcp_seed}
use soul_claw.Platform.Schedules.{ensure_twice}
use soul_claw.Platform.Reimport.{import_twice}

abbrev env : PlatformEnv
env = record {
  now = 5;
  is_valid_cron = λ s. true;
  compute_next_run = λ s zone. 60;
  checksum = λ d. "c";
}

abbrev empty : PlatformDb
empty = record {
  approvals = [];
  cron_jobs = [];
  servers = [];
  gateways = [];
  sink = record { attached = false; runtime = []; audits = [] };
}

abbrev dream : CronRequest
dream = record {
  name = "dream";
  cron_expr = "0 3 * * *";
  timezone = "UTC";
  instruction = "";
  enabled = true;
  metadata = end;
}

-- The second start is an hour later; an operator has switched the job off before the first.
abbrev switched_off : PlatformDb
switched_off = record empty {
  cron_jobs =
      record {
        name = "dream";
        cron_expr = "0 4 * * *";
        timezone = "UTC";
        instruction = "";
        enabled = false;
        next_run_at = none;
        metadata = end;
      }
      ∷ [];
}

ensure_twice_example :
    (ensure_system_cron_job
      (record env { compute_next_run = λ s zone. 3660 })
      dream
      (ensure_system_cron_job env dream switched_off).1).1.cron_jobs
    ≡ (ensure_system_cron_job env dream switched_off).1.cron_jobs
ensure_twice_example =
    ensure_twice env (record env { compute_next_run = λ s zone. 3660 }) dream switched_off refl refl

abbrev servers : Fields
servers = field "files" (obj (field "command" (string "mcp-files") end)) (
    field "web" (obj (field "transport" (string "http") (field "url" (string "http://web") end)))
      (field "note" (string "no server") end))

import_twice_example :
    let first =
      (import_mcp_seed env "mcp.yaml" (some (obj (field "servers" (obj servers) end))) empty).1 in
    let (answer, after) =
      import_mcp_seed env "mcp.yaml" (some (obj (field "servers" (obj servers) end))) first in
    (answer ≡ ok (record { imported = 0; skipped = 3; missing = false }))
    × (after.servers ≡ first.servers)
unfolding field_get import_mcp_seed find_named
import_twice_example =
    import_twice env "mcp.yaml" (field "servers" (obj servers) end) servers
      (record { imported = 2; skipped = 1; missing = false }) empty refl
      ((refl, (refl, tt)), ((refl, tt), (tt, tt))) refl
