-- ===== src/Platform/Servers.antt =====
-- MCP servers and their import from a seed file: `upsert_mcp_server` and `import_mcp_seed` of
-- backend/domain/platform.py.
use Prim.Native.String
use soul_claw.Base.{
  ℕ, ◌+◌, String, Bool, true, false, not, ◌&&◌, ◌||◌, [], Option, none, some, Exec, ok, value_error,
  Json, null, flag, num, string, arr, obj, Fields, end, field, info, field_get, truthy, as_fields,
  text_or_empty, str_eq, is_empty, or_else, starts_with, if◌then◌else◌, pure, raise, ◌>>=◌, ◌>>◌,
}
use soul_claw.Platform.State.{
  McpServer, PlatformDb, PlatformEnv, emit_to, audit_to, find_named, put_named,
}

-- What `upsert_mcp_server` is called with
pub record ServerRequest : Type 0 where
  pub name : String
  pub transport : String
  pub command : String
  pub url : String
  pub config : Fields
  pub enabled : Bool
  pub config_source : String
  pub permission_policy : Fields
  pub session_mode : String
  pub health_status : String
  pub last_imported_checksum : String

abbrev pub server_name : McpServer → String
server_name s = s.name

-- the columns that it keeps: the time of the last connection, and what an enabled server had
abbrev pub connected_of : Option McpServer → Option ℕ
connected_of none = none
connected_of (some s) = s.last_connected_at

abbrev pub kept {ℓ} : {A : Type ℓ} → Bool → A → (McpServer → A) → Option McpServer → A
kept enabled default f none = default
kept enabled default f (some s) = if enabled then f s else default

unfoldable pub server_row : ServerRequest → Option McpServer → McpServer
server_row r old = record {
  name = r.name;
  transport = r.transport;
  command = r.command;
  url = r.url;
  config = r.config;
  config_source = or_else r.config_source "manual";
  permission_policy = r.permission_policy;
  session_mode = r.session_mode;
  health_status = r.health_status;
  last_imported_checksum = r.last_imported_checksum;
  enabled = r.enabled;
  status = if r.enabled then "pending" else "disabled";
  last_connected_at = connected_of old;
  last_error = kept r.enabled "" (λ s. s.last_error) old;
  tool_count = kept r.enabled 0 (λ s. s.tool_count) old;
  tools_cache = kept r.enabled [] (λ s. s.tools_cache) old;
}

abbrev pub is_transport : String → Bool
is_transport t =
    str_eq t "stdio" || (str_eq t "sse" || (str_eq t "streamable_http" || str_eq t "http"))

unfoldable pub save_server : ServerRequest → Exec PlatformDb McpServer
unfolding server_row find_named put_named emit_to audit_to pure
save_server r db =
    (do
      let s = server_row r (find_named server_name r.name db.servers)
      (λ before. (ok tt, record before { servers = put_named server_name s before.servers }))
      emit_to "mcp.upsert" info (
          field "name" (string r.name)
            (field "transport" (string r.transport) (field "enabled" (flag r.enabled) end)))
      audit_to "mcp.upsert" "mcp_server" r.name
          (field "transport" (string r.transport) (field "enabled" (flag r.enabled) end))
      pure s)
      db

-- `upsert_mcp_server`
unfoldable pub upsert_mcp_server : ServerRequest → Exec PlatformDb McpServer
unfolding save_server raise
upsert_mcp_server r =
    if not (is_transport r.transport)
    then raise (value_error "unsupported MCP transport")
    else if not (str_eq r.session_mode "transient" || str_eq r.session_mode "managed")
    then raise (value_error "unsupported MCP session_mode")
    else if str_eq r.transport "stdio" && is_empty r.command
    then raise (value_error "stdio MCP servers require a command")
    else if not (str_eq r.transport "stdio") && is_empty r.url
    then raise (value_error "network MCP servers require a url")
    else save_server r

-- the configuration without the keys that have columns of their own
unfoldable pub other_keys : Fields → Fields
other_keys end = end
other_keys (field k v rest) =
    let others = other_keys rest in
    if str_eq k "transport" || (str_eq k "command" || (str_eq k "url" || str_eq k "enabled"))
    then others
    else field k v others

-- `bool(raw_config.get("enabled", True))`
abbrev pub enabled_of : Option Json → Bool
enabled_of none = true
enabled_of (some v) = truthy (some v)

-- the request for one entry of the seed
unfoldable pub seed_request : PlatformEnv → String → String → Fields → ServerRequest
unfolding other_keys field_get truthy
seed_request env path name raw = record {
  name = name;
  transport = or_else (text_or_empty (field_get "transport" raw)) "stdio";
  command = text_or_empty (field_get "command" raw);
  url = text_or_empty (field_get "url" raw);
  config = other_keys raw;
  enabled = enabled_of (field_get "enabled" raw);
  config_source = String.◌++◌ "yaml:" path;
  permission_policy = as_fields (field_get "tools" (other_keys raw));
  session_mode =
      or_else (text_or_empty (field_get "session_mode" raw))
        (or_else (text_or_empty (field_get "session_mode" (other_keys raw))) "transient");
  health_status = "unknown";
  last_imported_checksum = env.checksum raw;
}

-- An entry is skipped where its server was made by hand, or was imported as it is now.
abbrev pub is_skipped : PlatformEnv → Fields → Option McpServer → Bool
is_skipped env raw none = false
is_skipped env raw (some s) =
    not (starts_with s.config_source "yaml:") || str_eq s.last_imported_checksum (env.checksum raw)

unfoldable pub import_config : PlatformEnv → String → String → Fields → Exec PlatformDb Bool
unfolding seed_request upsert_mcp_server find_named pure
import_config env path name raw db =
    if is_skipped env raw (find_named server_name name db.servers)
    then pure false db
    else (do server ← upsert_mcp_server (seed_request env path name raw); pure true) db

-- one pass of the loop: whether the entry was imported
unfoldable pub import_entry : PlatformEnv → String → String → Json → Exec PlatformDb Bool
unfolding import_config pure
import_entry env path name (obj raw) = import_config env path name raw
import_entry env path name null = pure false
import_entry env path name (flag b) = pure false
import_entry env path name (num n) = pure false
import_entry env path name (string s) = pure false
import_entry env path name (arr xs) = pure false

-- the loop: how many entries were imported and how many were skipped
unfoldable pub import_each : PlatformEnv → String → Fields → ℕ → ℕ → Exec PlatformDb (ℕ × ℕ)
unfolding import_entry pure
import_each env path end imported skipped = pure (imported, skipped)
import_each env path (field name raw rest) imported skipped = do
  was ← import_entry env path name raw
  import_each env path rest (imported + (if was then 1 else 0)) (skipped + (if was then 0 else 1))

-- What `import_mcp_seed` returns
pub record SeedReport : Type 0 where
  pub imported : ℕ
  pub skipped : ℕ
  pub missing : Bool

unfoldable pub import_servers : PlatformEnv → String → Fields → Exec PlatformDb SeedReport
unfolding import_each emit_to pure
import_servers env path servers = do
  counts ← import_each env path servers 0 0
  emit_to "mcp.seed.imported" info (
      field "path" (string path)
        (field "imported" (num counts.0) (field "skipped" (num counts.1) end)))
  pure (record { imported = counts.0; skipped = counts.1; missing = false })

abbrev pub import_value : PlatformEnv → String → Option Json → Exec PlatformDb SeedReport
import_value env path (some (obj servers)) = import_servers env path servers
import_value env path _ = raise (value_error "MCP seed file must contain a mapping at `servers`")

-- `loaded.get("servers") if isinstance(loaded, dict) else {}`, of the file's value or `{}`
abbrev pub servers_of : Json → Option Json
servers_of (obj d) = field_get "servers" d
servers_of v = if truthy (some v) then some (obj end) else none

-- `import_mcp_seed`, for the value that the file holds, if it exists
unfoldable pub import_mcp_seed : PlatformEnv → String → Option Json → Exec PlatformDb SeedReport
unfolding import_servers field_get truthy raise pure
import_mcp_seed env path none = pure (record { imported = 0; skipped = 0; missing = true })
import_mcp_seed env path (some loaded) = import_value env path (servers_of loaded)
