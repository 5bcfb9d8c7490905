-- ===== src/Platform/Seeds.antt =====
-- What one entry of a seed file does to the servers.
use soul_claw.Base.{
  ℕ, ◌+◌, String, Bool, true, false, not, ◌&&◌, ◌||◌, ◌≡◌, refl, ◌∙◌, Option, some, Exec, Result,
  ok, err, value_error, PyError, Json, null, flag, num, string, arr, obj, Fields, end, field, arith,
  str_eq, eq_refl, is_empty, starts_with, if◌then◌else◌, Bool-cases, inl, inr, pure, raise, then_do,
}
use soul_claw.Platform.State.{McpServer, PlatformDb, PlatformEnv, emit_to, audit_to, find_named}
use soul_claw.Platform.Servers.{
  ServerRequest, server_name, server_row, is_transport, save_server, upsert_mcp_server,
  seed_request, is_skipped, import_config, import_entry,
}
use soul_claw.Platform.Schedules.{find-put_named}

abbrev pub find_server : String → PlatformDb → Option McpServer
find_server name db = find_named server_name name db.servers

-- nothing is left to import of this entry
abbrev pub done_with : PlatformEnv → Json → Option McpServer → Bool
done_with env (obj raw) s = is_skipped env raw s
done_with env _ s = true

save_server-find :
    (r : ServerRequest) (k : String) (db : PlatformDb)
    → find_server k (save_server r db).1
      ≡ (if str_eq r.name k then some (server_row r (find_server r.name db)) else find_server k db)
unfolding save_server emit_to audit_to pure server_row
save_server-find r k db =
    find-put_named server_name k (server_row r (find_server r.name db)) db.servers

-- the four checks: either they pass, or an error is raised and nothing changes
data Checked (act : Exec PlatformDb McpServer) (db : PlatformDb) (x : Result McpServer × PlatformDb)
    : Type 0 where
  passed : x ≡ act db → Checked act db x
  raised : (e : PyError) → x ≡ (err e, db) → Checked act db x

four_checks :
    (a b c d : Bool) (m₁ m₂ m₃ m₄ : String) (act : Exec PlatformDb McpServer) (db : PlatformDb)
    → Checked act db (
        (if a
            then raise (value_error m₁)
            else if b
            then raise (value_error m₂)
            else if c
            then raise (value_error m₃)
            else if d
            then raise (value_error m₄)
            else act)
          db)
unfolding raise
four_checks true b c d m₁ m₂ m₃ m₄ act db = raised (value_error m₁) refl
four_checks false true c d m₁ m₂ m₃ m₄ act db = raised (value_error m₂) refl
four_checks false false true d m₁ m₂ m₃ m₄ act db = raised (value_error m₃) refl
four_checks false false false true m₁ m₂ m₃ m₄ act db = raised (value_error m₄) refl
four_checks false false false false m₁ m₂ m₃ m₄ act db = passed refl

upsert-Checked :
    (r : ServerRequest) (db : PlatformDb) → Checked (save_server r) db (upsert_mcp_server r db)
unfolding upsert_mcp_server
upsert-Checked r db =
    four_checks (not (is_transport r.transport))
      (not (str_eq r.session_mode "transient" || str_eq r.session_mode "managed"))
      (str_eq r.transport "stdio" && is_empty r.command)
      (not (str_eq r.transport "stdio") && is_empty r.url) "unsupported MCP transport"
      "unsupported MCP session_mode" "stdio MCP servers require a command"
      "network MCP servers require a url" (save_server r) db

saved :
    (r : ServerRequest) (db : PlatformDb)
    → save_server r db ≡ (ok (server_row r (find_server r.name db)), (save_server r db).1)
unfolding save_server pure emit_to audit_to
saved r db = refl

or_true : (b : Bool) → b || true ≡ true
or_true true = refl
or_true false = refl

-- no key of the mapping is this one, and no key stands twice
abbrev pub Absent : String → Fields → Type 0
Absent k end = Unit
Absent k (field j v rest) = (str_eq j k ≡ false) × Absent k rest

abbrev pub HasDistinctKeys : Fields → Type 0
HasDistinctKeys end = Unit
HasDistinctKeys (field k v rest) = Absent k rest × HasDistinctKeys rest

-- how many entries a mapping has
abbrev pub size : Fields → ℕ
size end = 0
size (field k v rest) = size rest + 1

module _ (env : PlatformEnv) (path : String) where
  -- What an entry does: it leaves other servers, and if it returns there is nothing left to import of it.
  pub record Imported (name : String) (raw : Json) (db : PlatformDb) (x : Result Bool × PlatformDb)
      : Type 0 where
    pub others : (k : String) → str_eq name k ≡ false → find_server k x.1 ≡ find_server k db
    pub finished : (was : Bool) → x.0 ≡ ok was → done_with env raw (find_server name x.1) ≡ true

  upsert-Imported :
      (name : String) (raw : Fields) (db : PlatformDb) (x : Result McpServer × PlatformDb)
      → Checked (save_server (seed_request env path name raw)) db x
      → Imported name (obj raw) db (then_do x (λ server. pure true))
  unfolding pure seed_request server_row
  upsert-Imported name raw db x (passed e) =
      let r = seed_request env path name raw in
      rw e (
        rw (saved r db) (record {
          others = λ k ne. save_server-find r k db ∙ rw ne refl;
          finished = λ was h. rw (save_server-find r name db) (
              rw (eq_refl name)
                (rw (eq_refl (env.checksum raw)) (or_true (not (starts_with _ "yaml:")))));
        }))
  upsert-Imported name raw db x (raised f e) =
      rw e (record { others = λ k ne. refl; finished = λ was h. ground arith })

  import_config-Imported :
      (name : String) (raw : Fields) (db : PlatformDb)
      → Imported name (obj raw) db (import_config env path name raw db)
  unfolding import_config pure
  import_config-Imported name raw db =
      elim (Bool-cases (is_skipped env raw (find_server name db))) [
        | inl e ↦ rw e (record { others = λ k ne. refl; finished = λ was h. e })
        | inr e ↦
            rw e
              (upsert-Imported name raw db _ (upsert-Checked (seed_request env path name raw) db))
      ]

  pub import_entry-Imported :
      (name : String) (raw : Json) (db : PlatformDb)
      → Imported name raw db (import_entry env path name raw db)
  unfolding import_entry pure
  import_entry-Imported name (obj raw) db = import_config-Imported name raw db
  import_entry-Imported name null db = record { others = λ k ne. refl; finished = λ was h. refl }
  import_entry-Imported name (flag b) db = record {
    others = λ k ne. refl;
    finished = λ was h. refl;
  }
  import_entry-Imported name (num n) db = record { others = λ k ne. refl; finished = λ was h. refl }
  import_entry-Imported name (string t) db = record {
    others = λ k ne. refl;
    finished = λ was h. refl;
  }
  import_entry-Imported name (arr xs) db = record {
    others = λ k ne. refl;
    finished = λ was h. refl;
  }

  pub import_done :
      (name : String) (raw : Json) (db : PlatformDb)
      → done_with env raw (find_server name db) ≡ true
      → import_entry env path name raw db ≡ (ok false, db)
  unfolding import_entry import_config pure
  import_done name (obj raw) db h = rw h refl
  import_done name null db h = refl
  import_done name (flag b) db h = refl
  import_done name (num n) db h = refl
  import_done name (string t) db h = refl
  import_done name (arr xs) db h = refl
