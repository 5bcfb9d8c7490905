-- ===== src/Platform/Reimport.antt =====
-- Importing a seed file again.
use soul_claw.Base.{
  ℕ, ◌+◌, String, Bool, true, false, ◌≡◌, refl, ap, ◌∙◌, List, some, Result, ok, err, Json, obj,
  Fields, end, field, field_get, arith, str_eq, if◌then◌else◌, pure, then_do, Exec,
}
use soul_claw.Platform.State.{McpServer, PlatformDb, PlatformEnv, emit_to, find_named}
use soul_claw.Platform.Servers.{
  server_name, import_entry, import_each, SeedReport, import_servers, import_mcp_seed,
}
use soul_claw.Platform.Seeds.{
  find_server, done_with, Imported, import_entry-Imported, import_done, Absent, HasDistinctKeys,
  size,
}

abbrev pub counted : ℕ → Bool → ℕ
counted n was = n + (if was then 1 else 0)

module _ (env : PlatformEnv) (path : String) where
  -- nothing is left to import of any entry
  abbrev AllDone : Fields → List McpServer → Type 0
  AllDone end servers = Unit
  AllDone (field name raw rest) servers =
      (done_with env raw (find_named server_name name servers) ≡ true) × AllDone rest servers

  -- the loop behind the first entry
  abbrev rest_of : Fields → ℕ → ℕ → Bool → Exec PlatformDb (ℕ × ℕ)
  rest_of rest i s was = import_each env path rest (counted i was) (s + (if was then 0 else 1))

  next-others :
      (name k : String) (raw : Json) (rest : Fields) (i s : ℕ) (db : PlatformDb)
      (x : Result Bool × PlatformDb)
      → str_eq name k ≡ false
      → Imported env path name raw db x
      → ((was : Bool) (db' : PlatformDb)
          → find_server k (rest_of rest i s was db').1 ≡ find_server k db')
      → find_server k (then_do x (rest_of rest i s)).1 ≡ find_server k db
  next-others name k raw rest i s db (ok was, db') ne h go = go was db' ∙ h.others k ne
  next-others name k raw rest i s db (err e, db') ne h go = h.others k ne

  each-others :
      (fs : Fields) (k : String) (i s : ℕ) (db : PlatformDb)
      → Absent k fs
      → find_server k (import_each env path fs i s db).1 ≡ find_server k db
  unfolding import_each pure
  each-others end k i s db absent = refl
  each-others (field name raw rest) k i s db absent =
      next-others name k raw rest i s db (import_entry env path name raw db) absent.0
        (import_entry-Imported env path name raw db)
        (λ was db'. each-others rest k (counted i was) (s + (if was then 0 else 1)) db' absent.1)

  next-done :
      (name : String) (raw : Json) (rest : Fields) (i s : ℕ) (counts : ℕ × ℕ) (db : PlatformDb)
      (x : Result Bool × PlatformDb)
      → Absent name rest
      → Imported env path name raw db x
      → (then_do x (rest_of rest i s)).0 ≡ ok counts
      → ((was : Bool) (db' : PlatformDb)
          → (rest_of rest i s was db').0 ≡ ok counts
          → AllDone rest (rest_of rest i s was db').1.servers)
      → AllDone (field name raw rest) (then_do x (rest_of rest i s)).1.servers
  next-done name raw rest i s counts db (ok was, db') absent h e go = (
    ap (done_with env raw)
          (each-others rest name (counted i was) (s + (if was then 0 else 1)) db' absent)
        ∙ h.finished was refl,
    go was db' e,
  )
  next-done name raw rest i s counts db (err f, db') absent h e go = ground arith

  each-done :
      (fs : Fields) (i s : ℕ) (counts : ℕ × ℕ) (db : PlatformDb)
      → HasDistinctKeys fs
      → (import_each env path fs i s db).0 ≡ ok counts
      → AllDone fs (import_each env path fs i s db).1.servers
  unfolding import_each pure
  each-done end i s counts db distinct e = tt
  each-done (field name raw rest) i s counts db distinct e =
      next-done name raw rest i s counts db (import_entry env path name raw db) distinct.0
        (import_entry-Imported env path name raw db) e
        (λ was db' h.
          each-done rest (counted i was) (s + (if was then 0 else 1)) counts db' distinct.1 h)

  each-again :
      (fs : Fields) (i s : ℕ) (db : PlatformDb)
      → AllDone fs db.servers
      → import_each env path fs i s db ≡ (ok (i, s + size fs), db)
  unfolding import_each pure
  each-again end i s db h = let e : s + 0 ≡ s = omega arith in rw e refl
  each-again (field name raw rest) i s db h =
      let same : i + 0 ≡ i = omega arith in
      let one_more : s + (size rest + 1) ≡ s + 1 + size rest = omega arith in
      rw (import_done env path name raw db h.0)
        (rw (same, one_more) (each-again rest i (s + 1) db h.1))

  servers-done :
      (servers : Fields) (report : SeedReport) (db : PlatformDb) (x : Result (ℕ × ℕ) × PlatformDb)
      → import_each env path servers 0 0 db ≡ x
      → HasDistinctKeys servers
      → (import_servers env path servers db).0 ≡ ok report
      → AllDone servers (import_servers env path servers db).1.servers
  unfolding import_servers emit_to pure
  servers-done servers report db (ok counts, db') e distinct h =
      let there =
        each-done servers 0 0 counts db distinct
          (ap (λ (y : Result (ℕ × ℕ) × PlatformDb). y.0) e) in
      rw e (rw e at there)
  servers-done servers report db (err f, db') e distinct h =
      let failed : ◌≡◌ {A = Result SeedReport} (err f) (ok report) = rw e at h in ground arith

  servers-again :
      (servers : Fields) (db : PlatformDb)
      → AllDone servers db.servers
      → let (answer, after) = import_servers env path servers db in
        (answer ≡ ok (record { imported = 0; skipped = size servers; missing = false }))
        × (after.servers ≡ db.servers)
  unfolding import_servers emit_to pure
  servers-again servers db h =
      let none_more : 0 + size servers ≡ size servers = omega arith in
      rw (each-again servers 0 0 db h) (rw none_more (refl, refl))

  -- After a seed file was imported, importing it again imports none of its servers, skips each, and changes
  -- no row: what was imported is not reset to pending, and a server made by hand stays as it is.
  pub import_twice :
      (file servers : Fields) (report : SeedReport) (db : PlatformDb)
      → field_get "servers" file ≡ some (obj servers)
      → HasDistinctKeys servers
      → (import_mcp_seed env path (some (obj file)) db).0 ≡ ok report
      → let first = (import_mcp_seed env path (some (obj file)) db).1 in
        let (answer, after) = import_mcp_seed env path (some (obj file)) first in
        (answer ≡ ok (record { imported = 0; skipped = size servers; missing = false }))
        × (after.servers ≡ first.servers)
  unfolding import_mcp_seed
  import_twice file servers report db there distinct h = rw there (
      servers-again servers (import_servers env path servers db).1 (
        servers-done servers report db (import_each env path servers 0 0 db) refl distinct
          (rw there at h)))
