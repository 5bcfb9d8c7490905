-- ===== src/Memory/Effects.antt =====
-- What the parts of an operation on memories leave as it was.
use soul_claw.Base.{
  String, ◌≡◌, refl, sym, ap, subst, ◌∙◌, List, [], ◌∷◌, ◌++◌, Option, none, some, ok, PyError,
  arith, str_eq, eq_iff, eq_refl, if◌then◌else◌, Bool-cases, inl, inr, contains, Exec, splitlines,
  pure,
}
use soul_claw.Memory.State.{
  Memory, MemoryHistory, MemoryDb, MemoryEnv, Backend, sqlite, postgresql, other_backend,
  find_memory, put_memory, find_history, marker_of, emit_to, audit_to,
}
use soul_claw.Memory.Files.{
  rewrite_entry, rewrite_lines, append_entry, append_lines, write_file, write_entry, told,
  replace_entry, memory_file_line,
}
use soul_claw.Memory.Index.{refresh_fts, refresh_on, rebuilt}

module _ {F : Type 0} where
  -- An action that only writes the file and tells events.
  abbrev pub OnlyFile : Exec (MemoryDb F) (Unit {0}) → MemoryDb F → Type 0
  OnlyFile act db = act db ≡ (ok tt, record db { file = (act db).1.file; sink = (act db).1.sink })

  write_entry-OnlyFile :
      (env : MemoryEnv F) (lines : Option (List String)) (db : MemoryDb F)
      → OnlyFile (write_entry env lines) db
  unfolding write_file emit_to audit_to pure
  write_entry-OnlyFile env none db = refl
  write_entry-OnlyFile env (some lines) db = refl

  told-OnlyFile :
      (event id : String) (failure : Option PyError) (act : Exec (MemoryDb F) (Unit {0}))
      (db : MemoryDb F)
      → OnlyFile act db
      → OnlyFile (told event id failure act) db
  unfolding emit_to
  told-OnlyFile event id none act db h = h
  told-OnlyFile event id (some e) act db h = refl

  pub rewrite_entry-OnlyFile :
      (env : MemoryEnv F) (m : Memory F) (db : MemoryDb F) → OnlyFile (rewrite_entry env m) db
  unfolding rewrite_entry rewrite_lines
  rewrite_entry-OnlyFile env m db =
      told-OnlyFile "memory.file_rewrite.failed" m.id env.workspace_error (rewrite_lines env m) db (
        write_entry-OnlyFile env
          (replace_entry (marker_of m.id) (memory_file_line env.floats m) (splitlines db.file)) db)

  append_lines-OnlyFile :
      (env : MemoryEnv F) (m : Memory F) (db : MemoryDb F) → OnlyFile (append_lines env m) db
  unfolding append_lines write_file emit_to audit_to
  append_lines-OnlyFile env m db = elim (Bool-cases (contains (marker_of m.id) db.file)) [
    | inl e ↦ rw e (rewrite_entry-OnlyFile env m db)
    | inr e ↦ rw e refl
  ]

  pub append_entry-OnlyFile :
      (env : MemoryEnv F) (m : Memory F) (db : MemoryDb F) → OnlyFile (append_entry env m) db
  unfolding append_entry
  append_entry-OnlyFile env m db =
      told-OnlyFile "memory.file_append.failed" m.id env.workspace_error (append_lines env m) db
        (append_lines-OnlyFile env m db)

  -- An action that only writes the index and tells events.
  abbrev pub OnlyIndex : Exec (MemoryDb F) (Unit {0}) → MemoryDb F → Type 0
  OnlyIndex act db = act db ≡ (ok tt, record db { fts = (act db).1.fts; sink = (act db).1.sink })

  rebuilt-OnlyIndex :
      (env : MemoryEnv F) (failure : Option PyError) (db : MemoryDb F)
      → OnlyIndex (rebuilt env failure) db
  unfolding emit_to
  rebuilt-OnlyIndex env none db = refl
  rebuilt-OnlyIndex env (some e) db = refl

  refresh_on-OnlyIndex :
      (env : MemoryEnv F) (b : Backend) (db : MemoryDb F) → OnlyIndex (refresh_on env b) db
  unfolding pure
  refresh_on-OnlyIndex env sqlite db = rebuilt-OnlyIndex env env.fts_error db
  refresh_on-OnlyIndex env postgresql db = refl
  refresh_on-OnlyIndex env other_backend db = refl

  pub refresh_fts-OnlyIndex : (env : MemoryEnv F) (db : MemoryDb F) → OnlyIndex (refresh_fts env) db
  unfolding refresh_fts
  refresh_fts-OnlyIndex env db = refresh_on-OnlyIndex env env.backend db

  pub find-put_memory :
      (id : String) (memory old : Memory F) (ms : List (Memory F))
      → find_memory memory.id ms ≡ some old
      → find_memory id (put_memory memory ms)
        ≡ (if str_eq memory.id id then some memory else find_memory id ms)
  unfolding find_memory put_memory
  find-put_memory id memory old [] found = ground arith
  find-put_memory id memory old (m ∷ ms) found = ground (
    arith,
    eq_iff m.id memory.id,
    eq_iff m.id id,
    eq_iff memory.id id,
    find-put_memory id memory old ms,
  )

  pub find-put_row :
      (id key : String) (memory old : Memory F) (ms : List (Memory F))
      → memory.id ≡ key
      → find_memory key ms ≡ some old
      → find_memory id (put_memory memory ms)
        ≡ (if str_eq key id then some memory else find_memory id ms)
  find-put_row id key memory old ms e found =
      find-put_memory id memory old ms
        (subst (λ (k : String). find_memory k ms ≡ some old) (sym e) found)
      ∙ ap (λ (k : String). if str_eq k id then some memory else find_memory id ms) e

  pub find_memory-id :
      (id : String) (m : Memory F) (ms : List (Memory F)) → find_memory id ms ≡ some m → m.id ≡ id
  unfolding find_memory
  find_memory-id id m [] found = ground arith
  find_memory-id id m (x ∷ xs) found = ground (arith, eq_iff x.id id, find_memory-id id m xs)

  pub find_history-append :
      (h : MemoryHistory F) (hs : List (MemoryHistory F))
      → find_history h.id hs ≡ none
      → find_history h.id (hs ++ (h ∷ [])) ≡ some h
  unfolding find_history
  find_history-append h [] absent = ground (arith, eq_refl h.id)
  find_history-append h (x ∷ xs) absent = ground (arith, eq_iff x.id h.id, find_history-append h xs)
