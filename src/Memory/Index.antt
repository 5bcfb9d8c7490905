-- ===== src/Memory/Index.antt =====
-- The full-text index: `refresh_fts` and `_refresh_sqlite_fts` of backend/domain/memory.py.
use soul_claw.Base.{
  not, ◌&&◌, List, Option, none, some, Exec, ok, PyError, str_exc, field, string, end, warning,
  keep, take, map, pure,
}
use soul_claw.Memory.State.{
  Memory, MemoryDb, MemoryEnv, FtsRow, Backend, sqlite, postgresql, other_backend, is_retired,
  is_inactive, emit_to,
}
use soul_claw.Memory.Tokens.{newest_first}

module _ {F : Type 0} where
  abbrev pub index_row : MemoryEnv F → Memory F → FtsRow
  index_row env m = record {
    memory_id = m.id;
    kind = m.kind;
    content = m.content;
    source = m.source;
    metadata = env.repr m.metadata;
  }

  -- the memories of the query, less those that the loop skips
  unfoldable pub indexed : MemoryEnv F → List (Memory F) → List (Memory F)
  unfolding newest_first is_inactive
  indexed env memories =
      keep (λ m. not (is_inactive env.now m))
        (take 5000
          (newest_first (keep (λ m. not m.archived && not (is_retired m.status)) memories)))

  abbrev pub rebuilt : MemoryEnv F → Option PyError → Exec (MemoryDb F) (Unit {0})
  rebuilt env none db =
      (ok tt, record db { fts = some (map (index_row env) (indexed env db.memories)) })
  rebuilt env (some e) db =
      emit_to "memory.fts.refresh_failed" warning
        (field "backend" (string "sqlite") (field "error" (string (str_exc e)) end)) db

  abbrev pub refresh_on : MemoryEnv F → Backend → Exec (MemoryDb F) (Unit {0})
  refresh_on env sqlite = rebuilt env env.fts_error
  refresh_on env postgresql = pure tt
  refresh_on env other_backend = pure tt

  -- `refresh_fts`; what it returns is a report.
  unfoldable pub refresh_fts : MemoryEnv F → Exec (MemoryDb F) (Unit {0})
  unfolding indexed emit_to pure
  refresh_fts env = refresh_on env env.backend
