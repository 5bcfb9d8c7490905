-- ===== src/Memory/Restore.antt =====
-- Restoring a memory from its history.
use soul_claw.Base.{
  ℕ, String, false, ◌≡◌, refl, sym, ap, subst, ◌∙◌, [], ◌∷◌, ◌++◌, none, some, ok, str_eq, eq_refl,
  if◌then◌else◌, is_empty, pure,
}
use soul_claw.Memory.State.{
  Memory, Snapshot, MemoryHistory, MemoryDb, MemoryEnv, Floats, clamp, snapshot, record_history,
  find_memory, put_memory, find_history, emit_to, audit_to, save, get_memory,
}
use soul_claw.Memory.Files.{rewrite_entry}
use soul_claw.Memory.Service.{archive, archived_row, apply_snapshot, restore, restore_snapshot}
use soul_claw.Memory.Effects.{
  rewrite_entry-OnlyFile, refresh_fts-OnlyIndex, find-put_row, find_memory-id, find_history-append,
}

module _ {F : Type 0} where
  -- What a snapshot must hold to be restored as it is: texts that are not empty, and clamped scores
  pub record IsRestorable (fl : Floats F) (m : Memory F) : Type 0 where
    pub has_id : is_empty m.id ≡ false
    pub has_kind : is_empty m.kind ≡ false
    pub has_content : is_empty m.content ≡ false
    pub has_source : is_empty m.source ≡ false
    pub has_status : is_empty m.status ≡ false
    pub has_marker : is_empty m.source_file_marker ≡ false
    pub clamped_importance : clamp fl m.importance ≡ m.importance
    pub clamped_confidence : clamp fl m.confidence ≡ m.confidence
    pub clamped_stability : clamp fl m.stability ≡ m.stability

  -- The columns that a snapshot holds, from the one row, and the others from the other
  abbrev pub with_columns : Memory F → Memory F → Memory F
  with_columns current m = record current {
    kind = m.kind;
    content = m.content;
    source = m.source;
    status = m.status;
    pinned = m.pinned;
    archived = m.archived;
    importance = m.importance;
    confidence = m.confidence;
    stability = m.stability;
    source_file_marker = m.source_file_marker;
    provenance = m.provenance;
    metadata = m.metadata;
  }

  apply_snapshot-with_columns :
      (fl : Floats F) (current m : Memory F)
      → IsRestorable fl m
      → apply_snapshot fl current (snapshot m) ≡ with_columns current m
  unfolding apply_snapshot
  apply_snapshot-with_columns fl current m h =
      rw (h.has_kind, h.has_content)
        (rw (h.has_source, h.has_status, h.has_marker)
          (rw (h.clamped_importance) (rw (h.clamped_confidence) (rw (h.clamped_stability) refl))))

  restore_snapshot-puts :
      (env : MemoryEnv F) (s : Snapshot F) (actor : String) (current : Memory F) (db : MemoryDb F)
      → find_memory s.id db.memories ≡ some current
      → let after = apply_snapshot env.floats current s in
        let (answer, db') = restore_snapshot env s actor db in
        (answer ≡ ok after)
        × (db'.memories ≡ put_memory (record after { updated_at = env.now }) db.memories)
  unfolding restore_snapshot save record_history pure
  restore_snapshot-puts env s actor current db found =
      let after = apply_snapshot env.floats current s in
      let saved = (save env after db).1 in
      let written = (rewrite_entry env after saved).1 in
      let told =
        (record_history env s.id "restore" (some (snapshot current)) (some (snapshot after)) actor
          (record saved { file = written.file; sink = written.sink })).1 in
      rw found (
        rw (rewrite_entry-OnlyFile env after saved)
          (rw (refresh_fts-OnlyIndex env told) (refl, refl)))

  restore-puts :
      (env : MemoryEnv F) (history_id actor : String) (h : MemoryHistory F) (m current : Memory F)
      (db : MemoryDb F)
      → IsRestorable env.floats m
      → find_history history_id db.history ≡ some h
      → h.before_snapshot ≡ some (snapshot m)
      → find_memory m.id db.memories ≡ some current
      → (restore env history_id actor db).1.memories
        ≡ put_memory (record (with_columns current m) { updated_at = env.now }) db.memories
  unfolding restore
  restore-puts env history_id actor h m current db good listed before found = rw listed (
      rw before (
        rw (good.has_id) (
          (restore_snapshot-puts env (snapshot m) actor current db found).1
          ∙ ap (λ (x : Memory F). put_memory (record x { updated_at = env.now }) db.memories)
              (apply_snapshot-with_columns env.floats current m good))))

  -- Restoring a memory from a row of its history puts the columns of the row's snapshot back, whatever
  -- happened since, and leaves the links to other versions and every other memory as they are; the
  -- snapshot holds no empty text and clamped scores.
  pub restore_lem :
      (env : MemoryEnv F) (history_id actor id : String) (h : MemoryHistory F)
      (m current : Memory F) (db : MemoryDb F)
      → IsRestorable env.floats m
      → find_history history_id db.history ≡ some h
      → h.before_snapshot ≡ some (snapshot m)
      → find_memory m.id db.memories ≡ some current
      → find_memory id (restore env history_id actor db).1.memories ≡ (
          if str_eq m.id id
          then some (record (with_columns current m) { updated_at = env.now })
          else find_memory id db.memories)
  restore_lem env history_id actor id h m current db good listed before found =
      let same = find_memory-id m.id current db.memories found in
      let after : Memory F = record (with_columns current m) { updated_at = env.now } in
      rw (restore-puts env history_id actor h m current db good listed before found)
        (find-put_row id m.id after current db.memories same found)

  -- the row that `archive` adds to the history
  abbrev pub archive_row : MemoryEnv F → String → Memory F → ℕ → MemoryHistory F
  archive_row env id m supply = record {
    id = env.uuid4 supply;
    memory_id = some id;
    action = "archive";
    before_snapshot = some (snapshot m);
    after_snapshot = some (snapshot (archived_row m));
    actor = "memory-service";
  }

  archive-puts :
      (env : MemoryEnv F) (id : String) (m : Memory F) (db : MemoryDb F)
      → find_memory id db.memories ≡ some m
      → let db' = (archive env id db).1 in
        (db'.memories ≡ put_memory (record (archived_row m) { updated_at = env.now }) db.memories)
        × (db'.history ≡ db.history ++ (archive_row env id m db.supply ∷ []))
  unfolding archive get_memory save record_history emit_to audit_to pure
  archive-puts env id m db found =
      let after = archived_row m in
      let saved = (save env after db).1 in
      let written = (rewrite_entry env after saved).1 in
      let told =
        (record_history env id "archive" (some (snapshot m)) (some (snapshot after))
          "memory-service" (record saved { file = written.file; sink = written.sink })).1 in
      rw found (
        rw (rewrite_entry-OnlyFile env after saved)
          (rw (refresh_fts-OnlyIndex env told) (refl, refl)))

  -- An archived memory that is restored from the row that the archiving wrote in its history is what it
  -- was, but for the time of its last change; a history's ids differ.
  pub restore-archive :
      (env : MemoryEnv F) (later : ℕ) (id actor : String) (m : Memory F) (db : MemoryDb F)
      → IsRestorable env.floats m
      → find_memory id db.memories ≡ some m
      → find_history (env.uuid4 db.supply) db.history ≡ none
      → find_memory id
          (restore
            (record env { now = later })
            (env.uuid4 db.supply)
            actor
            (archive env id db).1).1.memories
        ≡ some (record m { updated_at = later })
  restore-archive env later id actor m db good found fresh =
      let same = find_memory-id id m db.memories found in
      let (rows, history) = archive-puts env id m db found in
      let archived : Memory F = record (archived_row m) { updated_at = env.now } in
      let now_archived : find_memory id (archive env id db).1.memories ≡ some archived =
        rw rows (find-put_row id id archived m db.memories same found ∙ rw (eq_refl id) refl) in
      let at_id =
        subst (λ (i : String). find_memory i (archive env id db).1.memories ≡ some archived)
          (sym same) now_archived in
      let listed : find_history (env.uuid4 db.supply) (archive env id db).1.history
          ≡ some (archive_row env id m db.supply) =
        rw history (find_history-append (archive_row env id m db.supply) db.history fresh) in
      let restored : find_memory m.id
            (restore (record env { now = later }) (env.uuid4 db.supply) actor
              (archive env id db).1).1.memories
          ≡ some (record m { updated_at = later }) =
        restore_lem (record env { now = later }) (env.uuid4 db.supply) actor m.id
          (archive_row env id m db.supply) m archived (archive env id db).1 good listed refl at_id
        ∙ rw (eq_refl m.id) refl in
      subst
        (λ (i : String).
          find_memory i
            (restore (record env { now = later }) (env.uuid4 db.supply) actor
              (archive env id db).1).1.memories
          ≡ some (record m { updated_at = later }))
        same restored
