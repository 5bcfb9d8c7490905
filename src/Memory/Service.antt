-- ===== src/Memory/Service.antt =====
-- `MemoryService` of backend/domain/memory.py: replacing, verifying, archiving and restoring a memory,
-- and the lists and reports on the tables.
use soul_claw.Base.{
  String, Bool, true, false, [], ◌∷◌, Option, none, some, Exec, key_error, value_error, Fields,
  string, field, end, info, f_string, is_empty, or_else, if◌then◌else◌, pure, raise, ◌>>=◌, ◌>>◌,
}
use soul_claw.Memory.State.{
  Memory, Snapshot, MemoryHistory, MemoryDb, MemoryEnv, Floats, emit_to, audit_to, find_memory,
  find_history, save, add_memory, get_memory, clamp, marker_of, snapshot, record_history,
}
use soul_claw.Memory.Files.{rewrite_entry}
use soul_claw.Memory.Index.{refresh_fts}
use soul_claw.Memory.Create.{NewMemory, superseded, create}

-- The dictionary that `supersede` takes: a key that may be missing is an option, or the empty text
-- where the code takes a false value for a missing one.
pub record Replacement (F : Type 0) : Type 0 where
  pub kind : String
  pub content : String
  pub source : Option String
  pub pinned : Option Bool
  pub importance : Option F
  pub confidence : Option F
  pub stability : Option F
  pub metadata : Fields

-- `d.get(k, default)`
abbrev pub or_default {ℓ} : {A : Type ℓ} → A → Option A → A
or_default default none = default
or_default default (some a) = a

abbrev pub or_fields : Fields → Fields → Fields
or_fields end default = default
or_fields (field k v rest) default = field k v rest

abbrev pub first_of {ℓ} : {A : Type ℓ} → Option A → Option A → Option A
first_of none b = b
first_of (some a) b = some a

module _ {F : Type 0} where
  -- the call of `create` in `supersede`
  unfoldable pub replacement_of : String → Memory F → Replacement F → NewMemory F
  replacement_of memory_id previous r = record {
    kind = or_else r.kind previous.kind;
    content = r.content;
    source = or_default "supersede" r.source;
    pinned = or_default previous.pinned r.pinned;
    importance = or_default previous.importance r.importance;
    confidence = or_default previous.confidence r.confidence;
    stability = or_default previous.stability r.stability;
    supersedes_id = some memory_id;
    source_turn_id = "";
    metadata = or_fields r.metadata (field "supersedes" (string memory_id) end);
  }

  -- `supersede`
  unfoldable pub supersede : MemoryEnv F → String → Replacement F → Exec (MemoryDb F) (Memory F)
  unfolding get_memory save create rewrite_entry record_history refresh_fts replacement_of pure
  supersede env memory_id r = do
    previous ← get_memory memory_id
    save env (superseded previous)
    memory ← create env (replacement_of memory_id previous r)
    let replaced = record (superseded previous) { superseded_by = some memory.id }
    save env replaced
    rewrite_entry env replaced
    rewrite_entry env memory
    record_history env memory_id "supersede" (some (snapshot previous)) (some (snapshot replaced))
        (or_else (or_default "" r.source) "supersede")
    refresh_fts env
    pure memory

  unfoldable pub verified : MemoryEnv F → F → Memory F → Memory F
  unfolding clamp
  verified env delta m = record m {
    last_verified_at = some env.now;
    confidence = clamp env.floats (env.floats.add m.confidence delta);
    stability =
        clamp env.floats (env.floats.add m.stability (env.floats.mul delta (env.floats.ratio 1 2)));
  }

  -- `mark_verified`; the audit's payload is the delta, which is no natural number, and is left out.
  unfoldable pub mark_verified : MemoryEnv F → String → F → Exec (MemoryDb F) (Memory F)
  unfolding get_memory save verified rewrite_entry record_history audit_to pure
  mark_verified env memory_id delta = do
    memory ← get_memory memory_id
    let after = verified env delta memory
    save env after
    rewrite_entry env after
    record_history env memory_id "verify" (some (snapshot memory)) (some (snapshot after))
        "memory-service"
    audit_to "memory.verify" "memory" memory_id end
    pure after

  abbrev pub archived_row : Memory F → Memory F
  archived_row m = record m { archived = true; status = "archived" }

  -- `archive`
  unfoldable pub archive : MemoryEnv F → String → Exec (MemoryDb F) (Memory F)
  unfolding get_memory save rewrite_entry record_history refresh_fts emit_to audit_to pure
  archive env memory_id = do
    memory ← get_memory memory_id
    let after = archived_row memory
    save env after
    rewrite_entry env after
    record_history env memory_id "archive" (some (snapshot memory)) (some (snapshot after))
        "memory-service"
    refresh_fts env
    emit_to "memory.archive" info (field "memory_id" (string memory_id) end)
    audit_to "memory.archive" "memory" memory_id end
    pure after

  -- `_apply_snapshot`
  unfoldable pub apply_snapshot : Floats F → Memory F → Snapshot F → Memory F
  unfolding clamp marker_of
  apply_snapshot fl m s = record m {
    kind = or_else s.kind (or_else m.kind "agent_note");
    content = or_else s.content m.content;
    source = or_else s.source (or_else m.source "restore");
    status = or_else s.status "active";
    pinned = s.pinned;
    archived = s.archived;
    importance = clamp fl s.importance;
    confidence = clamp fl s.confidence;
    stability = clamp fl s.stability;
    source_file_marker = or_else s.source_file_marker (marker_of m.id);
    provenance = s.provenance;
    metadata = s.metadata;
  }

  -- `Memory(id=memory_id, kind=..., content=...)` with the defaults of the other columns, which the
  -- code's own snapshot of the new row shows as None
  abbrev pub blank_memory : MemoryEnv F → Snapshot F → Memory F
  blank_memory env s = record {
    id = s.id;
    kind = or_else s.kind "agent_note";
    content = s.content;
    source = "explicit";
    status = "active";
    pinned = false;
    archived = false;
    importance = env.floats.ratio 1 2;
    confidence = env.floats.ratio 1 2;
    stability = env.floats.ratio 1 2;
    supersedes_id = none;
    superseded_by = none;
    source_turn_id = "";
    source_file_marker = "";
    valid_to = none;
    provenance = end;
    metadata = end;
    last_verified_at = none;
    updated_at = env.now;
  }

  abbrev pub found_or_blank :
      MemoryEnv F → Snapshot F → Option (Memory F) → Exec (MemoryDb F) (Memory F)
  found_or_blank env s (some m) = pure m
  found_or_blank env s none = do add_memory (blank_memory env s); pure (blank_memory env s)

  abbrev pub memory_for : MemoryEnv F → Snapshot F → Exec (MemoryDb F) (Memory F)
  memory_for env s db = found_or_blank env s (find_memory s.id db.memories) db

  -- what `restore` does with a snapshot
  unfoldable pub restore_snapshot : MemoryEnv F → Snapshot F → String → Exec (MemoryDb F) (Memory F)
  unfolding add_memory find_memory apply_snapshot save rewrite_entry record_history refresh_fts pure
  restore_snapshot env s actor = do
    memory ← memory_for env s
    let after = apply_snapshot env.floats memory s
    save env after
    rewrite_entry env after
    record_history env s.id "restore" (some (snapshot memory)) (some (snapshot after)) actor
    refresh_fts env
    pure after

  abbrev pub restore_if : MemoryEnv F → String → Option (Snapshot F) → Exec (MemoryDb F) (Memory F)
  restore_if env actor none = raise (value_error "memory history has no restorable snapshot")
  restore_if env actor (some s) =
      if is_empty s.id
      then raise (value_error "memory history has no restorable snapshot")
      else restore_snapshot env s actor

  abbrev pub restore_row :
      MemoryEnv F → String → String → Option (MemoryHistory F) → Exec (MemoryDb F) (Memory F)
  restore_row env history_id actor none =
      raise (key_error (f_string ("memory history not found: " ∷ history_id ∷ [])))
  restore_row env history_id actor (some h) =
      restore_if env actor (first_of h.before_snapshot h.after_snapshot)

  -- `restore`
  unfoldable pub restore : MemoryEnv F → String → String → Exec (MemoryDb F) (Memory F)
  unfolding find_history restore_snapshot raise
  restore env history_id actor db =
      restore_row env history_id actor (find_history history_id db.history) db
