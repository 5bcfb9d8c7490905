-- ===== src/Memory/Create.antt =====
-- `create` of backend/domain/memory.py, and the row that it adds.
use soul_claw.Base.{
  ℕ, String, Bool, true, false, Option, none, some, Exec, Json, Fields, string, obj, field, end,
  field_get, field_put, truthy, text_or_empty, info, is_empty, or_else, strip, if◌then◌else◌, pure,
  ◌>>=◌, ◌>>◌,
}
use soul_claw.Memory.State.{
  Memory, MemoryDb, MemoryEnv, fresh_id, emit_to, audit_to, find_memory, save, add_memory, clamp,
  marker_of, snapshot, record_history,
}
use soul_claw.Memory.Files.{append_entry}
use soul_claw.Memory.Tokens.{detect_conflicts}
use soul_claw.Memory.Index.{refresh_fts}

-- What `create` is called with
pub record NewMemory (F : Type 0) : Type 0 where
  pub kind : String
  pub content : String
  pub source : String
  pub pinned : Bool
  pub importance : F
  pub confidence : F
  pub stability : F
  pub supersedes_id : Option String
  pub source_turn_id : String
  pub metadata : Fields

-- `{**a, **b}`
unfoldable pub merge : Fields → Fields → Fields
unfolding field_put
merge a end = a
merge a (field k v rest) = merge (field_put k v a) rest

-- a dictionary, or this one
abbrev pub dict_or : Fields → Option Json → Fields
dict_or default (some (obj d)) = d
dict_or default _ = default

-- `_memory_access`
unfoldable pub memory_access : Fields → Fields
unfolding field_get
memory_access metadata =
    dict_or
      (field "scope" (string (or_else (text_or_empty (field_get "scope" metadata)) "local")) (
        field "permission"
          (string (or_else (text_or_empty (field_get "permission" metadata)) "private")) end))
      (field_get "access" metadata)

-- `metadata.get("valid_to") or metadata.get("expires_at")`
abbrev pub expiry : Fields → Option Json
expiry metadata =
    if truthy (field_get "valid_to" metadata)
    then field_get "valid_to" metadata
    else field_get "expires_at" metadata

module _ {F : Type 0} where
  -- `_parse_datetime`, for a value of a dictionary, which holds no datetime
  abbrev pub parse_datetime : MemoryEnv F → Option Json → Option ℕ
  parse_datetime env (some (string s)) = if is_empty (strip s) then none else env.fromisoformat s
  parse_datetime env _ = none

  -- the row that `create` adds
  unfoldable pub new_memory : MemoryEnv F → String → NewMemory F → Memory F
  unfolding merge memory_access clamp marker_of field_get field_put truthy strip
  new_memory env id r = record {
    id = id;
    kind = r.kind;
    content = r.content;
    source = r.source;
    status = "active";
    pinned = r.pinned;
    archived = false;
    importance = clamp env.floats r.importance;
    confidence = clamp env.floats r.confidence;
    stability = clamp env.floats r.stability;
    supersedes_id = r.supersedes_id;
    superseded_by = none;
    source_turn_id = r.source_turn_id;
    source_file_marker = marker_of id;
    valid_to = parse_datetime env (expiry r.metadata);
    provenance =
        merge
          (field "source" (string r.source)
            (field "created_at" (string (env.isoformat env.now)) end))
          (dict_or end (field_get "provenance" r.metadata));
    metadata =
        field_put "embedding"
          (obj
            (dict_or (field "status" (string "reserved") end) (field_get "embedding" r.metadata)))
          (field_put "access" (obj (memory_access r.metadata)) r.metadata);
    last_verified_at = none;
    updated_at = env.now;
  }

  abbrev pub superseded : Memory F → Memory F
  superseded m = record m { archived = true; status = "superseded" }

  abbrev pub supersede_row : MemoryEnv F → String → Option (Memory F) → Exec (MemoryDb F) (Unit {0})
  supersede_row env source none = pure tt
  supersede_row env source (some previous) = do
    record_history env previous.id "superseded_by_create" (some (snapshot previous)) none source
    save env (superseded previous)

  -- `if supersedes_id is not None`
  abbrev pub supersede_previous :
      MemoryEnv F → String → Option String → Exec (MemoryDb F) (Unit {0})
  supersede_previous env source none db = pure tt db
  supersede_previous env source (some id) db =
      supersede_row env source (find_memory id db.memories) db

  -- `create`
  unfoldable pub create : MemoryEnv F → NewMemory F → Exec (MemoryDb F) (Memory F)
  unfolding fresh_id new_memory add_memory detect_conflicts append_entry record_history save
      refresh_fts emit_to audit_to find_memory pure
  create env r = do
    id ← fresh_id env
    let memory = new_memory env id r
    add_memory memory
    supersede_previous env r.source r.supersedes_id
    detect_conflicts env memory
    append_entry env memory
    record_history env id "create" none (some (snapshot memory)) r.source
    refresh_fts env
    emit_to "memory.create" info (
        field "memory_id" (string id)
          (field "kind" (string r.kind) (field "source" (string r.source) end)))
    audit_to "memory.create" "memory" id
        (field "kind" (string r.kind) (field "source" (string r.source) end))
    pure memory
