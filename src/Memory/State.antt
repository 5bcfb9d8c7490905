-- ===== src/Memory/State.antt =====
-- The rows of backend/infra/models.py that `MemoryService` (backend/domain/memory.py) works on, and
-- what it takes from outside.
use soul_claw.Base.{
  ℕ, ◌+◌, String, Bool, false, ◌||◌, List, [], ◌∷◌, ◌++◌, Option, none, some, Exec, Result, ok, err,
  PyError, key_error, Fields, Sink, Severity, emit, audit, f_string, str_eq, if◌then◌else◌, ltb,
}

-- Python's floats: their comparison and arithmetic, the quotient of two integers (which also stands
-- for the literals), the format `.2f` and rounding to four digits.
pub record Floats (F : Type 0) : Type 0 where
  pub lt : F → F → Bool
  pub add : F → F → F
  pub sub : F → F → F
  pub mul : F → F → F
  pub div : F → F → F
  pub ratio : ℕ → ℕ → F
  pub fixed2 : F → String
  pub round4 : F → F

-- `valid_from` is never written and is left out. Times are microseconds.
pub record Memory (F : Type 0) : Type 0 where
  pub id : String
  pub kind : String
  pub content : String
  pub source : String
  pub status : String
  pub pinned : Bool
  pub archived : Bool
  pub importance : F
  pub confidence : F
  pub stability : F
  pub supersedes_id : Option String
  pub superseded_by : Option String
  pub source_turn_id : String
  pub source_file_marker : String
  pub valid_to : Option ℕ
  pub provenance : Fields
  pub metadata : Fields
  pub last_verified_at : Option ℕ
  pub updated_at : ℕ

-- The dictionary of `_snapshot`
pub record Snapshot (F : Type 0) : Type 0 where
  pub id : String
  pub kind : String
  pub content : String
  pub source : String
  pub status : String
  pub pinned : Bool
  pub archived : Bool
  pub importance : F
  pub confidence : F
  pub stability : F
  pub source_file_marker : String
  pub provenance : Fields
  pub metadata : Fields

-- An absent snapshot is the empty dictionary.
pub record MemoryHistory (F : Type 0) : Type 0 where
  pub id : String
  pub memory_id : Option String
  pub action : String
  pub before_snapshot : Option (Snapshot F)
  pub after_snapshot : Option (Snapshot F)
  pub actor : String

pub record MemoryConflict : Type 0 where
  pub left_memory_id : String
  pub right_memory_id : String
  pub status : String
  pub reason : String

pub record MemoryProbe : Type 0 where
  pub id : String
  pub question : String
  pub expected : String
  pub status : String

-- A row of the table `memories_fts`
pub record FtsRow : Type 0 where
  pub memory_id : String
  pub kind : String
  pub content : String
  pub source : String
  pub metadata : String

-- The tables in the order of their insertion, the text of the workspace's memory file, the events,
-- and the number of ids drawn.
pub record MemoryDb (F : Type 0) : Type 0 where
  pub memories : List (Memory F)
  pub history : List (MemoryHistory F)
  pub conflicts : List MemoryConflict
  pub probes : List MemoryProbe
  pub fts : Option (List FtsRow)
  pub file : String
  pub sink : Sink
  pub supply : ℕ

pub data Backend : Type 0 where
  sqlite postgresql other_backend : Backend

-- A hit of the full-text index: the memory's id and its rank
pub record FtsHit (F : Type 0) : Type 0 where
  pub memory_id : String
  pub rank : F

-- The clock, the ids of `uuid4`, the library calls on texts and times, and the database: whether its
-- index can be written, what it matches, and `ILIKE`. `workspace_error` is what the workspace's file
-- raises, if it does.
pub record MemoryEnv (F : Type 0) : Type 0 where
  pub floats : Floats F
  pub now : ℕ
  pub uuid4 : ℕ → String
  pub lower : String → String
  pub isoformat : ℕ → String
  pub fromisoformat : String → Option ℕ
  pub repr : Fields → String
  pub memory_path : String
  pub workspace_error : Option PyError
  pub backend : Backend
  pub fts_error : Option PyError
  pub fts_match : Option (List FtsRow) → String → ℕ → List (FtsHit F)
  pub ilike : String → String → Bool

-- `_marker`
unfoldable pub marker_of : String → String
marker_of id = f_string ("<!-- soulclaw:memory id=" ∷ id ∷ (" -->" ∷ []))

abbrev pub is_expired : ℕ → Option ℕ → Bool
is_expired now none = false
is_expired now (some valid_to) = ltb valid_to now

-- `status in MEMORY_EXPIRED_STATUSES`
abbrev pub is_retired : String → Bool
is_retired status = str_eq status "archived" || str_eq status "superseded"

module _ {F : Type 0} where
  unfoldable pub fresh_id : MemoryEnv F → Exec (MemoryDb F) String
  fresh_id env db = (ok (env.uuid4 db.supply), record db { supply = db.supply + 1 })

  unfoldable pub emit_to : String → Severity → Fields → Exec (MemoryDb F) (Unit {0})
  emit_to name severity payload db =
      (ok tt, record db { sink = emit name severity payload db.sink })

  unfoldable pub audit_to : String → String → String → Fields → Exec (MemoryDb F) (Unit {0})
  audit_to action target_type target_id payload db =
      (ok tt, record db { sink = audit action target_type target_id payload db.sink })

  -- `db.get(Memory, id)`
  unfoldable pub find_memory : String → List (Memory F) → Option (Memory F)
  find_memory id [] = none
  find_memory id (m ∷ ms) = if str_eq m.id id then some m else find_memory id ms

  -- The row with the memory's id takes its columns.
  unfoldable pub put_memory : Memory F → List (Memory F) → List (Memory F)
  put_memory memory [] = []
  put_memory memory (m ∷ ms) =
      if str_eq m.id memory.id then memory ∷ ms else m ∷ put_memory memory ms

  unfoldable pub find_history : String → List (MemoryHistory F) → Option (MemoryHistory F)
  find_history id [] = none
  find_history id (h ∷ hs) = if str_eq h.id id then some h else find_history id hs

  -- the flush of a changed row, whose `updated_at` the database sets
  unfoldable pub save : MemoryEnv F → Memory F → Exec (MemoryDb F) (Unit {0})
  save env memory db = (
    ok tt,
    record db { memories = put_memory (record memory { updated_at = env.now }) db.memories },
  )

  unfoldable pub add_memory : Memory F → Exec (MemoryDb F) (Unit {0})
  add_memory memory db = (ok tt, record db { memories = db.memories ++ (memory ∷ []) })

  abbrev pub row_or_missing : String → Option (Memory F) → Result (Memory F)
  row_or_missing id none = err (key_error (f_string ("memory not found: " ∷ id ∷ [])))
  row_or_missing id (some m) = ok m

  unfoldable pub get_memory : String → Exec (MemoryDb F) (Memory F)
  get_memory id db = (row_or_missing id (find_memory id db.memories), db)

  -- `_clamp`: `max(0.0, min(1.0, value))`
  unfoldable pub clamp : Floats F → F → F
  clamp fl value =
      let below = if fl.lt value (fl.ratio 1 1) then value else fl.ratio 1 1 in
      if fl.lt (fl.ratio 0 1) below then below else fl.ratio 0 1

  -- `_snapshot`
  abbrev pub snapshot : Memory F → Snapshot F
  snapshot m = record {
    id = m.id;
    kind = m.kind;
    content = m.content;
    source = m.source;
    status = m.status;
    pinned = m.pinned;
    archived = m.archived;
    importance = m.importance;
    confidence = m.confidence;
    stability = m.stability;
    source_file_marker = m.source_file_marker;
    provenance = m.provenance;
    metadata = m.metadata;
  }

  -- `_is_inactive`
  unfoldable pub is_inactive : ℕ → Memory F → Bool
  is_inactive now m = m.archived || (is_retired m.status || is_expired now m.valid_to)

  -- `_record_history`
  unfoldable pub record_history :
      MemoryEnv F
      → String
      → String
      → Option (Snapshot F)
      → Option (Snapshot F)
      → String
      → Exec (MemoryDb F) (Unit {0})
  record_history env memory_id action before after actor db = (
    ok tt,
    record db {
      history =
          db.history
          ++ (record {
            id = env.uuid4 db.supply;
            memory_id = some memory_id;
            action = action;
            before_snapshot = before;
            after_snapshot = after;
            actor = if str_eq actor "" then "system" else actor;
          }
              ∷ []);
      supply = db.supply + 1;
    },
  )
