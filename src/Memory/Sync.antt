-- ===== src/Memory/Sync.antt =====
-- `sync_from_memory_file` of backend/domain/memory.py.
use Prim.Native.Char.{Char, code}
use soul_claw.Base.{
  ℕ, ◌+◌, String, Bool, true, false, ◌&&◌, ◌||◌, List, [], ◌∷◌, Option, none, some, Exec, PyError,
  Json, Fields, string, num, field, end, info, field_get, field_put, text_or_empty, or_else,
  if◌then◌else◌, leb, ◌==◌, is_space, lstrip_by, strip, splitlines, drop_prefix, starts_with, pure,
  raise, ◌>>=◌, ◌>>◌,
}
use soul_claw.Memory.State.{
  Memory, MemoryDb, MemoryEnv, emit_to, audit_to, find_memory, save, clamp, marker_of, is_retired,
}
use soul_claw.Memory.Index.{refresh_fts}
use soul_claw.Memory.Lines.{MemoryLine, spaces, parse_memory_line}

-- `uuid.UUID` and `float`, which give nothing where they raise a ValueError
pub record SyncEnv (F : Type 0) : Type 0 where
  pub memory : MemoryEnv F
  pub uuid_of : String → Option String
  pub float_of : String → Option F

-- `[0-9a-fA-F-]`
abbrev pub is_id_char : Char → Bool
is_id_char c =
    (leb b'0' (code c) && leb (code c) b'9')
    || ((leb b'a' (code c) && leb (code c) b'f')
        || ((leb b'A' (code c) && leb (code c) b'F') || code c == b'-'))

-- `\s*-->` from here
abbrev pub closes : String → Bool
closes s = starts_with (lstrip_by is_space s) "-->"

abbrev pub and_char : Char → Option String → Bool → Option String
and_char c (some id) closed = some (String.◌∷◌ c id)
and_char c none true = some (String.◌∷◌ c "")
and_char c none false = none

-- `([0-9a-fA-F-]+)\s*-->` from here: the longest id that the end of the marker follows
unfoldable pub id_from : String → Option String
unfolding lstrip_by
id_from String.[] = none
id_from (String.◌∷◌ c s) =
    let longer = id_from s in if is_id_char c then and_char c longer (closes s) else none

abbrev pub after {ℓ} : {A B : Type ℓ} → Option A → (A → Option B) → Option B
after none f = none
after (some a) f = f a

-- the group of `MEMORY_MARKER_RE.match`
unfoldable pub match_marker : String → Option String
unfolding id_from lstrip_by drop_prefix
match_marker line = after (drop_prefix "<!--" line) (λ s.
    after (drop_prefix "soulclaw:memory" (lstrip_by is_space s))
      (λ t. after (spaces t) (λ u. after (drop_prefix "id=" u) id_from)))

-- What the sync returns, besides the path
pub record SyncReport : Type 0 where
  pub updated : ℕ
  pub missing : ℕ

abbrev pub counted : ℕ → Bool → ℕ
counted n b = n + (if b then 1 else 0)

module _ {F : Type 0} where
  -- a number of the line, where it has one that `float` reads
  abbrev pub number_or : SyncEnv F → F → Option Json → F
  number_or env default (some (string s)) = elim (env.float_of s) [
    | none ↦ default
    | some x ↦ clamp env.memory.floats x
  ]
  number_or env default _ = default

  -- the columns that the sync of a line leaves
  unfoldable pub synced : SyncEnv F → MemoryLine → Memory F → Memory F
  unfolding field_get field_put clamp marker_of
  synced env l m =
      let status =
        or_else (text_or_empty (field_get "status" l.metadata)) (or_else m.status "active") in
      record m {
        kind = or_else (text_or_empty (field_get "kind" l.metadata)) m.kind;
        content = or_else l.content m.content;
        source = or_else (text_or_empty (field_get "source" l.metadata)) m.source;
        status = status;
        archived = is_retired status;
        importance = number_or env m.importance (field_get "importance" l.metadata);
        confidence = number_or env m.confidence (field_get "confidence" l.metadata);
        stability = number_or env m.stability (field_get "stability" l.metadata);
        source_file_marker = marker_of m.id;
        provenance =
            field_put "synced_at" (string (env.memory.isoformat env.memory.now))
              (field_put "synced_from" (string env.memory.memory_path) m.provenance);
      }

  abbrev pub sync_row : SyncEnv F → Memory F → Option MemoryLine → Exec (MemoryDb F) Bool
  sync_row env m none = pure false
  sync_row env m (some l) = do save env.memory (synced env l m); pure true

  -- the line behind the marker, where there is one
  abbrev pub sync_next : SyncEnv F → Memory F → List String → Exec (MemoryDb F) Bool
  sync_next env m [] = pure false
  sync_next env m (line ∷ lines) = sync_row env m (parse_memory_line line)

  abbrev pub sync_found :
      SyncEnv F → Option (Memory F) → List String → SyncReport → Exec (MemoryDb F) SyncReport
  sync_found env none rest r = pure (record r { missing = r.missing + 1 })
  sync_found env (some m) rest r = do
    was ← sync_next env m rest
    pure (record r { updated = counted r.updated was })

  abbrev pub sync_id :
      SyncEnv F → Option String → List String → SyncReport → Exec (MemoryDb F) SyncReport
  sync_id env none rest r db = pure r db
  sync_id env (some id) rest r db = sync_found env (find_memory id db.memories) rest r db

  -- one pass of the loop, with the lines behind this one
  unfoldable pub sync_line :
      SyncEnv F → String → List String → SyncReport → Exec (MemoryDb F) SyncReport
  unfolding match_marker parse_memory_line synced save find_memory strip pure
  sync_line env line rest r = sync_id env (after (match_marker (strip line)) env.uuid_of) rest r

  unfoldable pub sync_lines : SyncEnv F → List String → SyncReport → Exec (MemoryDb F) SyncReport
  unfolding sync_line pure
  sync_lines env [] r = pure r
  sync_lines env (line ∷ rest) r = do next ← sync_line env line rest r; sync_lines env rest next

  abbrev pub report_fields : MemoryEnv F → SyncReport → Fields
  report_fields env r =
      field "updated" (num r.updated)
        (field "missing" (num r.missing) (field "path" (string env.memory_path) end))

  unfoldable pub sync_content : SyncEnv F → Exec (MemoryDb F) SyncReport
  unfolding sync_lines splitlines emit_to audit_to refresh_fts pure
  sync_content env db =
      (do
        r ← sync_lines env (splitlines db.file) (record { updated = 0; missing = 0 })
        emit_to "memory.file_sync" info (report_fields env.memory r)
        audit_to "memory.file_sync" "workspace_file" "memory" (report_fields env.memory r)
        if r.updated == 0 then pure tt else refresh_fts env.memory
        pure r)
        db

  abbrev pub sync_unless : SyncEnv F → Option PyError → Exec (MemoryDb F) SyncReport
  sync_unless env none = sync_content env
  sync_unless env (some e) = raise e

  -- `sync_from_memory_file`
  unfoldable pub sync_from_memory_file : SyncEnv F → Exec (MemoryDb F) SyncReport
  unfolding sync_content raise
  sync_from_memory_file env = sync_unless env env.memory.workspace_error
