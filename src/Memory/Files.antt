-- ===== src/Memory/Files.antt =====
-- The entries of the memory file: `_append_to_memory_file` and `_rewrite_memory_file_entry` of
-- backend/domain/memory.py, over `read` and `write` of backend/domain/workspace.py.
use Prim.Native.String
use soul_claw.Base.{
  String, List, [], ◌∷◌, Option, none, some, Exec, ok, field, string, num, end, info, warning,
  f_string, str_eq, if◌then◌else◌, strip, rstrip, splitlines, join, contains, drop, PyError,
  str_exc, or_else, pure, ◌>>◌,
}
use soul_claw.Memory.State.{Memory, MemoryDb, MemoryEnv, Floats, marker_of, emit_to, audit_to}

-- `_memory_file_line`
unfoldable pub memory_file_line : {F : Type 0} → Floats F → Memory F → String
unfolding strip
memory_file_line fl m = f_string (
    "- ("
    ∷ m.kind
    ∷ ", source="
    ∷ m.source
    ∷ ", status="
    ∷ or_else m.status (if m.archived then "archived" else "active")
    ∷ ", importance="
    ∷ fl.fixed2 m.importance
    ∷ ", confidence="
    ∷ fl.fixed2 m.confidence
    ∷ ", stability="
    ∷ fl.fixed2 m.stability
    ∷ ") "
    ∷ strip m.content
    ∷ [])

abbrev pub under : String → Option (List String) → Option (List String)
under l none = none
under l (some ls) = some (l ∷ ls)

-- The lines with the one behind the marker replaced, or added where the marker is the last
unfoldable pub replace_entry : String → String → List String → Option (List String)
unfolding strip
replace_entry marker line [] = none
replace_entry marker line (l ∷ ls) =
    let rest = replace_entry marker line ls in
    if str_eq (strip l) marker then some (l ∷ line ∷ drop 1 ls) else under l rest

module _ {F : Type 0} where
  -- `self.workspace.write("memory", content, actor="memory-service")`
  unfoldable pub write_file : MemoryEnv F → String → Exec (MemoryDb F) (Unit {0})
  unfolding emit_to audit_to
  write_file env content db =
      (do
        (λ before. (ok tt, record before { file = content }))
        emit_to "workspace.file.updated" info (
            field "kind" (string "memory")
              (field "path" (string env.memory_path) (field "actor" (string "memory-service") end)))
        audit_to "workspace.file.update" "workspace_file" "memory" (
            field "path" (string env.memory_path) (
              field "actor" (string "memory-service") (
                field "before_len" (num (String.count db.file))
                  (field "after_len" (num (String.count content)) end)))))
        db

  abbrev pub write_entry : MemoryEnv F → Option (List String) → Exec (MemoryDb F) (Unit {0})
  write_entry env none = pure tt
  write_entry env (some lines) = write_file env (String.◌++◌ (rstrip (join "\n" lines)) "\n")

  -- a failure of the file is told and nothing more
  abbrev pub told :
      String → String → Option PyError → Exec (MemoryDb F) (Unit {0}) → Exec (MemoryDb F) (Unit {0})
  told event id none act = act
  told event id (some e) act =
      emit_to event warning (field "memory_id" (string id) (field "error" (string (str_exc e)) end))

  unfoldable pub rewrite_lines : MemoryEnv F → Memory F → Exec (MemoryDb F) (Unit {0})
  unfolding write_file replace_entry memory_file_line splitlines rstrip join pure
  rewrite_lines env m db =
      write_entry env
        (replace_entry (marker_of m.id) (memory_file_line env.floats m) (splitlines db.file)) db

  -- `_rewrite_memory_file_entry`
  unfoldable pub rewrite_entry : MemoryEnv F → Memory F → Exec (MemoryDb F) (Unit {0})
  unfolding rewrite_lines emit_to
  rewrite_entry env m =
      told "memory.file_rewrite.failed" m.id env.workspace_error (rewrite_lines env m)

  unfoldable pub append_lines : MemoryEnv F → Memory F → Exec (MemoryDb F) (Unit {0})
  unfolding rewrite_entry write_file memory_file_line rstrip marker_of
  append_lines env m db =
      if contains (marker_of m.id) db.file
      then rewrite_entry env m db
      else write_file env
          (f_string (
            rstrip db.file
            ∷ "\n\n"
            ∷ marker_of m.id
            ∷ "\n"
            ∷ memory_file_line env.floats m
            ∷ "\n"
            ∷ []))
          db

  -- `_append_to_memory_file`
  unfoldable pub append_entry : MemoryEnv F → Memory F → Exec (MemoryDb F) (Unit {0})
  unfolding append_lines emit_to
  append_entry env m =
      told "memory.file_append.failed" m.id env.workspace_error (append_lines env m)
