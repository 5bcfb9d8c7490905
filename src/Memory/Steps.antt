-- ===== src/Memory/Steps.antt =====
-- The steps of creating a memory and of replacing one.
use soul_claw.Base.{
  ℕ, ◌+◌, String, ◌≡◌, refl, ap, ◌∙◌, List, [], ◌∷◌, ◌++◌, Option, none, some, ok, arith, eq_iff,
  eq_refl, Bool-cases, inl, inr, pure, or_else, ltb, length,
}
use soul_claw.Memory.State.{
  Memory, Snapshot, MemoryHistory, MemoryDb, MemoryEnv, snapshot, record_history, fresh_id,
  find_memory, put_memory, emit_to, audit_to, save, get_memory, add_memory,
}
use soul_claw.Memory.Tokens.{detect_conflicts, tokens}
use soul_claw.Memory.Files.{rewrite_entry, append_entry}
use soul_claw.Memory.Create.{NewMemory, create, new_memory, superseded, supersede_previous}
use soul_claw.Memory.Service.{supersede, Replacement, replacement_of, or_default}
use soul_claw.Memory.Effects.{
  rewrite_entry-OnlyFile, append_entry-OnlyFile, refresh_fts-OnlyIndex, find-put_row,
  find_memory-id,
}

module _ {F : Type 0} where
  detect_conflicts-keeps :
      (env : MemoryEnv F) (m : Memory F) (db : MemoryDb F)
      → detect_conflicts env m db
        ≡ (ok tt, record db { conflicts = (detect_conflicts env m db).1.conflicts })
  unfolding detect_conflicts
  detect_conflicts-keeps env m db =
      elim (Bool-cases (ltb (length (tokens env.lower m.content)) 4)) [
        | inl e ↦ rw e refl
        | inr e ↦ rw e refl
      ]

  -- the row that `_record_history` adds
  abbrev pub history_row :
      MemoryEnv F
      → String
      → String
      → Option (Snapshot F)
      → Option (Snapshot F)
      → String
      → ℕ
      → MemoryHistory F
  history_row env id action before after actor supply = record {
    id = env.uuid4 supply;
    memory_id = some id;
    action = action;
    before_snapshot = before;
    after_snapshot = after;
    actor = or_else actor "system";
  }

  -- the tables once the row of the new memory is there
  abbrev pub with_row : MemoryEnv F → NewMemory F → MemoryDb F → MemoryDb F
  with_row env r db = record db {
    memories = db.memories ++ (new_memory env (env.uuid4 db.supply) r ∷ []);
    supply = db.supply + 1;
  }

  create-keeps :
      (env : MemoryEnv F) (r : NewMemory F) (db db' : MemoryDb F)
      → supersede_previous env r.source r.supersedes_id (with_row env r db) ≡ (ok tt, db')
      → (create env r db ≡ (ok (new_memory env (env.uuid4 db.supply) r), (create env r db).1))
        × ((create env r db).1.memories ≡ db'.memories)
        × ((create env r db).1.history
            ≡ db'.history
              ++ (history_row env
                    (env.uuid4 db.supply)
                    "create"
                    none
                    (some (snapshot (new_memory env (env.uuid4 db.supply) r)))
                    r.source
                    db'.supply
                  ∷ []))
        × ((create env r db).1.supply ≡ db'.supply + 1)
  unfolding create fresh_id add_memory record_history emit_to audit_to pure
  create-keeps env r db db' previous =
      let id = env.uuid4 db.supply in
      let memory = new_memory env id r in
      let checked = (detect_conflicts env memory db').1 in
      let seen : MemoryDb F = record db' { conflicts = checked.conflicts } in
      let written = (append_entry env memory seen).1 in
      let told =
        (record_history env id "create" none (some (snapshot memory)) r.source
          (record seen { file = written.file; sink = written.sink })).1 in
      rw previous (
        rw (detect_conflicts-keeps env memory db') (
          rw (append_entry-OnlyFile env memory seen)
            (rw (refresh_fts-OnlyIndex env told) (refl, refl, refl, refl))))

  -- the replaced row, which knows its successor
  abbrev pub replaced_row : MemoryEnv F → Memory F → ℕ → Memory F
  replaced_row env m supply = record (superseded m) { superseded_by = some (env.uuid4 supply) }

  abbrev pub marked_row : MemoryEnv F → Memory F → Memory F
  marked_row env m = record (superseded m) { updated_at = env.now }

  -- the tables when `create` has marked the replaced row in its turn
  abbrev pub after_mark : MemoryEnv F → String → Replacement F → Memory F → MemoryDb F → MemoryDb F
  after_mark env id r m db =
      let marked = (save env (superseded m) db).1 in
      let made = with_row env (replacement_of id m r) marked in
      record made {
        memories = put_memory (marked_row env m) made.memories;
        history =
            made.history
            ++ (history_row env m.id "superseded_by_create" (some (snapshot (marked_row env m)))
                  none (or_default "supersede" r.source) made.supply
                ∷ []);
        supply = made.supply + 1;
      }

  pub find_memory-append :
      (id : String) (new old : Memory F) (ms : List (Memory F))
      → find_memory id ms ≡ some old
      → find_memory id (ms ++ (new ∷ [])) ≡ some old
  unfolding find_memory
  find_memory-append id new old [] found = ground arith
  find_memory-append id new old (x ∷ xs) found =
      ground (arith, eq_iff x.id id, find_memory-append id new old xs)

  marks_again :
      (env : MemoryEnv F) (id : String) (r : Replacement F) (m : Memory F) (db : MemoryDb F)
      → find_memory id db.memories ≡ some m
      → supersede_previous env
          (or_default "supersede" r.source)
          (some id)
          (with_row env (replacement_of id m r) (save env (superseded m) db).1)
        ≡ (ok tt, after_mark env id r m db)
  unfolding save record_history
  marks_again env id r m db found =
      let same = find_memory-id id m db.memories found in
      let there : find_memory id (put_memory (marked_row env m) db.memories)
          ≡ some (marked_row env m) =
        find-put_row id id (marked_row env m) m db.memories same found ∙ rw (eq_refl id) refl in
      rw
        (find_memory-append id (new_memory env (env.uuid4 db.supply) (replacement_of id m r)) _ _
          there)
        refl

  pub supersede-puts :
      (env : MemoryEnv F) (id : String) (r : Replacement F) (m : Memory F) (db : MemoryDb F)
      → find_memory id db.memories ≡ some m
      → let new = new_memory env (env.uuid4 db.supply) (replacement_of id m r) in
        let (answer, db') = supersede env id r db in
        let marked = after_mark env id r m db in
        (answer ≡ ok new)
        × (db'.memories
            ≡ put_memory
                (record (replaced_row env m db.supply) { updated_at = env.now })
                marked.memories)
        × (db'.history
            ≡ (marked.history
                ++ (history_row env new.id "create" none
                      (some (snapshot new))
                      (or_default "supersede" r.source)
                      marked.supply
                    ∷ []))
              ++ (history_row env id "supersede"
                    (some (snapshot m))
                    (some (snapshot (replaced_row env m db.supply)))
                    (or_else (or_default "" r.source) "supersede")
                    (marked.supply + 1)
                  ∷ []))
  unfolding supersede get_memory record_history pure save
  supersede-puts env id r m db found =
      let new = new_memory env (env.uuid4 db.supply) (replacement_of id m r) in
      let replaced = replaced_row env m db.supply in
      let marked = (save env (superseded m) db).1 in
      let (made, rows, history, supply) =
        create-keeps env (replacement_of id m r) marked (after_mark env id r m db)
          (marks_again env id r m db found) in
      let created = (create env (replacement_of id m r) marked).1 in
      let linked = (save env replaced created).1 in
      let first = (rewrite_entry env replaced linked).1 in
      let second_start : MemoryDb F = record linked { file = first.file; sink = first.sink } in
      let second = (rewrite_entry env new second_start).1 in
      let told =
        (record_history env id "supersede" (some (snapshot m)) (some (snapshot replaced))
          (or_else (or_default "" r.source) "supersede")
          (record second_start { file = second.file; sink = second.sink })).1 in
      rw found (
        rw made (
          rw (rewrite_entry-OnlyFile env replaced linked) (
            rw (rewrite_entry-OnlyFile env new second_start) (
              rw (refresh_fts-OnlyIndex env told) (
                refl,
                ap (put_memory (record replaced { updated_at = env.now })) rows,
                λ i.
                    history i
                    ++ (history_row env id "supersede" (some (snapshot m))
                          (some (snapshot replaced)) (or_else (or_default "" r.source) "supersede")
                          (supply i)
                        ∷ []),
              )))))
