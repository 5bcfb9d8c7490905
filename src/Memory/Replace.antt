-- ===== src/Memory/Replace.antt =====
-- Creating a memory, and replacing one by a newer version.
use soul_claw.Base.{
  ◌+◌, String, true, false, ok, ◌≡◌, refl, sym, ap, ◌∙◌, List, [], ◌∷◌, ◌++◌, Option, none, some,
  arith, str_eq, eq_iff, eq_refl, if◌then◌else◌, Bool-cases, inl, inr, or_else,
}
use mathlib.Core.List.{append_assoc}
use soul_claw.Memory.State.{Memory, MemoryDb, MemoryEnv, snapshot, find_memory, put_memory, save}
use soul_claw.Memory.Create.{new_memory, superseded}
use soul_claw.Memory.Service.{supersede, Replacement, replacement_of, or_default}
use soul_claw.Memory.Effects.{find-put_row, find_memory-id}
use soul_claw.Memory.Steps.{
  history_row, replaced_row, marked_row, supersede-puts, find_memory-append,
}

module _ {F : Type 0} where
  find_memory-added :
      (k : String) (new : Memory F) (ms : List (Memory F))
      → find_memory new.id ms ≡ none
      → find_memory k (ms ++ (new ∷ [])) ≡ (if str_eq new.id k then some new else find_memory k ms)
  unfolding find_memory
  find_memory-added k new [] absent = refl
  find_memory-added k new (x ∷ xs) absent =
      ground (arith, eq_iff x.id k, eq_iff new.id k, eq_iff x.id new.id, find_memory-added k new xs)

  differ :
      (id new : String) (m : Memory F) (ms : List (Memory F))
      → find_memory id ms ≡ some m
      → find_memory new ms ≡ none
      → str_eq id new ≡ false
  differ id new m ms found fresh = elim (Bool-cases (str_eq id new)) [
    | inl e ↦
        let clash : ◌≡◌ {A = Option (Memory F)} (some m) none =
          sym found ∙ (ap (λ (i : String). find_memory i ms) ((eq_iff id new).0 e) ∙ fresh) in
        ground arith
    | inr e ↦ e
  ]

  -- Where the rows of a replacement are found
  supersede-rows :
      (env : MemoryEnv F) (id k : String) (r : Replacement F) (m : Memory F) (db : MemoryDb F)
      → find_memory id db.memories ≡ some m
      → find_memory (env.uuid4 db.supply) db.memories ≡ none
      → let new = new_memory env (env.uuid4 db.supply) (replacement_of id m r) in
        let db' = (supersede env id r db).1 in
        find_memory k db'.memories ≡ (
          if str_eq id k
          then some (record (replaced_row env m db.supply) { updated_at = env.now })
          else if str_eq new.id k
          then some new
          else find_memory k db.memories)
  unfolding save new_memory
  supersede-rows env id k r m db found fresh =
      let new = new_memory env (env.uuid4 db.supply) (replacement_of id m r) in
      let same = find_memory-id id m db.memories found in
      let marked = marked_row env m in
      let put = put_memory marked db.memories in
      let replaced : Memory F = record (replaced_row env m db.supply) { updated_at = env.now } in
      let grown = put ++ (new ∷ []) in
      let apart : str_eq id new.id ≡ false = differ id new.id m db.memories found fresh in
      let absent : find_memory new.id put ≡ none =
        find-put_row new.id id marked m db.memories same found ∙ rw apart fresh in
      let there : find_memory id grown ≡ some marked =
        find_memory-append id new marked put
          (find-put_row id id marked m db.memories same found ∙ rw (eq_refl id) refl) in
      let again : find_memory id (put_memory marked grown) ≡ some marked =
        find-put_row id id marked marked grown same there ∙ rw (eq_refl id) refl in
      ap (find_memory k) (supersede-puts env id r m db found).1
      ∙ ground (
        arith,
        find-put_row k id replaced marked (put_memory marked grown) same again,
        find-put_row k id marked marked grown same there,
        find_memory-added k new put absent,
        find-put_row k id marked m db.memories same found,
      )

  -- Replacing a memory returns a row under the drawn id that is active, names the old one as what it
  -- replaces, and has the content of the request, and the kind of the request or of the old row. The old
  -- row is archived and superseded, with the new one as its successor, and keeps its content and its
  -- other columns; every other memory is as it was. The drawn id is not one of a row.
  pub supersede_lem :
      (env : MemoryEnv F) (id : String) (r : Replacement F) (m : Memory F) (db : MemoryDb F)
      → find_memory id db.memories ≡ some m
      → find_memory (env.uuid4 db.supply) db.memories ≡ none
      → let new_id = env.uuid4 db.supply in
        let (answer, after) = supersede env id r db in
        (new : Memory F) × (answer ≡ ok new)
        × (find_memory new_id after.memories ≡ some new)
        × ((new.id ≡ new_id)
            × (new.status ≡ "active")
            × (new.archived ≡ false)
            × (new.supersedes_id ≡ some id)
            × (new.superseded_by ≡ none)
            × (new.content ≡ r.content)
            × (new.kind ≡ or_else r.kind m.kind))
        × (find_memory id after.memories
            ≡ some (record m {
              archived = true;
              status = "superseded";
              superseded_by = some new_id;
              updated_at = env.now;
            }))
        × ((k : String)
            → str_eq id k ≡ false
            → str_eq new_id k ≡ false
            → find_memory k after.memories ≡ find_memory k db.memories)
  unfolding new_memory replacement_of
  supersede_lem env id r m db found fresh =
      let new_id = env.uuid4 db.supply in
      let new = new_memory env new_id (replacement_of id m r) in
      let apart = differ id new_id m db.memories found fresh in
      (
        new,
        (supersede-puts env id r m db found).0,
        supersede-rows env id new_id r m db found fresh ∙ rw (apart, eq_refl new_id) refl,
        (refl, refl, refl, refl, refl, refl, refl),
        supersede-rows env id id r m db found fresh ∙ rw (eq_refl id) refl,
        λ k old_other new_other.
            supersede-rows env id k r m db found fresh ∙ rw (old_other, new_other) refl,
      )

  -- A replacement adds three rows to the history: the row of `create` on the old memory, whose snapshot
  -- already shows it superseded, so that restoring it would not bring it back; the row of the new memory;
  -- and the row of the replacement, whose snapshot shows the old memory as it was.
  pub supersede_history :
      (env : MemoryEnv F) (id : String) (r : Replacement F) (m : Memory F) (db : MemoryDb F)
      → find_memory id db.memories ≡ some m
      → let new = new_memory env (env.uuid4 db.supply) (replacement_of id m r) in
        let source = or_default "supersede" r.source in
        (supersede env id r db).1.history
        ≡ db.history
          ++ (history_row env m.id "superseded_by_create"
                (some (snapshot (superseded m)))
                none
                source
                (db.supply + 1)
              ∷ history_row env new.id "create" none
                  (some (snapshot new))
                  source
                  (db.supply + 1 + 1)
              ∷ history_row env id "supersede"
                  (some (snapshot m))
                  (some (snapshot (replaced_row env m db.supply)))
                  (or_else (or_default "" r.source) "supersede")
                  (db.supply + 1 + 1 + 1)
              ∷ [])
  unfolding save
  supersede_history env id r m db found =
      let (answer, rows, history) = supersede-puts env id r m db found in
      history ∙ simp (append_assoc) refl
