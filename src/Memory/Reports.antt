-- ===== src/Memory/Reports.antt =====
-- The lists and the report of `MemoryService`, of backend/domain/memory.py.
use Prim.Native.String
use soul_claw.Base.{
  ℕ, ◌+◌, ◌-◌, String, Bool, not, ◌&&◌, ◌||◌, List, [], ◌∷◌, ◌++◌, Option, none, some, Exec,
  field_get, truthy, str_eq, is_empty, keep, take, reverse, map, false, length, min, max, ltb, ok,
}
use soul_claw.Memory.State.{
  Memory, MemoryHistory, MemoryConflict, MemoryProbe, MemoryDb, MemoryEnv, find_memory, is_inactive,
  is_expired,
}
use soul_claw.Memory.Tokens.{newest_first}

abbrev pub is_about : String → Option String → Bool
is_about id none = false
is_about id (some i) = str_eq i id

abbrev pub total_chars : List String → ℕ
total_chars [] = 0
total_chars (s ∷ ss) = String.count s + total_chars ss

pub record Governance : Type 0 where
  pub limit_chars : ℕ
  pub used_chars : ℕ
  pub remaining_chars : ℕ
  pub over_budget : Bool
  pub active_memories : ℕ
  pub expired_memories : ℕ
  pub missing_access_policy : ℕ

module _ {F : Type 0} where
  -- `list`; no kind is the empty text
  unfoldable pub list_memories : String → Bool → ℕ → MemoryDb F → List (Memory F)
  unfolding newest_first
  list_memories kind include_archived limit db = take (max 1 (min limit 500)) (
      newest_first (
        keep (λ m. (is_empty kind || str_eq m.kind kind) && (include_archived || not m.archived))
          db.memories))

  -- `get`
  abbrev pub get : String → MemoryDb F → Option (Memory F)
  get id db = find_memory id db.memories

  -- `list_conflicts`
  unfoldable pub list_conflicts : String → ℕ → MemoryDb F → List MemoryConflict
  list_conflicts status limit db =
      take (max 1 (min limit 500))
        (reverse (keep (λ c. is_empty status || str_eq c.status status) db.conflicts))

  -- `create_probe`
  unfoldable pub create_probe : MemoryEnv F → String → String → Exec (MemoryDb F) MemoryProbe
  create_probe env question expected db =
      let probe : MemoryProbe = record {
        id = env.uuid4 db.supply;
        question = question;
        expected = expected;
        status = "active";
      } in
      (ok probe, record db { probes = db.probes ++ (probe ∷ []); supply = db.supply + 1 })

  -- `list_probes`
  unfoldable pub list_probes : String → ℕ → MemoryDb F → List MemoryProbe
  list_probes status limit db =
      take (max 1 (min limit 500))
        (reverse (keep (λ p. is_empty status || str_eq p.status status) db.probes))

  -- `history`; without an id, of every memory
  unfoldable pub history_of : Option String → ℕ → MemoryDb F → List (MemoryHistory F)
  history_of none limit db = take (max 1 (min limit 500)) (reverse db.history)
  history_of (some id) limit db =
      take (max 1 (min limit 500)) (reverse (keep (λ h. is_about id h.memory_id) db.history))

  -- `governance_status`, without the status of the index
  unfoldable pub governance_status : MemoryEnv F → ℕ → MemoryDb F → Governance
  unfolding is_inactive field_get truthy
  governance_status env budget db =
      let active = keep (λ m. not m.archived && not (is_inactive env.now m)) db.memories in
      let used = total_chars (map (λ m. m.content) active) in
      record {
        limit_chars = budget;
        used_chars = used;
        remaining_chars = budget - used;
        over_budget = ltb budget used;
        active_memories = length active;
        expired_memories =
            min 100
              (length (keep (λ m. not m.archived && is_expired env.now m.valid_to) db.memories));
        missing_access_policy =
            length (keep (λ m. not (truthy (field_get "access" m.metadata))) active);
      }
