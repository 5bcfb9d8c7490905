-- ===== src/Memory/Search.antt =====
-- `search` and `resident_context` of backend/domain/memory.py.
use soul_claw.Base.{
  ℕ, ◌*◌, String, Bool, not, ◌&&◌, ◌||◌, List, [], ◌∷◌, ◌++◌, Option, str_eq, is_empty, is_some,
  if◌then◌else◌, keep, any, take, length, min, max, leb, sort_by, strip, map, reverse,
}
use soul_claw.Memory.State.{
  Memory, MemoryDb, MemoryEnv, Floats, FtsHit, is_inactive, is_retired, is_expired, Backend,
  other_backend, sqlite, postgresql,
}
use soul_claw.Memory.Tokens.{tokens, jaccard}
use soul_claw.Memory.Index.{refresh_fts}
use soul_claw.Memory.State.{FtsRow}
use soul_claw.Memory.Ranking.{
  Ranked, is_l1, f_max, sorted_words, ranks_before, hit_of, nonzero, score_memory, by_score,
  rank_row,
}

module _ {F : Type 0} where
  -- the index that SQLite searches: one that is missing is built first. The search is a reading of the
  -- tables here, so the index is not kept.
  abbrev pub index_for : MemoryEnv F → Backend → MemoryDb F → Option (List FtsRow)
  index_for env sqlite db = if is_some db.fts then db.fts else (refresh_fts env db).1.fts
  index_for env postgresql db = db.fts
  index_for env other_backend db = db.fts

  -- `_fts_search`: the database's match of the query; no query has no hits
  unfoldable pub fts_search : MemoryEnv F → String → ℕ → MemoryDb F → List (FtsHit F)
  unfolding strip refresh_fts
  fts_search env query limit db =
      if is_empty (strip query)
      then []
      else env.fts_match (index_for env env.backend db) query limit

  -- `or_(*clauses)` of the query and its first six words
  unfoldable pub matches : MemoryEnv F → String → Memory F → Bool
  unfolding tokens sorted_words
  matches env query m =
      is_empty query
      || (env.ilike m.content query
          || (env.ilike m.kind query
              || (env.ilike m.source query
                  || any (env.ilike m.content) (take 6 (sorted_words (tokens env.lower query))))))

  -- `_structured_candidates`
  unfoldable pub structured_candidates :
      MemoryEnv F → String → ℕ → List (Memory F) → List (Memory F)
  unfolding matches sort_by
  structured_candidates env query limit memories = take limit (
      sort_by (ranks_before env.floats) (
        keep
          (λ m.
            not m.archived
            && (not (is_retired m.status)
                && (not (is_expired env.now m.valid_to) && matches env query m)))
          memories))

  abbrev pub has_memory : List (Memory F) → String → Bool
  has_memory ms id = any (λ m. str_eq m.id id) ms

  -- the dictionary of candidates: the hits of the index, then the others
  unfoldable pub candidates :
      MemoryEnv F → String → ℕ → List (FtsHit F) → List (Memory F) → List (Memory F)
  unfolding structured_candidates
  candidates env query limit hits memories =
      let first = keep (λ m. is_some (hit_of m.id hits)) memories in
      first
      ++ keep (λ m. not (has_memory first m.id)) (structured_candidates env query limit memories)

  -- the loop of `search` over the candidates
  unfoldable pub rank_each :
      MemoryEnv F → String → List (FtsHit F) → List (Memory F) → List (Ranked F)
  unfolding is_inactive score_memory
  rank_each env query hits [] = []
  rank_each env query hits (m ∷ ms) =
      let scored = score_memory env query (hit_of m.id hits) m in
      let rest = rank_each env query hits ms in
      if is_inactive env.now m
        || (not (is_empty query) && not (env.floats.lt (env.floats.ratio 0 1) scored.0))
      then rest
      else rank_row env query (hit_of m.id hits) m scored ∷ rest

  -- `max((...), default=0.0)` of the overlaps with the selected ones
  unfoldable pub similarity : MemoryEnv F → Ranked F → List (Ranked F) → F
  unfolding tokens jaccard
  similarity env item [] = env.floats.ratio 0 1
  similarity env item (x ∷ []) =
      jaccard env.floats (tokens env.lower item.memory.content) (tokens env.lower x.memory.content)
  similarity env item (x ∷ (y ∷ ys)) = f_max env.floats (similarity env item (y ∷ ys)) (
      jaccard env.floats (tokens env.lower item.memory.content) (tokens env.lower x.memory.content))

  abbrev pub penalised : Floats F → F → Ranked F → Ranked F
  penalised fl s item = record item {
    score = fl.round4 (fl.sub item.score (fl.mul s (fl.ratio 35 100)));
    match_reasons =
        if nonzero fl s then item.match_reasons ++ ("dedup_penalty" ∷ []) else item.match_reasons;
  }

  -- the loop of `_mmr_dedup`, the last selected first
  unfoldable pub select_from : MemoryEnv F → ℕ → List (Ranked F) → List (Ranked F) → List (Ranked F)
  unfolding similarity
  select_from env limit chosen [] = chosen
  select_from env limit chosen (item ∷ items) =
      let s = similarity env item chosen in
      let alike = not (env.floats.lt s (env.floats.ratio 82 100)) in
      let next = if alike then chosen else penalised env.floats s item ∷ chosen in
      let rest = select_from env limit next items in
      if not alike && leb limit (length next) then next else rest

  -- `_mmr_dedup`
  unfoldable pub mmr_dedup : MemoryEnv F → ℕ → List (Ranked F) → List (Ranked F)
  unfolding select_from sort_by
  mmr_dedup env limit ranked =
      take limit (by_score env.floats (reverse (select_from env limit [] ranked)))

  -- `search`
  unfoldable pub search : MemoryEnv F → String → ℕ → MemoryDb F → List (Ranked F)
  unfolding fts_search candidates rank_each mmr_dedup sort_by strip
  search env raw limit db =
      let query = strip raw in
      let count = max 1 (min limit 50) in
      let hits = fts_search env query (max (count * 4) 20) db in
      mmr_dedup env count (
        by_score env.floats
          (rank_each env query hits (candidates env query (max (count * 4) 20) hits db.memories)))

  -- the rows of `resident_stmt`
  unfoldable pub resident : MemoryEnv F → MemoryDb F → List (Memory F)
  unfolding is_inactive sort_by
  resident env db =
      keep (λ m. not (is_inactive env.now m))
        (take 20 (
          sort_by (ranks_before env.floats) (
            keep (λ m. not m.archived && (not (is_retired m.status) && (m.pinned || is_l1 m.kind)))
              db.memories)))

  -- `resident_context`: the resident memories, and the found ones that are not among them
  unfoldable pub resident_context :
      MemoryEnv F → String → ℕ → MemoryDb F → List (Memory F) × List (Memory F)
  unfolding resident search
  resident_context env query dynamic_limit db =
      let seen = resident env db in
      (
        seen,
        keep (λ m. not (has_memory seen m.id))
            (map (λ r. r.memory) (search env query dynamic_limit db)),
      )
