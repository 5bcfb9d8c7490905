-- ===== src/Memory/Found.antt =====
-- What a search returns.
use soul_claw.Base.{
  ℕ, ◌*◌, ◌≤◌, ◌<◌, String, Bool, true, false, not, ◌&&◌, ◌≡◌, refl, List, [], ◌∷◌, arith, min, max,
  leb, length, length-take, reverse, All, All-take, All-sort_by, All-reverse, Bool-cases, inl, inr,
  is_empty, strip,
}
use soul_claw.Memory.State.{Memory, MemoryDb, MemoryEnv, FtsHit, Floats, is_inactive}
use soul_claw.Memory.Tokens.{tokens, jaccard}
use soul_claw.Memory.Ranking.{Ranked, score_memory, by_score, hit_of}
use soul_claw.Memory.Search.{
  rank_each, similarity, penalised, select_from, mmr_dedup, search, candidates, fts_search,
}

true_of_not : (b : Bool) → not b ≡ false → b ≡ true
true_of_not true h = refl
true_of_not false h = ground arith

-- Floats in order: the comparison is transitive, and what is not greater than a smaller one is smaller.
pub record IsOrder {F : Type 0} (fl : Floats F) : Type 0 where
  pub trans : (a b c : F) → fl.lt a b ≡ true → fl.lt b c ≡ true → fl.lt a c ≡ true
  pub weak : (a b c : F) → fl.lt a b ≡ false → fl.lt a c ≡ true → fl.lt b c ≡ true

module _ {F : Type 0} (env : MemoryEnv F) where
  -- a result whose memory is in force
  abbrev pub IsActive : Ranked F → Type 0
  IsActive r = is_inactive env.now r.memory ≡ false

  rank_each-Active :
      (query : String) (hits : List (FtsHit F)) (ms : List (Memory F))
      → All IsActive (rank_each env query hits ms)
  unfolding rank_each
  rank_each-Active query hits [] = tt
  rank_each-Active query hits (m ∷ ms) =
      let rest = rank_each-Active query hits ms in
      elim (Bool-cases (is_inactive env.now m)) [
        | inl e ↦ rw e rest
        | inr e ↦
            rw e
              (elim (Bool-cases (
                not (is_empty query)
                && not (
                    env.floats.lt (env.floats.ratio 0 1)
                      (score_memory env query (hit_of m.id hits) m).0))) [
                        | inl low ↦ rw low rest
                        | inr high ↦ rw high (e, rest)
                      ])
      ]

  -- No chosen result overlaps by 0.82 or more with one that was chosen before it.
  abbrev pub IsDiverse : List (Ranked F) → Type 0
  IsDiverse [] = Unit
  IsDiverse (r ∷ rs) =
      (env.floats.lt (similarity env r rs) (env.floats.ratio 82 100) ≡ true) × IsDiverse rs

  abbrev pub alike : Ranked F → List (Ranked F) → Bool
  alike item chosen = not (env.floats.lt (similarity env item chosen) (env.floats.ratio 82 100))

  -- what holds of the selection: active results, diverse, and at most as many as wanted
  abbrev pub Selected : ℕ → List (Ranked F) → Type 0
  Selected limit rs = All IsActive rs × IsDiverse rs × (length rs ≤ limit)

  similarity-penalised :
      (s : F) (item : Ranked F) (rs : List (Ranked F))
      → similarity env (penalised env.floats s item) rs ≡ similarity env item rs
  unfolding similarity
  similarity-penalised s item [] = refl
  similarity-penalised s item (x ∷ []) = refl
  similarity-penalised s item (x ∷ (y ∷ ys)) = rw (similarity-penalised s item (y ∷ ys)) refl

  chosen_more :
      (limit : ℕ) (item : Ranked F) (chosen : List (Ranked F))
      → alike item chosen ≡ false
      → IsActive item
      → length chosen < limit
      → Selected limit chosen
      → Selected limit (penalised env.floats (similarity env item chosen) item ∷ chosen)
  chosen_more limit item chosen new active room h = (
    (active, h.0),
    (
      rw (similarity-penalised (similarity env item chosen) item chosen)
          (true_of_not (env.floats.lt (similarity env item chosen) (env.floats.ratio 82 100)) new),
      h.1,
    ),
    omega (arith, room),
  )

  select_from-Selected :
      (limit : ℕ) (chosen items : List (Ranked F))
      → length chosen < limit
      → Selected limit chosen
      → All IsActive items
      → Selected limit (select_from env limit chosen items)
  unfolding select_from
  select_from-Selected limit chosen [] room h active = h
  select_from-Selected limit chosen (item ∷ items) room h active =
      let more = penalised env.floats (similarity env item chosen) item ∷ chosen in
      elim (Bool-cases (alike item chosen)) [
        | inl e ↦ rw e (select_from-Selected limit chosen items room h active.1)
        | inr e ↦
            let grown = chosen_more limit item chosen e active.0 room h in
            rw e (elim (Bool-cases (leb limit (length more))) [
              | inl full ↦ rw full grown
              | inr free ↦
                  rw free
                    (select_from-Selected limit more items (ground (arith, free)) grown active.1)
            ])
      ]

  select-Selected :
      (limit : ℕ) (items : List (Ranked F))
      → 0 < limit
      → All IsActive items
      → Selected limit (select_from env limit [] items)
  select-Selected limit items positive active =
      select_from-Selected limit [] items positive (tt, tt, omega arith) active

  -- the overlap of two results' contents
  abbrev pub overlap : Ranked F → Ranked F → F
  overlap r x =
      jaccard env.floats (tokens env.lower r.memory.content) (tokens env.lower x.memory.content)

  -- Each two results, one of them behind the other, overlap by less than 0.82.
  abbrev pub IsApart : List (Ranked F) → Type 0
  IsApart [] = Unit
  IsApart (r ∷ rs) =
      All (λ x. env.floats.lt (overlap r x) (env.floats.ratio 82 100) ≡ true) rs × IsApart rs

  -- A search returns memories in force only, whatever the index matches, and at most as many as the limit
  -- allows, which is at least 1 and at most 50.
  pub search-IsActive :
      (query : String) (limit : ℕ) (db : MemoryDb F)
      → All IsActive (search env query limit db)
        × (length (search env query limit db) ≤ max 1 (min limit 50))
  unfolding search mmr_dedup
  search-IsActive query limit db =
      let count = max 1 (min limit 50) in
      let hits = fts_search env (strip query) (max (count * 4) 20) db in
      let found = candidates env (strip query) (max (count * 4) 20) hits db.memories in
      let ranked = rank_each env (strip query) hits found in
      let before = λ (x y : Ranked F). not (env.floats.lt x.score y.score) in
      let active = All-sort_by IsActive before ranked (rank_each-Active (strip query) hits found) in
      let selected = select-Selected count (by_score env.floats ranked) (omega arith) active in
      let chosen = select_from env count [] (by_score env.floats ranked) in
      (
        All-take IsActive count (by_score env.floats (reverse chosen))
            (All-sort_by IsActive before (reverse chosen) (All-reverse IsActive chosen selected.0)),
        omega (arith, length-take count (by_score env.floats (reverse chosen))),
      )
