-- ===== src/Memory/Ranking.antt =====
-- The score of a memory, and the order of the index: `_score_memory` and `_recency_score` of
-- backend/domain/memory.py. Snippets, which are only shown, are left out.
use Prim.Native.String
use Prim.Native.Nat.{Ordering}
use soul_claw.Base.{
  ℕ, ◌-◌, String, Bool, true, false, not, ◌&&◌, ◌||◌, List, [], ◌∷◌, ◌++◌, Option, none, some,
  str_eq, is_empty, is_some, if◌then◌else◌, find_first, leb, sort_by, contains,
}
use soul_claw.Memory.State.{Memory, MemoryEnv, Floats, FtsHit}
use soul_claw.Memory.Tokens.{tokens, jaccard}

pub record Ranked (F : Type 0) : Type 0 where
  pub score : F
  pub source : String
  pub memory : Memory F
  pub match_reasons : List String

-- `memory.kind in L1_KINDS`
abbrev pub is_l1 : String → Bool
is_l1 kind = str_eq kind "control_axiom" || str_eq kind "pinned_fact"

-- `sorted(tokens)`
abbrev pub text_le : String → String → Bool
text_le s t = elim (String.compare s t) [ Ordering.gt ↦ false | _ ↦ true ]

unfoldable pub sorted_words : List String → List String
unfolding sort_by
sorted_words = sort_by (λ s t. text_le s t)

-- `min(a, b)` and `max(a, b)`, which take the second where it is less or greater
abbrev pub f_min : {F : Type 0} → Floats F → F → F → F
f_min fl a b = if fl.lt b a then b else a

abbrev pub f_max : {F : Type 0} → Floats F → F → F → F
f_max fl a b = if fl.lt a b then b else a

-- `Memory.pinned` before the rest, then importance, then `updated_at`, each descending
abbrev pub ranks_before : {F : Type 0} → Floats F → Memory F → Memory F → Bool
ranks_before fl x y =
    if x.pinned && not y.pinned
    then true
    else if not x.pinned && y.pinned
    then false
    else if fl.lt y.importance x.importance
    then true
    else if fl.lt x.importance y.importance
    then false
    else leb y.updated_at x.updated_at

module _ {F : Type 0} where
  abbrev pub hit_of : String → List (FtsHit F) → Option (FtsHit F)
  hit_of id = find_first (λ h. str_eq h.memory_id id)

  -- one term of the score, with its reason, where it applies
  abbrev pub gain : Floats F → Bool → F → String → F × List String → F × List String
  gain fl applies amount reason (score, reasons) =
      if applies then (fl.add score amount, reasons ++ (reason ∷ [])) else (score, reasons)

  -- `_recency_score`; a time in the future has the age 0
  unfoldable pub recency_score : Floats F → ℕ → Memory F → F
  recency_score fl now m =
      let age_days = fl.div (fl.ratio (now - m.updated_at) 1000000) (fl.ratio 86400 1) in
      f_max fl (fl.ratio 0 1) (
        fl.mul (fl.ratio 45 100)
          (fl.sub (fl.ratio 1 1) (fl.div (f_min fl age_days (fl.ratio 90 1)) (fl.ratio 90 1))))

  abbrev pub rank_gain : Floats F → Option (FtsHit F) → F × List String → F × List String
  rank_gain fl none start = start
  rank_gain fl (some h) start =
      gain fl true (f_min fl (fl.ratio 3 1) (fl.mul h.rank (fl.ratio 3 1))) "bm25" start

  abbrev pub quality : Floats F → Memory F → F
  quality fl m =
      fl.add
        (fl.add (fl.mul m.importance (fl.ratio 45 100)) (fl.mul m.confidence (fl.ratio 25 100)))
        (fl.mul m.stability (fl.ratio 2 10))

  abbrev pub nonzero : Floats F → F → Bool
  nonzero fl x = fl.lt x (fl.ratio 0 1) || fl.lt (fl.ratio 0 1) x

  -- `_score_memory`
  unfoldable pub score_memory :
      MemoryEnv F → String → Option (FtsHit F) → Memory F → F × List String
  unfolding tokens jaccard recency_score
  score_memory env query hit m =
      let fl = env.floats in
      let overlap = jaccard fl (tokens env.lower query) (tokens env.lower m.content) in
      let (score, reasons) = gain fl true (quality fl m) "quality" (
        gain fl (is_l1 m.kind) (fl.ratio 45 100) "l1" (
          gain fl m.pinned (fl.ratio 8 10) "pinned" (
            gain fl (nonzero fl overlap) (f_min fl (fl.ratio 1 1) (fl.mul overlap (fl.ratio 2 1)))
              "token_overlap"
              (gain fl (not (is_empty query) && contains (env.lower query) (env.lower m.content))
                (fl.ratio 1 1) "exact_content" (rank_gain fl hit (fl.ratio 0 1, [])))))) in
      (fl.add score (recency_score fl env.now m), reasons)

  abbrev pub rank_row :
      MemoryEnv F → String → Option (FtsHit F) → Memory F → F × List String → Ranked F
  rank_row env query hit m (score, reasons) = record {
    score = env.floats.round4 score;
    source = if is_some hit then "memory_fts" else "memory_index";
    memory = m;
    match_reasons = reasons;
  }

  abbrev pub by_score : Floats F → List (Ranked F) → List (Ranked F)
  by_score fl = sort_by (λ x y. not (fl.lt x.score y.score))
