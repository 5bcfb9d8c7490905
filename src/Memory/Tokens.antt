-- ===== src/Memory/Tokens.antt =====
-- The words of a text and their overlap, and the conflicts that they show: `_tokens`, `_jaccard` and
-- `_detect_conflicts` of backend/domain/memory.py.
use Prim.Native.String
use Prim.Native.Char.{Char, code}
use soul_claw.Base.{
  ℕ, ◌+◌, ◌-◌, String, Bool, not, ◌&&◌, ◌||◌, List, [], ◌∷◌, ◌++◌, Exec, ok, f_string, str_eq,
  is_empty, if◌then◌else◌, leb, ltb, ◌==◌, keep, any, member, length, sort_by, take, strip,
}
use soul_claw.Memory.State.{Memory, MemoryConflict, MemoryDb, MemoryEnv, Floats}

-- a character of `[a-zA-Z0-9_\u4e00-\u9fff]`
abbrev pub is_word : Char → Bool
is_word c =
    let n = code c in
    (leb 97 n && leb n 122)
    || ((leb 65 n && leb n 90)
        || ((leb 48 n && leb n 57) || ((n == 95) || (leb 0x4e00 n && leb n 0x9fff))))

-- `re.findall`: the words, of which this one is read so far
unfoldable pub words : String → String → List String
words word String.[] = if is_empty word then [] else word ∷ []
words word (String.◌∷◌ c s) =
    let rest = words (if is_word c then String.◌++◌ word (String.◌∷◌ c "") else "") s in
    if is_word c || is_empty word then rest else word ∷ rest

unfoldable pub distinct : List String → List String
distinct [] = []
distinct (w ∷ ws) = let rest = distinct ws in if member w rest then rest else w ∷ rest

-- `_tokens`, the set as a list without repetitions
unfoldable pub tokens : (String → String) → String → List String
unfolding words distinct
tokens lower text = distinct (keep (λ w. ltb 1 (String.count w)) (words "" (lower text)))

-- `len(left & right)` and `len(left | right)`
unfoldable pub common : List String → List String → ℕ
common left right = length (keep (λ w. member w right) left)

abbrev pub jaccard_of : {F : Type 0} → Floats F → ℕ → ℕ → ℕ → F
jaccard_of fl left right both =
    if (left == 0) || (right == 0) then fl.ratio 0 1 else fl.ratio both (left + right - both)

-- `_jaccard`
unfoldable pub jaccard : {F : Type 0} → Floats F → List String → List String → F
unfolding common
jaccard fl left right = jaccard_of fl (length left) (length right) (common left right)

-- an open conflict between the two, either way round
abbrev pub is_open_between : String → String → MemoryConflict → Bool
is_open_between left right c =
    str_eq c.status "open"
    && ((str_eq c.left_memory_id left && str_eq c.right_memory_id right)
        || (str_eq c.left_memory_id right && str_eq c.right_memory_id left))

module _ {F : Type 0} where
  -- `order_by(desc(Memory.updated_at))`
  unfoldable pub newest_first : List (Memory F) → List (Memory F)
  unfolding sort_by
  newest_first = sort_by (λ x y. leb y.updated_at x.updated_at)

  abbrev pub is_candidate : Memory F → Memory F → Bool
  is_candidate memory m =
      not (str_eq m.id memory.id) && (not m.archived && str_eq m.kind memory.kind)

  -- the loop over the candidates
  unfoldable pub conflicts_with :
      MemoryEnv F → Memory F → List (Memory F) → List MemoryConflict → List MemoryConflict
  unfolding tokens jaccard strip
  conflicts_with env memory [] found = found
  conflicts_with env memory (candidate ∷ rest) found =
      let overlap =
        jaccard env.floats (tokens env.lower memory.content) (tokens env.lower candidate.content) in
      conflicts_with env memory rest (
        if env.floats.lt overlap (env.floats.ratio 62 100)
          || (str_eq (strip candidate.content) (strip memory.content)
              || any (is_open_between candidate.id memory.id) found)
        then found
        else found
          ++ (record {
            left_memory_id = candidate.id;
            right_memory_id = memory.id;
            status = "open";
            reason = f_string (
                "Similar "
                ∷ memory.kind
                ∷ " memories may conflict (token overlap "
                ∷ env.floats.fixed2 overlap
                ∷ ")."
                ∷ []);
          }
              ∷ []))

  -- `_detect_conflicts`
  unfoldable pub detect_conflicts : MemoryEnv F → Memory F → Exec (MemoryDb F) (Unit {0})
  unfolding tokens newest_first conflicts_with
  detect_conflicts env memory db =
      if ltb (length (tokens env.lower memory.content)) 4 then (ok tt, db) else (
        ok tt,
        record db {
          conflicts =
              conflicts_with env memory
                (take 50 (newest_first (keep (is_candidate memory) db.memories))) db.conflicts;
        },
      )
