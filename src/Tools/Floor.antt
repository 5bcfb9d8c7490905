-- ===== src/Tools/Floor.antt =====
-- `ToolSafetyFloor` of backend/domain/tools.py: the blocked patterns, as regular expressions over the
-- ASCII codes of the serialized arguments, and `validate`. The matcher is what `re.search` does with such
-- a pattern.
use Prim.Native.Char.{code}
use soul_claw.Base.{
  ℕ, ◌+◌, String, Bool, true, false, ◌&&◌, ◌||◌, not, List, [], ◌∷◌, ◌++◌, Option, none, some,
  Result, ok, err, permission_error, Fields, f_string, member, if◌then◌else◌, leb, ◌==◌,
}
use soul_claw.Tools.State.{ToolDefinition, ToolEnv}

abbrev pub codes : String → List ℕ
codes String.[] = []
codes (String.◌∷◌ c s) = code c ∷ codes s

-- `\b`, a literal character under IGNORECASE, `\s+`
pub data Atom : Type 0 where
  boundary spaces : Atom
  lit : ℕ → Atom

-- `\w` and `\s` on ASCII
unfoldable pub is_word : ℕ → Bool
is_word c =
    (leb b'a' c && leb c b'z')
    || (leb b'A' c && leb c b'Z')
    || (leb b'0' c && leb c b'9')
    || c == b'_'

unfoldable pub is_space : ℕ → Bool
is_space c = c == 32 || (leb 9 c && leb c 13) || (leb 28 c && leb c 31)

unfoldable pub fold_case : ℕ → ℕ
fold_case c = if leb b'A' c && leb c b'Z' then c + 32 else c

abbrev pub head_is_word : List ℕ → Bool
head_is_word [] = false
head_is_word (c ∷ s) = is_word c

abbrev pub xor : Bool → Bool → Bool
xor a b = if a then not b else b

-- `pattern.match` from here: `before` says whether the character before is a word character. The
-- branches of `\s+` are both tried, as a backtracking matcher tries them.
unfoldable pub match_here : Bool → List Atom → List ℕ → Bool
match_here before [] s = true
match_here before (boundary ∷ p) s = xor before (head_is_word s) && match_here before p s
match_here before (lit x ∷ p) [] = false
match_here before (lit x ∷ p) (c ∷ s) = fold_case c == fold_case x && match_here (is_word c) p s
match_here before (spaces ∷ p) [] = false
match_here before (spaces ∷ p) (c ∷ s) =
    is_space c && (match_here (is_word c) p s || match_here (is_word c) (spaces ∷ p) s)

-- `pattern.search`
unfoldable pub search_from : Bool → List Atom → List ℕ → Bool
search_from before p [] = match_here before p []
search_from before p (c ∷ s) = match_here before p (c ∷ s) || search_from (is_word c) p s

unfoldable pub pattern_search : List Atom → List ℕ → Bool
pattern_search = search_from false

abbrev pub word : String → List Atom
word String.[] = []
word (String.◌∷◌ c s) = lit (code c) ∷ word s

pub record BlockedPattern : Type 0 where
  pub pattern_text : String
  pub atoms : List Atom

-- `blocked_patterns`
unfoldable pub blocked_patterns : List BlockedPattern
blocked_patterns =
    record {
      pattern_text = "\\brm\\s+-rf\\s+/";
      atoms = boundary ∷ (word "rm" ++ (spaces ∷ (word "-rf" ++ (spaces ∷ word "/"))));
    }
    ∷ record {
      pattern_text = "\\bgit\\s+reset\\s+--hard\\b";
      atoms =
          boundary
          ∷ (word "git"
              ++ (spaces ∷ (word "reset" ++ (spaces ∷ (word "--hard" ++ (boundary ∷ []))))));
    }
    ∷ record {
      pattern_text = "\\bgit\\s+checkout\\s+--\\s+/";
      atoms =
          boundary
          ∷ (word "git"
              ++ (spaces ∷ (word "checkout" ++ (spaces ∷ (word "--" ++ (spaces ∷ word "/"))))));
    }
    ∷ record { pattern_text = "\\bmkfs\\."; atoms = boundary ∷ word "mkfs." }
    ∷ record {
      pattern_text = "\\bchmod\\s+-R\\s+777\\s+/";
      atoms =
          boundary
          ∷ (word "chmod"
              ++ (spaces ∷ (word "-R" ++ (spaces ∷ (word "777" ++ (spaces ∷ word "/"))))));
    }
    ∷ []

-- The first pattern that is found in the serialized arguments.
unfoldable pub first_blocked : List BlockedPattern → List ℕ → Option String
unfolding pattern_search
first_blocked [] s = none
first_blocked (b ∷ bs) s =
    if pattern_search b.atoms s then some b.pattern_text else first_blocked bs s

-- `mutating_scopes`
unfoldable pub is_mutating : String → Bool
is_mutating scope =
    member scope
      ("memory.write" ∷ "skill.write" ∷ "wiki.write" ∷ "system.write" ∷ "external.write" ∷ [])

module _ {S : Type 0} where
  unfoldable pub judge : ToolDefinition S → Bool → Option String → Result (Unit {0})
  unfolding is_mutating
  judge tool approved (some pattern) =
      err (permission_error (f_string ("blocked by hard safety floor: " ∷ pattern ∷ [])))
  judge tool approved none =
      if is_mutating tool.scope && (tool.requires_approval && not approved)
      then err (permission_error "tool requires approval before execution")
      else ok tt

  -- `validate`
  unfoldable pub validate : ToolEnv → ToolDefinition S → Fields → Bool → Result (Unit {0})
  unfolding judge
  validate env tool arguments approved =
      judge tool approved (first_blocked blocked_patterns (codes (env.repr arguments)))
