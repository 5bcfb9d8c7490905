-- ===== src/Base/Trim.antt =====
-- Python's text methods that the services use, on ASCII white space and line ends.
use Prim.Native.String
use Prim.Native.String.{String}
use Prim.Native.Char.{Char, code}
use mathlib.Core.Bool.{Bool, ◌&&◌, ◌||◌}
use mathlib.Core.List.{List, [], ◌∷◌}
use mathlib.Core.Option.{Option, none, some}
use text.Mathlib.Text.{find?, starts_with}
use soul_claw.Base.Tests.{◌==◌, leb, is_empty, is_some, if◌then◌else◌}

-- `str.isspace` of a character
abbrev pub is_space : Char → Bool
is_space c =
    code c == 32 || ((leb 9 (code c) && leb (code c) 13) || (leb 28 (code c) && leb (code c) 31))

unfoldable pub rstrip_by : (Char → Bool) → String → String
rstrip_by p String.[] = ""
rstrip_by p (String.◌∷◌ c s) =
    let rest = rstrip_by p s in if is_empty rest && p c then "" else String.◌∷◌ c rest

unfoldable pub lstrip_by : (Char → Bool) → String → String
lstrip_by p String.[] = ""
lstrip_by p (String.◌∷◌ c s) = let rest = lstrip_by p s in if p c then rest else String.◌∷◌ c s

-- `s.strip()`
unfoldable pub strip : String → String
unfolding rstrip_by lstrip_by
strip s = lstrip_by is_space (rstrip_by is_space s)

-- `s.rstrip()`
unfoldable pub rstrip : String → String
unfolding rstrip_by
rstrip s = rstrip_by is_space s

-- `needle in s`
abbrev pub contains : String → String → Bool
contains needle s = is_some (find? s needle)

-- one more character before the first line
abbrev pub before_line : Char → List String → List String
before_line c [] = String.◌∷◌ c "" ∷ []
before_line c (l ∷ ls) = String.◌∷◌ c l ∷ ls

-- the characters that end a line
abbrev pub ends_line : Char → Bool
ends_line c = (leb 10 (code c) && leb (code c) 13) || (leb 28 (code c) && leb (code c) 30)

abbrev pub behind : Char → Option (String × String) → Option (String × String)
behind c none = none
behind c (some (before, after)) = some (String.◌∷◌ c before, after)

-- `s.splitlines()`, for which a carriage return and a line feed are one end
unfoldable pub splitlines : String → List String
splitlines String.[] = []
splitlines (String.◌∷◌ c s) =
    let rest = splitlines s in
    if code c == 13 && starts_with s "\n"
    then rest
    else if ends_line c
    then "" ∷ rest
    else before_line c rest

-- `s.split(separator)`, of one character
unfoldable pub split : Char → String → List String
split separator String.[] = "" ∷ []
split separator (String.◌∷◌ c s) =
    let rest = split separator s in
    if code c == code separator then "" ∷ rest else before_line c rest

-- what stands before and after the first such character
unfoldable pub cut : Char → String → Option (String × String)
cut separator String.[] = none
cut separator (String.◌∷◌ c s) =
    let rest = cut separator s in if code c == code separator then some ("", s) else behind c rest

-- `separator.join(lines)`
unfoldable pub join : String → List String → String
join separator [] = ""
join separator (l ∷ []) = l
join separator (l ∷ (k ∷ ls)) = String.◌++◌ l (String.◌++◌ separator (join separator (k ∷ ls)))

-- the rest behind a prefix
unfoldable pub drop_prefix : String → String → Option String
drop_prefix String.[] s = some s
drop_prefix (String.◌∷◌ c p) String.[] = none
drop_prefix (String.◌∷◌ c p) (String.◌∷◌ d s) =
    let rest = drop_prefix p s in if code c == code d then rest else none
