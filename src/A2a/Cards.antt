-- ===== src/A2a/Cards.antt =====
-- What an agent card says: `_capabilities_from_card` and `_skills_from_card` of backend/domain/a2a.py.
use Prim.Native.String
use Prim.Native.Nat.{Ordering}
use Prim.Native.Char.{code}
use soul_claw.Base.{
  String, Bool, true, false, List, [], ◌∷◌, ◌++◌, Option, none, some, Json, null, flag, num, string,
  arr, obj, Items, nil, cons, Fields, end, field, field_get, truthy, as_items, str, if◌then◌else◌,
  ◌==◌, sort_by, member,
}

-- `str(value)`; the `repr` of a list or a dictionary is not modelled, a card's tags are texts.
abbrev pub shown : Json → String
shown (string s) = s
shown (num n) = str n
shown (flag true) = "True"
shown (flag false) = "False"
shown null = "None"
shown (arr xs) = ""
shown (obj d) = ""

-- the keys with a true value
unfoldable pub true_keys : Fields → List String
unfolding truthy
true_keys end = []
true_keys (field k v rest) = let keys = true_keys rest in if truthy (some v) then k ∷ keys else keys

abbrev pub declared_caps : Option Json → List String
declared_caps (some (obj d)) = true_keys d
declared_caps _ = []

-- `[item for item in raw if isinstance(item, dict)]`
unfoldable pub dictionaries : Items → List Fields
dictionaries nil = []
dictionaries (cons (obj d) xs) = d ∷ dictionaries xs
dictionaries (cons null xs) = dictionaries xs
dictionaries (cons (flag b) xs) = dictionaries xs
dictionaries (cons (num n) xs) = dictionaries xs
dictionaries (cons (string s) xs) = dictionaries xs
dictionaries (cons (arr ys) xs) = dictionaries xs

-- `_skills_from_card`
unfoldable pub skills_from_card : Fields → List Fields
unfolding dictionaries field_get
skills_from_card card = dictionaries (as_items (field_get "skills" card))

abbrev pub all_shown : Items → List String
all_shown nil = []
all_shown (cons x xs) = shown x ∷ all_shown xs

-- `.replace(" ", "-")`
unfoldable pub dashed : String → String
dashed String.[] = ""
dashed (String.◌∷◌ c s) =
    let rest = dashed s in if code c == 32 then String.◌++◌ "-" rest else String.◌∷◌ c rest

abbrev pub shown_if : Option Json → (String → String) → List String
shown_if none change = []
shown_if (some v) change = if truthy (some v) then change (shown v) ∷ [] else []

unfoldable pub skill_words : (String → String) → Fields → List String
unfolding field_get truthy dashed
skill_words lower skill =
    all_shown (as_items (field_get "tags" skill))
    ++ (shown_if (field_get "id" skill) (λ s. s)
        ++ shown_if (field_get "name" skill) (λ s. dashed (lower s)))

unfoldable pub all_skill_words : (String → String) → List Fields → List String
unfolding skill_words
all_skill_words lower [] = []
all_skill_words lower (s ∷ ss) = skill_words lower s ++ all_skill_words lower ss

abbrev pub text_le : String → String → Bool
text_le s t = elim (String.compare s t) [ Ordering.gt ↦ false | _ ↦ true ]

unfoldable pub distinct : List String → List String
distinct [] = []
distinct (w ∷ ws) = let rest = distinct ws in if member w rest then rest else w ∷ rest

-- `_capabilities_from_card`
unfoldable pub capabilities_from_card : (String → String) → Fields → List String
unfolding sort_by distinct true_keys all_skill_words skills_from_card field_get
capabilities_from_card lower card = sort_by text_le (
    distinct (
      declared_caps (field_get "capabilities" card)
      ++ all_skill_words lower (skills_from_card card)))
