-- ===== src/Base/Text.antt =====
-- Texts that the program builds: f-strings and `str` of a number.
use Prim.Native.Nat.{ℕ, zero, suc, ◌/◌, ◌%◌}
use Prim.Native.String.{String, ◌++◌ as concat}
use mathlib.Core.Path.{◌≡◌, refl}
use mathlib.Core.List.{List, [], ◌∷◌}
use soul_claw.Base.Tests.{ltb, ◌==◌, if◌then◌else◌}

-- The pieces of an f-string, in order.
abbrev pub f_string : List String → String
f_string [] = ""
f_string (s ∷ rest) = concat s (f_string rest)

digit : ℕ → String
digit d =
    if d == 0
    then "0"
    else if d == 1
    then "1"
    else if d == 2
    then "2"
    else if d == 3
    then "3"
    else if d == 4
    then "4"
    else if d == 5
    then "5"
    else if d == 6
    then "6"
    else if d == 7
    then "7"
    else if d == 8
    then "8"
    else "9"

-- A number has at most as many digits as its value plus one, which bounds the rounds.
str_from : ℕ → ℕ → String
str_from zero n = ""
str_from (suc fuel) n =
    let shorter = str_from fuel (n / 10) in
    if ltb n 10 then digit n else concat shorter (digit (n % 10))

-- `str(n)` of an integer that is not negative
unfoldable pub str : ℕ → String
unfolding str_from digit
str n = str_from (suc n) n

str_of_305 : str 305 ≡ "305"
unfolding str
str_of_305 = refl
