-- ===== src/Base/Read.antt =====
-- How the program reads a value of a dictionary: `str(d.get(k) or "")`, `int(d.get(k) or n)`, and
-- `v if isinstance(v, dict) else {}`.
use Prim.Native.String.{String}
use mathlib.Core.Bool.{true}
use mathlib.Core.Option.{Option, some}
use soul_claw.Base.Tests.{◌==◌, if◌then◌else◌}
use soul_claw.Base.Text.{str}
use soul_claw.Base.Values.{Json, flag, num, string, arr, obj, nil, Items, Fields, end}

-- The `repr` of a list or a dictionary is not modelled: where a text is expected, the program's
-- schemas allow none.
abbrev pub text_or_empty : Option Json → String
text_or_empty (some (string s)) = s
text_or_empty (some (num n)) = if n == 0 then "" else str n
text_or_empty (some (flag true)) = "True"
text_or_empty _ = ""

abbrev pub as_fields : Option Json → Fields
as_fields (some (obj d)) = d
as_fields _ = end

abbrev pub as_items : Option Json → Items
as_items (some (arr xs)) = xs
as_items _ = nil
