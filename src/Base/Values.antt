-- ===== src/Base/Values.antt =====
-- JSON values, as the `dict[str, Any]` columns and tool arguments hold them. Numbers are naturals:
-- the program's counts, limits and status codes.
use Prim.Native.Nat.{ℕ}
use Prim.Native.String.{String}
use mathlib.Core.Path.{◌≡◌}
use mathlib.Core.Bool.{Bool, true, false, not}
use mathlib.Core.Option.{Option, none, some}
use native.Mathlib.Omega.{arith}
use text.Mathlib.Text.{◌==◌ as str_eq}
use text.Mathlib.TextEquality.{eq_iff}
use soul_claw.Base.Tests.{◌==◌, if◌then◌else◌}

mutual
  pub data Json : Type 0 where
    null : Json
    flag : Bool → Json
    num : ℕ → Json
    string : String → Json
    arr : Items → Json
    obj : Fields → Json

  pub data Items : Type 0 where
    nil : Items
    cons : Json → Items → Items

  pub data Fields : Type 0 where
    end : Fields
    field : String → Json → Fields → Fields

-- `d.get(k)`
unfoldable pub field_get : String → Fields → Option Json
field_get k end = none
field_get k (field j v rest) = if str_eq j k then some v else field_get k rest

-- `{**d, k: v}`
unfoldable pub field_put : String → Json → Fields → Fields
field_put k v end = field k v end
field_put k v (field j w rest) =
    if str_eq j k then field j v rest else field j w (field_put k v rest)

pub field_get-put :
    (k j : String) (v : Json) (d : Fields)
    → field_get j (field_put k v d) ≡ (if str_eq k j then some v else field_get j d)
unfolding field_get field_put
field_get-put k j v end = ground (arith, eq_iff k j)
field_get-put k j v (field i w rest) =
    ground (arith, eq_iff k j, eq_iff i k, eq_iff i j, field_get-put k j v rest)

-- `bool(v)`, for a value that may be missing
unfoldable pub truthy : Option Json → Bool
truthy none = false
truthy (some null) = false
truthy (some (flag b)) = b
truthy (some (num n)) = not (n == 0)
truthy (some (string s)) = not (str_eq s "")
truthy (some (arr nil)) = false
truthy (some (arr (cons x xs))) = true
truthy (some (obj end)) = false
truthy (some (obj (field k v rest))) = true
