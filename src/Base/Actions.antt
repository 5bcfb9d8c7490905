-- ===== src/Base/Actions.antt =====
-- Exceptions as values, and actions that change a state and may raise. A raise keeps the changes
-- made before it, as Python does; a transaction undoes them where the source rolls back.
use Prim.Native.String.{String, ◌++◌ as concat}
use mathlib.Core.Bool.{Bool, true, false}

-- The exception classes that the modelled code raises or tells apart, with their message.
pub data PyError : Type 0 where
  key_error value_error runtime_error permission_error other_error : String → PyError
  -- `ToolApprovalRequired`, a PermissionError: message, tool name, approval id
  approval_required : String → String → String → PyError

-- `str(exc)`: KeyError shows the repr of its message.
abbrev pub str_exc : PyError → String
str_exc (key_error m) = concat "'" (concat m "'")
str_exc (value_error m) = m
str_exc (runtime_error m) = m
str_exc (permission_error m) = m
str_exc (other_error m) = m
str_exc (approval_required m tool id) = m

-- `isinstance(exc, PermissionError)`
abbrev pub is_permission : PyError → Bool
is_permission (permission_error m) = true
is_permission (approval_required m tool id) = true
is_permission _ = false

pub data Result {ℓ} (A : Type ℓ) : Type ℓ where
  ok : A → Result A
  err : PyError → Result A

abbrev pub Exec {ℓ} : Type ℓ → Type ℓ → Type ℓ
Exec S A = S → Result A × S

module _ {ℓ} {S A : Type ℓ} where
  unfoldable pub pure : A → Exec S A
  pure a s = (ok a, s)

  unfoldable pub raise : PyError → Exec S A
  raise e s = (err e, s)

  unfoldable pub lift : Result A → Exec S A
  lift r s = (r, s)

  abbrev pub then_do : {B : Type ℓ} → Result A × S → (A → Exec S B) → Result B × S
  then_do (ok a, s) f = f a s
  then_do (err e, s) f = (err e, s)

infixl 5 ◌>>=◌ ◌>>◌
abbrev pub ◌>>=◌ {ℓ} : {S A B : Type ℓ} → Exec S A → (A → Exec S B) → Exec S B
◌>>=◌ m f s = then_do (m s) f

abbrev pub ◌>>◌ {ℓ} : {S A B : Type ℓ} → Exec S A → Exec S B → Exec S B
◌>>◌ m k s = then_do (m s) (λ _. k)
