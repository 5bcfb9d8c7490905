-- ===== src/Base.antt =====
-- Names that the modules share: the libraries' names, passed on, and those of the children.
mod Tests
mod Lists
mod Text
mod Values
mod Read
mod Actions
mod Events
mod Trim
mod Slices
pub use Tests.*
pub use Lists.*
pub use Text.*
pub use Values.*
pub use Read.*
pub use Actions.*
pub use Events.*
pub use Trim.*
pub use Slices.*
unfoldable pub use Text.{str}
unfoldable pub use Lists.{insert_by, sort_by}
unfoldable pub use Actions.{pure, raise, lift}
unfoldable pub use Events.{emit, audit}
unfoldable pub use Trim.{
  rstrip_by, lstrip_by, strip, rstrip, splitlines, split, cut, join, drop_prefix,
}
unfoldable pub use Values.{field_get, field_put, truthy}
pub use Prim.Native.Nat.{ℕ, zero, suc, ◌+◌, ◌-◌, ◌*◌, ◌/◌, ◌%◌, ◌^◌, ◌≤◌, ◌<◌, min, max}
pub use Prim.Native.String.{String}
pub use mathlib.Core.Path.{◌≡◌, refl, sym, ap, ◌∙◌, subst}
pub use mathlib.Core.Logic.{◌≢◌, ◌↔◌, ◌⊎◌, inl, inr}
pub use mathlib.Core.Bool.{Bool, true, false, ◌&&◌, ◌||◌, not}
pub use mathlib.Core.Option.{Option, none, some}
pub use mathlib.Core.List.{List, [], ◌∷◌, ◌++◌, map, reverse, append-nil}
pub use native.Mathlib.Omega.{arith}
pub use text.Mathlib.Text.{◌==◌ as str_eq, starts_with}
pub use text.Mathlib.TextEquality.{eq_iff}
pub use text.Mathlib.TextPositions.{eq_refl}
