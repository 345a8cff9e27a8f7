-- ===== src/Prelude.antt =====
-- Names that every module shares: the library's, Boolean tests on the native numbers, and
-- the operations on lists, options and texts that Python gives the program.
mod Tests
mod Lists
mod Text
mod Orders
unfoldable pub use Tests.*
unfoldable pub use Lists.*
unfoldable pub use Text.*
unfoldable pub use Orders.*
pub use Prim.Native.Nat.{ℕ, zero, suc, ◌+◌, ◌-◌, ◌*◌, ◌/◌, ◌%◌, ◌^◌, ◌≤◌, ◌<◌}
pub use Prim.Native.String.{String}
pub use Prim.Native.Char.{Char, code}
pub use mathlib.Core.Path.{◌≡◌, refl, sym, ap, ◌∙◌, subst}
pub use mathlib.Core.Logic.{◌≢◌, ◌⊎◌, inl, inr, ◌↔◌}
pub use mathlib.Core.Bool.{Bool, true, false, ◌&&◌, ◌||◌, not}
pub use mathlib.Core.Option.{Option, none, some}
pub use mathlib.Core.List.{List, [], ◌∷◌, foldl-append, append_assoc, append-nil}
unfoldable pub use mathlib.Core.List.{◌++◌, map, flatten, foldl}
pub use native.Mathlib.Omega.{arith}
pub use text.Mathlib.Text.{◌==◌, find?}
pub use text.Mathlib.TextLemmas.{
  nil-append, cons-append, append_assoc as text_assoc, append-nil as text-nil,
  append_cancel_left as text_cancel_left,
}
pub use text.Mathlib.TextEquality.{eq_iff}
pub use text.Mathlib.TextPositions.{eq_refl}
