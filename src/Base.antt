-- ===== src/Base.antt =====
-- The vocabulary that every module shares: the library's names, Boolean tests on the native
-- numbers, lists measured by native numbers, texts, signed integers and the effect monad.
pub mod Tests
pub mod Lists
pub mod Strings
pub mod Numerals
pub mod Int
pub mod Effects
pub use Tests.*
pub use Lists.*
unfoldable pub use Strings.{codes, is_ascii, text_eq}
pub use Strings.{Text, is_blank, text_eq_iff, text_apart, text_eq_refl}
pub use Int.{ℤ, pos, negsuc, pos_part, ltb_ℤ, leb_ℤ, suc_ℤ, slice_to}
pub use Effects.{
  Result, ok, err, Exec, pure, raise, lift, gets, modify, require, ◌>>=◌, ◌>>◌, bind_ok, bind_err,
  Result-cases,
}
pub use Prim.Native.Nat.{ℕ, zero, suc, ◌+◌, ◌-◌, ◌*◌, ◌/◌, ◌%◌, ◌^◌, ◌≤◌, ◌<◌, min, max}
pub use Prim.Native.String.{String}
pub use mathlib.Core.Path.{◌≡◌, refl, sym, ap, ◌∙◌}
pub use mathlib.Core.Logic.{◌≢◌, ◌↔◌, ◌⊎◌, inl, inr}
pub use mathlib.Core.Bool.{Bool, true, false, not, ◌&&◌, ◌||◌}
pub use mathlib.Core.Option.{Option, none, some}
pub use mathlib.Core.List.{List, [], ◌∷◌, ◌++◌, map}
pub use native.Mathlib.Omega.{arith}
pub use text.Mathlib.Text.{◌==◌ as str_eq}
pub use text.Mathlib.TextEquality.{eq_iff}
pub use text.Mathlib.TextPositions.{eq_refl}
