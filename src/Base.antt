-- ===== src/Base.antt =====
-- The names that the other modules share: the libraries', passed on, and those of the children.
mod Tests
mod Lists
pub mod Dict
pub mod Int
pub mod Text
pub mod Split
pub mod Decimal
pub mod Base64
pub use Tests.{
  ltb, leb, if◌then◌else◌, Eq, ◌==◌, ◌/=◌, Str, nat_eq, str_eq, ltb→lt, leb→le, eq_refl, eq_iff,
  Bool-cases, Option-cases, if_both,
}
unfoldable pub use Tests.{str_discrete}
pub use Lists.{
  codes, length, take, drop, get_or, All, In, All-keep, length-keep-le, length-take-le, All-take,
}
unfoldable pub use Lists.{keep, any, contains}
pub use Prim.Native.Nat.{ℕ, zero, suc, ◌+◌, ◌-◌, ◌*◌, ◌/◌, ◌%◌, ◌^◌, ◌≤◌, ◌<◌}
pub use Prim.Native.String.{String}
pub use mathlib.Core.Path.{◌≡◌, refl, sym, ap, ◌∙◌, fun_ext}
pub use mathlib.Core.Logic.{◌≢◌, ◌↔◌, ◌⊎◌, inl, inr}
pub use mathlib.Core.Bool.{Bool, true, false, not, ◌&&◌, ◌||◌}
pub use mathlib.Core.Option.{Option, none, some}
pub use mathlib.Core.List.{List, [], ◌∷◌, ◌++◌, map, append_assoc, append-nil, reverse}
pub use native.Mathlib.Omega.{arith}
unfoldable pub use native.Mathlib.Decide.{ℕ_discrete}
