-- ===== src/Base.antt =====
-- Names shared by every module: the libraries', passed on, and the helpers of the child modules.
pub mod Tests
pub mod Lists
pub mod Texts
pub mod State
pub mod Int
pub mod Fallible
pub mod Maps
pub use Tests.{
  ltb, leb, ◌==◌, if◌then◌else◌, is_some, Bool-cases, Option-cases, ==_iff, ltb→lt, leb→le,
  ltb-false, leb-false,
}
pub use Lists.{length, take, drop, get_elem?, count_if, select, update_where, sum}
pub use Texts.{Text, text_eq, text_eq_iff, text_eq_refl, codes}
pub use State.{
  Result, ok, err, Exec, ◌>>=◌, ◌>>◌, pure, throw, lift, gets, modify, transaction, Result-cases,
}
pub use Prim.Native.Nat.{ℕ, zero, suc, ◌+◌, ◌-◌, ◌*◌, ◌/◌, ◌%◌, ◌^◌, ◌≤◌, ◌<◌, min, max}
pub use mathlib.Core.Path.{◌≡◌, refl, sym, ap, ◌∙◌}
pub use mathlib.Core.Logic.{◌≢◌, ◌↔◌, ◌⊎◌, inl, inr}
pub use mathlib.Core.Bool.{Bool, true, false, not, ◌&&◌, ◌||◌}
pub use mathlib.Core.Option.{Option, none, some}
pub use mathlib.Core.List.{List, [], ◌∷◌, ◌++◌, map, reverse}
pub use native.Mathlib.Omega.{arith}
