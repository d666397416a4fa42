-- ===== src/Common.antt =====
-- The names that the other modules share: the libraries' and those of two children.
mod Tests
mod Lists
unfoldable pub use Tests.{bytes_eq}
pub use Tests.{
  ltb, leb, ◌==◌, if◌then◌else◌, lt→ltb, le→leb, bytes_eq→eq, bytes_eq_refl, Bool-cases,
  Option-cases,
}
pub use Lists.*
pub use Prim.Native.Nat.{ℕ, zero, suc, ◌+◌, ◌-◌, ◌*◌, ◌/◌, ◌%◌, ◌^◌, ◌≤◌, ◌<◌, min}
pub use mathlib.Core.Path.{◌≡◌, refl, sym, ap, ◌∙◌, subst}
pub use mathlib.Core.Logic.{◌≢◌, ◌↔◌, ◌⊎◌, inl, inr}
pub use mathlib.Core.Bool.{Bool, true, false, not, ◌&&◌, ◌||◌}
pub use mathlib.Core.Option.{Option, none, some}
pub use mathlib.Core.List.{List, [], ◌∷◌, ◌++◌, append-nil, append_assoc}
pub use native.Mathlib.Omega.{arith}
