-- ===== src/Prelude.antt =====
-- The names that the other modules share: the libraries', passed on, and those of two children.
mod Tests
mod Dicts
pub use Tests.*
unfoldable pub use Tests.{contains, contains_nat}
unfoldable pub use Dicts.{dict_get, dict_set, dict_delete, dict_keys, dict_merge}
pub use Dicts.{
  Dict, HasUniqueKeys, dict_get_or, dict_has, dict_size, dict_get-dict_set, dict_get-dict_delete,
  dict_get-dict_merge, dict_set-HasUniqueKeys, Entries-dict_get, dict_get-All, dict_laws,
}
pub use Prim.Native.Nat.{ℕ, zero, suc, ◌+◌, ◌≤◌, ◌<◌}
pub use Prim.Native.String.{String}
pub use mathlib.Core.Path.{◌≡◌, refl, sym, ap, subst, ◌∙◌}
pub use mathlib.Core.Logic.{◌≢◌, ◌↔◌, ◌⊎◌, inl, inr}
pub use mathlib.Core.Bool.{Bool, true, false, not, ◌&&◌, ◌||◌}
pub use mathlib.Core.Option.{Option, none, some}
pub use mathlib.Core.List.{List, [], ◌∷◌, ◌++◌, append-nil, append_assoc}
pub use native.Mathlib.Omega.{arith}
pub use text.Mathlib.Text.{◌==◌, starts_with}
pub use text.Mathlib.TextEquality.{eq_iff, starts_with_iff}
pub use text.Mathlib.TextPositions.{eq_refl}
