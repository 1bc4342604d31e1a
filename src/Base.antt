-- ===== src/Base.antt =====
-- The names that the other modules share: the libraries', passed on, and those of the children:
-- Boolean tests, lists over the native numbers, byte strings, results and association lists.
mod Tests
mod Lists
mod Text
mod Outcomes
mod Assoc
mod Decimal
mod Ints
mod Options
mod Prefix
pub use Tests.*
pub use Prefix.*
pub use Options.*
pub use Ints.*
pub use Lists.*
pub use Outcomes.{Result, ok, err, ◌>>=◌, bind-eq-ok, ok-injective, err_ne_ok}
pub use Text.{Bytes, text, str_eq_iff, str_eq_refl, str_eq_ne, is_upper}
unfoldable pub use Text.{str_eq, split_once, strip_prefix, lower}
unfoldable pub use Assoc.{lookup, insert, remove}
pub use Assoc.{lookup-insert, lookup-remove, insert-insert, remove-insert, remove_absent, map_laws}
unfoldable pub use Decimal.{decimal, digits_from}
pub use Decimal.{
  is_digit, some_digits, below, digits_from-decimal, decimal-injective, decimal-cons, All-decimal,
}
pub use Prim.Native.Nat.{ℕ, zero, suc, ◌+◌, ◌-◌, ◌*◌, ◌/◌, ◌%◌, ◌^◌, ◌≤◌, ◌<◌, min, max}
pub use Prim.Native.String.{String}
pub use mathlib.Core.Path.{◌≡◌, refl, sym, ap, subst, ◌∙◌, fun_ext}
pub use mathlib.Core.Logic.{◌≢◌, ◌↔◌, ◌⊎◌, inl, inr}
pub use mathlib.Core.Bool.{Bool, true, false, not, ◌&&◌, ◌||◌}
pub use mathlib.Core.Option.{Option, none, some}
pub use mathlib.Core.List.{List, [], ◌∷◌, ◌++◌, map, append-nil, append_assoc}
pub use native.Mathlib.Omega.{arith}
