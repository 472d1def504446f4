-- ===== src/Prelude.antt =====
-- The names that the other modules share: the libraries', passed on, and those of the children.
pub mod Tests
pub mod Lists
pub mod Maps
pub mod Loop
pub mod Int
pub mod Remainders
pub use Tests.*
pub use Lists.*
unfoldable pub use Maps.{lookup, assign, emplace, erase}
pub use Maps.{lookup-assign, lookup-erase, lookup-emplace}
pub use Prim.Native.Nat.{ℕ, zero, suc, ◌+◌, ◌-◌, ◌*◌, ◌/◌, ◌%◌, ◌^◌, ◌≤◌, ◌<◌, min}
pub use Prim.Native.String.{String}
pub use mathlib.Core.Path.{◌≡◌, refl, sym, ap, ◌∙◌}
pub use mathlib.Core.Logic.{◌⊎◌, inl, inr, ◌↔◌, ◌≢◌}
pub use mathlib.Core.Bool.{Bool, true, false, not, ◌&&◌, ◌||◌}
pub use mathlib.Core.Option.{Option, none, some}
pub use mathlib.Core.List.{
  List, [], ◌∷◌, ◌++◌, map, reverse, reverse-cons, append_assoc, append-nil,
}
pub use native.Mathlib.Omega.{arith}

-- Lemmas through which `omega` reads the Boolean tests.
pub ruleset tests = (arith, ltb→lt, lt→ltb, leb→le)
