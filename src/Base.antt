-- ===== src/Base.antt =====
-- The names that every other module shares: the libraries', passed on, and those of the children.
mod Tests
mod Lists
mod Classes
pub mod Dict
pub mod Words
mod Utf8
mod Blank
mod Pairs
pub mod Result
pub mod Text
pub mod Chain
pub mod Trimming
pub mod Bits
pub use Tests.*
pub use Lists.*
unfoldable pub use Utf8.{is_utf8, from_utf8_lossy}
unfoldable pub use Blank.{is_blank}
unfoldable pub use Classes.{bytes_beq}
pub use Pairs.{pair_eq}
pub use Classes.{Eq, Bytes, codes, bytes_beq_iff, bytes_eq, beq_self, beq_ne}
pub use Prim.Native.Nat.{ℕ, zero, suc, ◌+◌, ◌-◌, ◌*◌, ◌/◌, ◌%◌, ◌^◌, ◌≤◌, ◌<◌, min, max}
pub use mathlib.Core.Path.{◌≡◌, refl, sym, ap, ap₂, subst, ◌∙◌}
pub use mathlib.Core.Logic.{◌≢◌, ◌↔◌, ◌⊎◌, inl, inr}
pub use mathlib.Core.Bool.{Bool, true, false, not, ◌&&◌, ◌||◌}
pub use mathlib.Core.Option.{Option, none, some}
pub use mathlib.Core.List.{List, [], ◌∷◌, ◌++◌, map, append-nil, append_assoc}
pub use native.Mathlib.Omega.{arith}
unfoldable pub use native.Mathlib.Decide.{dec_lt, dec_le, ℕ_discrete}
