-- ===== src/Base.antt =====
-- Names that every part of the development shares: those of the libraries, passed on, and the
-- children's tests, arrays, bit laws and signed numbers.
pub mod Tests
pub mod Arrays
pub mod Bits
pub mod Masks
pub mod Count
pub mod Signed
pub mod Search
pub mod Xor
pub use Tests.*
pub use Arrays.*
pub use Signed.*
pub use Prim.Native.Nat.{
  ℕ, zero, suc, ◌+◌, ◌-◌, ◌*◌, ◌/◌, ◌%◌, ◌^◌, ◌≤◌, ◌<◌, bit_and, bit_or, bit_xor, min,
}
pub use mathlib.Core.Path.{◌≡◌, refl, sym, ap, ap₂, subst, ◌∙◌}
pub use mathlib.Core.Logic.{◌≢◌, ◌↔◌, ◌⊎◌, inl, inr}
pub use mathlib.Core.Bool.{Bool, true, false, not, ◌&&◌, ◌||◌}
pub use mathlib.Core.Option.{Option, none, some}
pub use mathlib.Core.List.{List, [], ◌∷◌, ◌++◌, map, append-nil, append_assoc}
pub use native.Mathlib.Omega.{arith}
