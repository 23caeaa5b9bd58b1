-- ===== src/EnumCast.antt =====
-- The derive macro `EnumCast` (ctru-rt-macros/src/enum_cast.rs): the value that it gives each
-- variant, and the two conversions that it emits. A variant is any type's value.
pub mod Laws
pub mod ValueType
pub mod Parse
pub mod Emit
use ctru_rt.Base.{ℕ, ◌+◌, List, [], ◌∷◌, Option, none, some, ◌==◌, if◌then◌else◌}
use ctru_rt.Base.{Result, okay, fail}

module _ {A : Type 0} where
  -- What the table of the macro should be, and what EnumCast/Parse shows that it is: the
  -- discriminants that Rust itself gives the variants of an enum. The first variant has 0 and each
  -- other one more than the one before it, where nothing else is written.
  unfoldable pub number_variants : ℕ → List (A × Option ℕ) → List (A × ℕ)
  number_variants next_value [] = []
  number_variants next_value ((variant, none) ∷ rest) =
      (variant, next_value) ∷ number_variants (next_value + 1) rest
  number_variants next_value ((variant, some value) ∷ rest) =
      (variant, value) ∷ number_variants (value + 1) rest

  -- `emit_from_value`: the arms are tried in order.
  unfoldable pub match_value : List (A × ℕ) → ℕ → Result A ℕ
  match_value [] value = fail value
  match_value ((variant, n) ∷ arms) value =
      if value == n then okay variant else match_value arms value
