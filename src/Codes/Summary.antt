-- ===== src/Codes/Summary.antt =====
-- `Summary` of src/result.rs with the conversions that `derive(EnumCast)` gives it (`u32` values).
use ctru_rt.Base.{ℕ, ◌<◌, List, [], ◌∷◌, Option, none, some, ◌≡◌, refl, arith, Result, okay}
use ctru_rt.EnumCast.{number_variants, match_value}
use ctru_rt.EnumCast.Laws.{Agrees, match_value_sound}

pub data Summary : Type 0 where
  success nop would_block out_of_resource not_found invalid_state not_supported : Summary
  invalid_argument wrong_argument canceled status_changed internal invalid_result_value : Summary

-- The variants in their order, with the discriminants that are written.
abbrev pub variants : List (Summary × Option ℕ)
variants =
    (success, none)
    ∷ (nop, none)
    ∷ (would_block, none)
    ∷ (out_of_resource, none)
    ∷ (not_found, none)
    ∷ (invalid_state, none)
    ∷ (not_supported, none)
    ∷ (invalid_argument, none)
    ∷ (wrong_argument, none)
    ∷ (canceled, none)
    ∷ (status_changed, none)
    ∷ (internal, none)
    ∷ (invalid_result_value, some 63)
    ∷ []

unfoldable pub to_value : Summary → ℕ
to_value success = 0
to_value nop = 1
to_value would_block = 2
to_value out_of_resource = 3
to_value not_found = 4
to_value invalid_state = 5
to_value not_supported = 6
to_value invalid_argument = 7
to_value wrong_argument = 8
to_value canceled = 9
to_value status_changed = 10
to_value internal = 11
to_value invalid_result_value = 63

unfoldable pub from_value : ℕ → Result Summary ℕ
unfolding number_variants match_value
from_value value = match_value (number_variants 0 variants) value

variants-Agrees : Agrees to_value (number_variants 0 variants)
unfolding to_value number_variants
variants-Agrees = ground arith

-- The emitted conversions are inverse to one another.
pub from_value-to_value : (x : Summary) → from_value (to_value x) ≡ okay x
unfolding from_value to_value
from_value-to_value success = refl
from_value-to_value _ = refl

pub to_value-from_value : (v : ℕ) (x : Summary) → from_value v ≡ okay x → to_value x ≡ v
unfolding from_value
to_value-from_value v x e =
    match_value_sound to_value (number_variants 0 variants) v variants-Agrees e

pub to_value-lt : (x : Summary) → to_value x < 64
unfolding to_value
to_value-lt success = omega arith
to_value-lt _ = omega arith
