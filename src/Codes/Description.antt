-- ===== src/Codes/Description.antt =====
-- `CommonDescription` of src/result.rs with the conversions that `derive(EnumCast)` gives it (`u32`
-- values).
use ctru_rt.Base.{ℕ, ◌<◌, List, [], ◌∷◌, Option, some, ◌≡◌, refl, arith, Result, okay}
use ctru_rt.EnumCast.{number_variants, match_value}
use ctru_rt.EnumCast.Laws.{Agrees, match_value_sound}

pub data CommonDescription : Type 0 where
  success invalid_section too_large not_authorized already_done invalid_size : CommonDescription
  invalid_enum_value invalid_combination no_data busy misaligned_address misaligned_size :
      CommonDescription
  out_of_memory not_implemented invalid_address invalid_pointer invalid_handle not_initialized :
      CommonDescription
  already_initialized not_found cancel_requested already_exists out_of_range timeout :
      CommonDescription
  invalid_result_value : CommonDescription

-- The variants in their order, with the discriminants that are written.
abbrev pub variants : List (CommonDescription × Option ℕ)
variants =
    (success, some 0)
    ∷ (invalid_section, some 1000)
    ∷ (too_large, some 1001)
    ∷ (not_authorized, some 1002)
    ∷ (already_done, some 1003)
    ∷ (invalid_size, some 1004)
    ∷ (invalid_enum_value, some 1005)
    ∷ (invalid_combination, some 1006)
    ∷ (no_data, some 1007)
    ∷ (busy, some 1008)
    ∷ (misaligned_address, some 1009)
    ∷ (misaligned_size, some 1010)
    ∷ (out_of_memory, some 1011)
    ∷ (not_implemented, some 1012)
    ∷ (invalid_address, some 1013)
    ∷ (invalid_pointer, some 1014)
    ∷ (invalid_handle, some 1015)
    ∷ (not_initialized, some 1016)
    ∷ (already_initialized, some 1017)
    ∷ (not_found, some 1018)
    ∷ (cancel_requested, some 1019)
    ∷ (already_exists, some 1020)
    ∷ (out_of_range, some 1021)
    ∷ (timeout, some 1022)
    ∷ (invalid_result_value, some 1023)
    ∷ []

unfoldable pub to_value : CommonDescription → ℕ
to_value success = 0
to_value invalid_section = 1000
to_value too_large = 1001
to_value not_authorized = 1002
to_value already_done = 1003
to_value invalid_size = 1004
to_value invalid_enum_value = 1005
to_value invalid_combination = 1006
to_value no_data = 1007
to_value busy = 1008
to_value misaligned_address = 1009
to_value misaligned_size = 1010
to_value out_of_memory = 1011
to_value not_implemented = 1012
to_value invalid_address = 1013
to_value invalid_pointer = 1014
to_value invalid_handle = 1015
to_value not_initialized = 1016
to_value already_initialized = 1017
to_value not_found = 1018
to_value cancel_requested = 1019
to_value already_exists = 1020
to_value out_of_range = 1021
to_value timeout = 1022
to_value invalid_result_value = 1023

unfoldable pub from_value : ℕ → Result CommonDescription ℕ
unfolding number_variants match_value
from_value value = match_value (number_variants 0 variants) value

variants-Agrees : Agrees to_value (number_variants 0 variants)
unfolding to_value number_variants
variants-Agrees = ground arith

-- The emitted conversions are inverse to one another.
pub from_value-to_value : (x : CommonDescription) → from_value (to_value x) ≡ okay x
unfolding from_value to_value
from_value-to_value success = refl
from_value-to_value _ = refl

pub to_value-from_value : (v : ℕ) (x : CommonDescription) → from_value v ≡ okay x → to_value x ≡ v
unfolding from_value
to_value-from_value v x e =
    match_value_sound to_value (number_variants 0 variants) v variants-Agrees e

pub to_value-lt : (x : CommonDescription) → to_value x < 1024
unfolding to_value
to_value-lt success = omega arith
to_value-lt _ = omega arith
