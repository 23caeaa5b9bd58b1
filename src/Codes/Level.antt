-- ===== src/Codes/Level.antt =====
-- `Level` of src/result.rs with the conversions that `derive(EnumCast)` gives it (`u32` values).
use ctru_rt.Base.{ℕ, ◌<◌, List, [], ◌∷◌, Option, none, some, ◌≡◌, refl, arith, Result, okay}
use ctru_rt.EnumCast.{number_variants, match_value}
use ctru_rt.EnumCast.Laws.{Agrees, match_value_sound}

pub data Level : Type 0 where
  success info status temporary permanent usage reinitialize reset fatal : Level

-- The variants in their order, with the discriminants that are written.
abbrev pub variants : List (Level × Option ℕ)
variants =
    (success, none)
    ∷ (info, none)
    ∷ (status, some 25)
    ∷ (temporary, none)
    ∷ (permanent, none)
    ∷ (usage, none)
    ∷ (reinitialize, none)
    ∷ (reset, none)
    ∷ (fatal, none)
    ∷ []

unfoldable pub to_value : Level → ℕ
to_value success = 0
to_value info = 1
to_value status = 25
to_value temporary = 26
to_value permanent = 27
to_value usage = 28
to_value reinitialize = 29
to_value reset = 30
to_value fatal = 31

unfoldable pub from_value : ℕ → Result Level ℕ
unfolding number_variants match_value
from_value value = match_value (number_variants 0 variants) value

variants-Agrees : Agrees to_value (number_variants 0 variants)
unfolding to_value number_variants
variants-Agrees = ground arith

-- The emitted conversions are inverse to one another.
pub from_value-to_value : (x : Level) → from_value (to_value x) ≡ okay x
unfolding from_value to_value
from_value-to_value success = refl
from_value-to_value _ = refl

pub to_value-from_value : (v : ℕ) (x : Level) → from_value v ≡ okay x → to_value x ≡ v
unfolding from_value
to_value-from_value v x e =
    match_value_sound to_value (number_variants 0 variants) v variants-Agrees e

pub to_value-lt : (x : Level) → to_value x < 32
unfolding to_value
to_value-lt success = omega arith
to_value-lt _ = omega arith
