-- ===== src/Codes/ResultCode.antt =====
-- `ResultCode` and the trait `ResultValue` of src/result.rs. A code is the u32 that it wraps.
use ctru_rt.Base.{ℕ, Bool, not, ◌==◌, if◌then◌else◌, bit_and, bit_or, ◌<<◌, ◌>>◌, u8}
use ctru_rt.Base.{Outcome, ok, err, Result, okay, fail, Option, none, some, panic}
use ctru_rt.Codes.Level
use ctru_rt.Codes.Level.{Level}
use ctru_rt.Codes.Summary
use ctru_rt.Codes.Summary.{Summary}
use ctru_rt.Codes.Origin
use ctru_rt.Codes.Origin.{Module}
use ctru_rt.Codes.Description
use ctru_rt.Codes.Description.{CommonDescription}

unfoldable pub new : Level → Summary → Module → ℕ → ℕ
new level summary module_id description =
    bit_or
      (bit_or (bit_or (Level.to_value level << 27) (Summary.to_value summary << 21))
        (Origin.to_value module_id << 10))
      (bit_and description 0x3ff)

abbrev pub success : ℕ
success = 0

-- `NonZeroU32::new`
abbrev pub non_zero : ℕ → Option ℕ
non_zero code = if code == 0 then none else some code

unfoldable pub into_result : ℕ → Outcome (Unit {0})
into_result code = elim (non_zero code) [ none ↦ ok tt | some ec ↦ err ec ]

unfoldable pub and : {T : Type 0} → ℕ → T → Outcome T
unfolding into_result
and code value = elim (into_result code) [ ok _ ↦ ok value | err e ↦ err e | panic ↦ panic ]

-- `ControlFlow`: `okay` continues, `fail` breaks with the residual.
unfoldable pub branch : ℕ → Result (Unit {0}) ℕ
branch code = elim (non_zero code) [ some ec ↦ fail ec | none ↦ okay tt ]

unfoldable pub from_output : Unit {0} → ℕ
from_output _ = success

unfoldable pub from_residual : ℕ → ℕ
from_residual ec = ec

-- The default methods of `ResultValue`, over the value of a code.
unfoldable pub is_err : ℕ → Bool
is_err value = not (value == 0)

unfoldable pub is_ok : ℕ → Bool
unfolding is_err
is_ok value = not (is_err value)

unfoldable pub level : ℕ → Result Level ℕ
level value = Level.from_value (bit_and (value >> 27) 0x1f)

unfoldable pub summary : ℕ → Result Summary ℕ
summary value = Summary.from_value (bit_and (value >> 21) 0x3f)

unfoldable pub module_of : ℕ → Result Module ℕ
module_of value = Origin.from_value (u8 (bit_and (value >> 10) 0xff))

unfoldable pub description : ℕ → Result CommonDescription ℕ
description value = Description.from_value (bit_and value 0x3ff)
