-- ===== src/Codes/ErrorCode.antt =====
-- `ErrorCode` of src/result.rs, the non-zero codes, and the two constants.
use ctru_rt.Base.{ℕ, Bool, true, false, ◌==◌, if◌then◌else◌, Outcome, ok, panic}
use ctru_rt.Codes.Level
use ctru_rt.Codes.Level.{Level}
use ctru_rt.Codes.Summary
use ctru_rt.Codes.Summary.{Summary}
use ctru_rt.Codes.Origin
use ctru_rt.Codes.Origin.{Module}
use ctru_rt.Codes.Description
use ctru_rt.Codes.ResultCode

unfoldable pub new : Level → Summary → Module → ℕ → Outcome ℕ
new level summary module_id description =
    let result = ResultCode.new level summary module_id description in
    if result == ResultCode.success then panic else ok result

-- `impl ResultValue for ErrorCode`
unfoldable pub is_err : ℕ → Bool
is_err value = true

unfoldable pub is_ok : ℕ → Bool
is_ok value = false

-- The constants, as the words that `new` packs; `ErrorCode.new` would reject 0 at compile time.
unfoldable pub out_of_memory : ℕ
unfolding ResultCode.new Level.to_value Summary.to_value Origin.to_value Description.to_value
out_of_memory =
    ResultCode.new Level.fatal Summary.out_of_resource Module.application
      (Description.to_value Description.out_of_memory)

unfoldable pub not_authorized : ℕ
unfolding ResultCode.new Level.to_value Summary.to_value Origin.to_value Description.to_value
not_authorized =
    ResultCode.new Level.fatal Summary.internal Module.application
      (Description.to_value Description.not_authorized)
