-- ===== src/Codes/Debug.antt =====
-- The `Debug` output of `ResultCode` and `ErrorCode` (src/result.rs): the fields that it lists.
use ctru_rt.Base.{
  ℕ, ◌%◌, ◌^◌, ◌≡◌, ◌≢◌, arith, Bool, List, [], ◌∷◌, if◌then◌else◌, Result, okay, fail,
}
use ctru_rt.Codes.Level.{Level}
use ctru_rt.Codes.Summary.{Summary}
use ctru_rt.Codes.Origin.{Module}
use ctru_rt.Codes.Description
use ctru_rt.Codes.Description.{CommonDescription}
use ctru_rt.Codes.ResultCode
use ctru_rt.Codes.ErrorCode
use ctru_rt.Codes.Packing.{fields-new}

-- A field is printed as a known value, as an unknown number, or as a `Result`.
pub data Shown (A : Type 0) : Type 0 where
  known : A → Shown A
  unknown : ℕ → Shown A
  whole : Result A ℕ → Shown A

-- `result_value_dbg_fmt!(@ match …)`
unfoldable pub match_field : {A : Type 0} → Result A ℕ → Shown A
match_field (okay a) = known a
match_field (fail n) = unknown n

pub data Field : Type 0 where
  value_field : ℕ → Field
  level_field : Shown Level → Field
  module_field : Shown Module → Field
  summary_field : Shown Summary → Field
  description_field : Shown CommonDescription → Field

-- `fmt`, over what `is_err` says of the value.
unfoldable pub debug_fields : Bool → ℕ → List Field
unfolding match_field
debug_fields is_err value =
    if is_err
    then value_field value
      ∷ level_field (match_field (ResultCode.level value))
      ∷ module_field (match_field (ResultCode.module_of value))
      ∷ summary_field (match_field (ResultCode.summary value))
      ∷ description_field (match_field (ResultCode.description value))
      ∷ []
    else value_field value ∷ level_field (whole (ResultCode.level value)) ∷ []

unfoldable pub debug_result_code : ℕ → List Field
debug_result_code value = debug_fields (ResultCode.is_err value) value

unfoldable pub debug_error_code : ℕ → List Field
debug_error_code value = debug_fields (ErrorCode.is_err value) value

-- The output for an error that was packed names the level, the module and the summary that it was
-- packed from, and the description where its ten bits are a known one; a result code and an error
-- code of the same value print the same fields.
pub debug-new :
    (l : Level) (s : Summary) (m : Module) (d : ℕ)
    → ResultCode.new l s m d ≢ 0
    → (debug_result_code (ResultCode.new l s m d)
        ≡ value_field (ResultCode.new l s m d)
          ∷ level_field (known l)
          ∷ module_field (known m)
          ∷ summary_field (known s)
          ∷ description_field (match_field (Description.from_value (d % 2 ^ 10)))
          ∷ [])
      × (debug_error_code (ResultCode.new l s m d) ≡ debug_result_code (ResultCode.new l s m d))
unfolding debug_result_code debug_error_code debug_fields match_field ResultCode.is_err
    ErrorCode.is_err
debug-new l s m d ne =
    let (level, summary, origin, description) = fields-new l s m d in
    (ground (arith, level, summary, origin, description), ground arith)
