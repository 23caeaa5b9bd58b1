-- ===== src/Errf.antt =====
-- src/ports/errf.rs: the report of a fatal error, as the words that are sent to the error port. The
-- title ids stay 0, and so do the revisions.
pub mod Message
use ctru_rt.Base.{
  ℕ, ◌+◌, ◌*◌, ◌-◌, min, List, [], ◌∷◌, ◌++◌, length, take, drop, replicate, from_le_bytes, ◌/◌,
  ◌%◌, ◌^◌, u32, Outcome, ok, err, panic, Result,
}
use ctru_rt.Machine.{Machine, Sys, ◌>>=◌}
use ctru_rt.Svc.Calls.{connect_to_port, get_process_id}
use ctru_rt.Codes.ResultCode
use ctru_rt.Os.Handle
use ctru_rt.Ipc.Client.{ask, no_reply}
use ctru_rt.Ipc.Request.{command, parameters}

pub data ErrorType : Type 0 where
  generic system_memory_damaged card_removed exception failure logged : ErrorType

unfoldable pub error_type_value : ErrorType → ℕ
error_type_value generic = 0
error_type_value system_memory_damaged = 1
error_type_value card_removed = 2
error_type_value exception = 3
error_type_value failure = 4
error_type_value logged = 5

pub data ExceptionType : Type 0 where
  prefetch_abort data_abort undefined vfp : ExceptionType

unfoldable pub exception_type_value : ExceptionType → ℕ
exception_type_value prefetch_abort = 0
exception_type_value data_abort = 1
exception_type_value undefined = 2
exception_type_value vfp = 3

pub record ErrorInfo : Type 0 where
  pub type_ : ErrorType
  pub revision_high : ℕ
  pub revision_low : ℕ
  pub result_code : ℕ
  pub pc_addr : ℕ
  pub process_id : ℕ
  pub title_id : ℕ
  pub application_title_id : ℕ
  pub failure_message : List ℕ

unfoldable pub zeroed : ErrorInfo
zeroed = record {
  type_ = generic;
  revision_high = 0;
  revision_low = 0;
  result_code = ResultCode.success;
  pc_addr = 0;
  process_id = 0;
  title_id = 0;
  application_title_id = 0;
  failure_message = replicate 0x60 0;
}

-- The bytes in memory as words.
unfoldable pub words_from : List ℕ → List ℕ
words_from (b0 ∷ b1 ∷ b2 ∷ b3 ∷ bytes) = from_le_bytes b0 b1 b2 b3 ∷ words_from bytes
words_from _ = []

-- `repr(C, align(4))`: one byte of padding stands behind the revisions, and `padding` is what it
-- holds.
unfoldable pub as_words : ℕ → ErrorInfo → List ℕ
unfolding words_from
as_words padding info =
    from_le_bytes (error_type_value info.type_) info.revision_high info.revision_low padding
    ∷ info.result_code
    ∷ info.pc_addr
    ∷ info.process_id
    ∷ info.title_id % 2 ^ 32
    ∷ info.title_id / 2 ^ 32
    ∷ info.application_title_id % 2 ^ 32
    ∷ info.application_title_id / 2 ^ 32
    ∷ words_from info.failure_message

unfoldable pub message_from : List ℕ → List ℕ
message_from message =
    let size = min (length message) (0x60 - 1) in take size message ++ drop size (replicate 0x60 0)

module _ {W : Type 0} (m : Machine W) where
  -- `unwrap_or(0)`
  unfoldable pub current_process_id : Sys W ℕ
  current_process_id w =
      let (r, w') = get_process_id m Handle.active_process w in
      elim r [ ok id ↦ (ok id, w') | err e ↦ (ok 0, w') | panic ↦ (panic, w') ]

  -- The return address is that of the caller.
  unfoldable pub from_result_code : ℕ → ℕ → Sys W ErrorInfo
  unfolding zeroed
  from_result_code returnaddress result_code = current_process_id >>= λ (process_id : ℕ) (w : W). (
    ok (record zeroed {
      type_ = generic;
      result_code = result_code;
      pc_addr = returnaddress;
      process_id = process_id;
    }),
    w,
  )

  unfoldable pub from_result_code_with_message : ℕ → ℕ → List ℕ → Sys W ErrorInfo
  unfolding zeroed message_from
  from_result_code_with_message returnaddress result_code message =
      current_process_id >>= λ (process_id : ℕ) (w : W). (
        ok (record zeroed {
          type_ = failure;
          result_code = result_code;
          pc_addr = returnaddress;
          process_id = process_id;
          failure_message = message_from message;
        }),
        w,
      )

  -- "err:f" and a zero byte.
  unfoldable pub init : Sys W ℕ
  init = connect_to_port m (101 ∷ 114 ∷ 114 ∷ 58 ∷ 102 ∷ 0 ∷ [])

  unfoldable pub throw : ℕ → ℕ → ErrorInfo → Sys W (Unit {0})
  throw port padding error =
      ask m port (λ buf. parameters (as_words padding error) (command buf 0x1)) >>= no_reply
