-- ===== src/Ipc/Values.antt =====
-- `IpcParameter` and `IpcResult` of src/ipc/mod.rs: the values of a request and of its reply as
-- words, and the reply in its two states (src/ipc/reply.rs).
use ctru_rt.Base.{ℕ, Bool, List, Outcome, ◌>>=◌, ok}
use ctru_rt.Ipc.Reply
use ctru_rt.Ipc.Reply.{CommandBufferReader}
use ctru_rt.Ipc.Request.{State, normal, translate, IpcRequest, parameter}
use ctru_rt.Ipc.Translate.{decode_owned_handle, decode_owned_handles}

pub record IpcParameter (A : Type 0) : Type 0 where
  pub encode : A → ℕ

pub record IpcResult (A : Type 0) : Type 0 where
  pub decode : ℕ → A

-- A result code as a type of its own.
pub record ResultCode : Type 0 where
  pub value : ℕ

-- `u32`, and `usize`, which has 32 bits too.
instance abbrev pub word_parameter : IpcParameter ℕ
word_parameter = record { encode = λ word. word }

instance abbrev pub word_result : IpcResult ℕ
word_result = record { decode = λ result. result }

instance abbrev pub code_parameter : IpcParameter ResultCode
code_parameter = record { encode = λ code. code.value }

instance abbrev pub code_result : IpcResult ResultCode
code_result = record { decode = λ result. record { value = result } }

-- `IpcRequest::parameter`, of any type of parameter.
unfoldable pub parameter_of :
    {A : Type 0} ⦃p : IpcParameter A⦄ → A → IpcRequest normal → Outcome (IpcRequest normal)
parameter_of ⦃p⦄ value r = parameter (p.encode value) r

-- `TranslateResult`: what `decode` does to the reader.
abbrev pub TranslateResult : Type 0 → Type 0
TranslateResult A = CommandBufferReader → Outcome (A × CommandBufferReader)

pub record IpcReply (state : State) : Type 0 where
  pub cmdbuf : CommandBufferReader

unfoldable pub read_result :
    {R : Type 0} ⦃d : IpcResult R⦄ → IpcReply normal → Outcome (R × IpcReply normal)
read_result ⦃d⦄ r = Reply.read r.cmdbuf >>= λ (p : ℕ × CommandBufferReader).
    ok (d.decode p.0, record { cmdbuf = p.1 })

unfoldable pub finish_results : IpcReply normal → IpcReply translate
finish_results r = record { cmdbuf = r.cmdbuf }

unfoldable pub read_translate_result :
    {R : Type 0} → TranslateResult R → IpcReply translate → Outcome (R × IpcReply translate)
read_translate_result {R} decode r =
    decode r.cmdbuf >>= λ (p : R × CommandBufferReader). ok (p.0, record { cmdbuf = p.1 })

unfoldable pub read_handle : Bool → IpcReply translate → Outcome (ℕ × IpcReply translate)
unfolding read_translate_result
read_handle debug r = read_translate_result (decode_owned_handle debug) r

unfoldable pub read_handles : Bool → ℕ → IpcReply translate → Outcome (List ℕ × IpcReply translate)
unfolding read_translate_result
read_handles debug n r = read_translate_result (decode_owned_handles debug n) r
