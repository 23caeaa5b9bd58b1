-- ===== src/IpcCall/Parse.antt =====
-- How the macro for IPC calls reads its input (ctru-rt-macros/src/ipc_call.rs): the implementations
-- of `Parse`, over a stream of syn. An expression is the word that it gives.
use ctru_rt.Base.{ℕ, List, Option, some}
use ctru_rt.Syn.{◌>>=◌, ParseStream, underscore, colon, comma}
use ctru_rt.IpcCall.{IpcCall, TranslateParameter, translate_parameter}

module _ {Input Ident Ty : Type 0} (s : ParseStream Input Ident ℕ Ty) where
  -- `Parameter::parse`
  unfoldable pub parse_parameter : Input → Option (ℕ × Input)
  parse_parameter input = s.parse_expr input

  -- `TranslateParameter::parse`
  unfoldable pub parse_translate_parameter : Input → Option (TranslateParameter × Input)
  parse_translate_parameter input =
      s.parse_token underscore input >>= λ (rest : Input). some (translate_parameter, rest)

  -- `IpcCall::parse`; the id is a u16.
  unfoldable pub parse : Input → Option (IpcCall × Input)
  unfolding parse_parameter parse_translate_parameter
  parse input = s.parse_lit input >>= λ (p : ℕ × Input). s.base10_parse 16 p.0 >>= λ (id : ℕ).
      s.parse_token colon p.1 >>= λ (rest : Input). s.bracketed rest >>= λ (q : Input × Input).
      s.parse_terminated parse_parameter q.0 >>= λ (params : List ℕ).
      s.parse_token comma q.1 >>= λ (more : Input). s.bracketed more >>= λ (r : Input × Input).
      s.parse_terminated parse_translate_parameter r.0
      >>= λ (translate_params : List TranslateParameter).
          some (record { id = id; params = params; translate_params = translate_params }, r.1)
