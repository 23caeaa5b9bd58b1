-- ===== src/Tests/Macros.antt =====
-- The two macros, reading from a stream of tokens, and the derived conversions.
use ctru_rt.Base.{
  ℕ, ◌^◌, ◌<◌, ◌≤◌, ◌≡◌, ◌⊎◌, arith, List, [], ◌∷◌, Option, none, some, ◌↔◌, ℕ_discrete, map, okay,
}
use ctru_rt.Machine.{Register, unused, word}
use ctru_rt.Syn.{underscore, arrow, colon, comma}
use ctru_rt.SvcSpec.{OutputType, word_type, handle_type, multiple, unused_spec, name}
use ctru_rt.SvcSpec.Parse
use ctru_rt.SvcSpec.Parse.{SvcCall}
use ctru_rt.SvcSpec.RoundTrip.{parse-put_svc}
use ctru_rt.SvcSpec.Refines.{one, no_output}
use ctru_rt.SvcSpec.Expand.{Runs, expansion_refines}
use ctru_rt.Svc.Calls.{svc_unit, svc_word, svc_handle}
use ctru_rt.Tests.{kernel}
use ctru_rt.EnumCast.{number_variants, match_value}
use ctru_rt.EnumCast.Emit.{Distinct, number_variants-Distinct, match_variant, conversions_inverse}
use ctru_rt.IpcCall.{IpcCall, translate_parameter}
use ctru_rt.IpcCall.Parse as IpcParse
use ctru_rt.IpcCall.RoundTrip.{parse-put_ipc}
use ctru_rt.Tests.Tokens.{
  Trees, done, then_, type_, token, lit, ident, expr, tuple, parens, brackets, stream, written,
}

-- `0x22: (_, r) -> (u32, OwnedHandle)`
abbrev svc_call : SvcCall
svc_call = record {
  svc_num = 0x22;
  input = unused_spec ∷ name (word 7) ∷ [];
  output = multiple (word_type ∷ handle_type ∷ []);
}

abbrev svc_tokens : Trees
svc_tokens = then_ (lit 0x22) (
    then_ (token colon) (
      then_ (parens (then_ (token underscore) (then_ (token comma) (then_ (ident (word 7)) done))))
        (then_ (token arrow) (then_ (tuple (word_type ∷ handle_type ∷ [])) done))))

abbrev svc_number : ℕ
svc_number = 0x22

parse-put_svc_example :
    (svc_number < 2 ^ 8) × (Parse.parse stream svc_tokens ≡ some (svc_call, done))
    ⊎ (2 ^ 8 ≤ svc_number) × (Parse.parse stream svc_tokens ≡ none)
parse-put_svc_example = parse-put_svc stream written svc_call done tt

-- `0x5: [1, 2], [_]`
abbrev ipc_call : IpcCall
ipc_call = record { id = 5; params = 1 ∷ 2 ∷ []; translate_params = translate_parameter ∷ [] }

abbrev ipc_tokens : Trees
ipc_tokens = then_ (lit 5) (
    then_ (token colon) (
      then_ (brackets (then_ (expr 1) (then_ (token comma) (then_ (expr 2) done))))
        (then_ (token comma) (then_ (brackets (then_ (token underscore) done)) done))))

abbrev ipc_number : ℕ
ipc_number = 5

parse-put_ipc_example :
    (ipc_number < 2 ^ 16) × (IpcParse.parse stream ipc_tokens ≡ some (ipc_call, done))
    ⊎ (2 ^ 16 ≤ ipc_number) × (IpcParse.parse stream ipc_tokens ≡ none)
parse-put_ipc_example = parse-put_ipc stream written ipc_call done

-- `0x1f: (x, _, y)`, with no output, a word and a handle.
abbrev arguments : List Register
arguments = word 1 ∷ unused ∷ word 2 ∷ []

abbrev call_tokens : Trees → Trees
call_tokens output = then_ (lit 0x1f) (
    then_ (token colon) (
      then_
        (parens (
          then_ (ident (word 1)) (
            then_ (token comma)
              (then_ (token underscore) (then_ (token comma) (then_ (ident (word 2)) done))))))
        output))

abbrev returns : OutputType → Trees
returns t = call_tokens (then_ (token arrow) (then_ (type_ t) done))

expansion_refines_example :
    Runs stream kernel
      (call_tokens done)
      []
      (no_output (svc_unit kernel 0x1f arguments []).0, (svc_unit kernel 0x1f arguments []).1)
    × Runs stream kernel
        (returns word_type)
        []
        (one (svc_word kernel 0x1f arguments []).0, (svc_word kernel 0x1f arguments []).1)
    × Runs stream kernel
        (returns handle_type)
        []
        (one (svc_handle kernel 0x1f arguments []).0, (svc_handle kernel 0x1f arguments []).1)
expansion_refines_example =
    expansion_refines stream written kernel 0x1f arguments [] (omega arith) tt

-- An enum of three variants, of which the second has a literal.
abbrev numbered : List (ℕ × Option ℕ)
numbered = (10, none) ∷ (11, some 5) ∷ (12, none) ∷ []

different : Distinct (map (λ (p : ℕ × Option ℕ). p.0) numbered)
different = ground arith

conversions_inverse_example :
    (match_value (number_variants 0 numbered) 6 ≡ okay 12)
    ↔ (match_variant ℕ_discrete (number_variants 0 numbered) 12 ≡ some 6)
conversions_inverse_example =
    conversions_inverse ℕ_discrete numbered 12 6 different
      (number_variants-Distinct numbered 0 (omega arith, tt))
