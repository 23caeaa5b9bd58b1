-- ===== src/SvcSpec/Parse.antt =====
-- How the macro `svc!` reads its input (ctru-rt-macros/src/svc_spec.rs): the implementations of
-- `Parse`, over a stream of syn. An identifier is the register value of the local that it names.
use ctru_rt.Base.{ℕ, List, [], ◌∷◌, Bool, true, false, same_name, if◌then◌else◌, Option, none, some}
use ctru_rt.Machine.{Register}
use ctru_rt.Syn.{◌>>=◌, ParseStream, Attribute, underscore, arrow, colon, bang}
use ctru_rt.SvcSpec.{
  InputParameterSpec, unused_spec, name, split, OutputSpec, no_return, unit, single, multiple,
  OutputType,
}

-- `"split"`
abbrev pub split_name : List ℕ
split_name = 115 ∷ 112 ∷ 108 ∷ 105 ∷ 116 ∷ []

-- Whether the attribute `#[split]` is there: only the first one is looked at, and another name, or
-- a path that is no identifier, is an error.
unfoldable pub split_attribute : List Attribute → Option Bool
split_attribute [] = some false
split_attribute (none ∷ more) = none
split_attribute (some attribute ∷ more) = if same_name attribute split_name then some true else none

pub record SvcCall : Type 0 where
  pub svc_num : ℕ
  pub input : List InputParameterSpec
  pub output : OutputSpec

module _ {Input Expr : Type 0} (s : ParseStream Input Register Expr OutputType) where
  unfoldable pub parse_split_attr : Input → Option (Bool × Input)
  unfolding split_attribute
  parse_split_attr input = s.parse_outer input >>= λ (p : List Attribute × Input).
      split_attribute p.0 >>= λ (found : Bool). some (found, p.1)

  -- `InputParameterSpec::parse`
  unfoldable pub parse_parameter : Input → Option (InputParameterSpec × Input)
  unfolding parse_split_attr
  parse_parameter input =
      if s.peek underscore input
      then (s.parse_token underscore input >>= λ (rest : Input). some (unused_spec, rest))
      else (parse_split_attr input >>= λ (p : Bool × Input).
          s.parse_ident p.1 >>= λ (q : Register × Input).
          some (if p.0 then split q.0 else name q.0, q.1))

  -- `InputSpec::parse`
  unfoldable pub parse_input : Input → Option (List InputParameterSpec × Input)
  unfolding parse_parameter
  parse_input input = s.parenthesized input >>= λ (p : Input × Input).
      s.parse_terminated parse_parameter p.0 >>= λ (parameters : List InputParameterSpec).
      some (parameters, p.1)

  -- `OutputSpec::parse`
  unfoldable pub parse_output : Input → Option (OutputSpec × Input)
  parse_output input =
      if s.peek arrow input
      then (s.parse_token arrow input >>= λ (rest : Input).
          if s.peek_paren rest
          then (s.parse_tuple rest >>= λ (p : List OutputType × Input). some (multiple p.0, p.1))
          else if s.peek bang rest
          then (s.parse_token bang rest >>= λ (behind : Input). some (no_return, behind))
          else (s.parse_type rest >>= λ (p : OutputType × Input). some (single p.0, p.1)))
      else some (unit, input)

  -- `SvcSpec::parse`; the number is a u8.
  unfoldable pub parse : Input → Option (SvcCall × Input)
  unfolding parse_input parse_output
  parse call_spec = s.parse_lit call_spec >>= λ (p : ℕ × Input).
      s.base10_parse 8 p.0 >>= λ (svc_num : ℕ). s.parse_token colon p.1 >>= λ (rest : Input).
      parse_input rest >>= λ (q : List InputParameterSpec × Input).
      parse_output q.1 >>= λ (r : OutputSpec × Input).
      some (record { svc_num = svc_num; input = q.0; output = r.0 }, r.1)
