-- ===== src/SvcSpec/RoundTrip.antt =====
-- A call that is written as the macro `svc!` expects it is read back.
use ctru_rt.Base.{◌^◌, ◌<◌, ◌≤◌, ◌≡◌, ◌⊎◌, inl, inr, dec_lt, refl, arith, List, none, some}
use ctru_rt.Machine.{Register}
use ctru_rt.Syn.{ParseStream, Written, underscore, arrow, colon, bang}
use ctru_rt.SvcSpec.{
  InputParameterSpec, unused_spec, name, split, OutputSpec, no_return, unit, single, multiple,
  OutputType,
}
use ctru_rt.SvcSpec.Parse.{
  SvcCall, split_name, split_attribute, parse_split_attr, parse_parameter, parse_input,
  parse_output, parse,
}

module _ {Input Expr : Type 0} (s : ParseStream Input Register Expr OutputType)
    (w : Written s) where
  abbrev pub put_parameter : InputParameterSpec → Input → Input
  put_parameter unused_spec i = w.put_token underscore i
  put_parameter (name x) i = w.put_ident x i
  put_parameter (split x) i = w.put_attribute split_name (w.put_ident x i)

  abbrev pub put_output : OutputSpec → Input → Input
  put_output unit i = i
  put_output no_return i = w.put_token arrow (w.put_token bang i)
  put_output (single t) i = w.put_token arrow (w.put_type t i)
  put_output (multiple ts) i = w.put_token arrow (w.put_tuple ts i)

  abbrev pub put_svc : SvcCall → Input → Input
  put_svc c i = w.put_lit c.svc_num (
      w.put_token colon
        (w.put_parens (w.put_terminated put_parameter c.input) (put_output c.output i)))

  parameter_read :
      (p : InputParameterSpec) (i : Input) → parse_parameter s (put_parameter p i) ≡ some (p, i)
  unfolding parse_parameter parse_split_attr split_attribute
  parameter_read unused_spec i = rw (w.peek_token underscore i, w.token_read underscore i) refl
  parameter_read (name x) i =
      rw (w.peek_ident underscore x i, w.no_attribute x i) (rw (w.ident_read x i) refl)
  parameter_read (split x) i =
      rw (w.peek_attribute underscore split_name (w.put_ident x i), w.one_attribute split_name x i)
        (rw (w.ident_read x i) refl)

  parameter_size : (p : InputParameterSpec) (i : Input) → w.size i < w.size (put_parameter p i)
  parameter_size unused_spec i = w.token_size underscore i
  parameter_size (name x) i = w.ident_size x i
  parameter_size (split x) i =
      omega (arith, w.ident_size x i, w.attribute_size split_name (w.put_ident x i))

  output_read :
      (o : OutputSpec) (i : Input) → w.Follows i → parse_output s (put_output o i) ≡ some (o, i)
  unfolding parse_output
  output_read unit i h = rw (w.no_arrow i h) refl
  output_read no_return i h =
      rw (w.peek_token arrow (w.put_token bang i), w.token_read arrow (w.put_token bang i))
        (rw (w.paren_token bang i, w.peek_token bang i, w.token_read bang i) refl)
  output_read (single t) i h =
      rw (w.peek_token arrow (w.put_type t i), w.token_read arrow (w.put_type t i))
        (rw (w.paren_type t i, w.peek_type bang t i, w.type_read t i h) refl)
  output_read (multiple ts) i h =
      rw (w.peek_token arrow (w.put_tuple ts i), w.token_read arrow (w.put_tuple ts i))
        (rw (w.paren_tuple ts i, w.tuple_read ts i) refl)

  input_read :
      (ps : List InputParameterSpec) (i : Input)
      → parse_input s (w.put_parens (w.put_terminated put_parameter ps) i) ≡ some (ps, i)
  unfolding parse_input
  input_read ps i =
      rw
        (
          w.parens_read (w.put_terminated put_parameter ps) i,
          w.terminated_read (parse_parameter s) put_parameter (λ p i _. parameter_read p i)
              parameter_size ps,
        )
        refl

  -- A call that is written with its number, its operands and its form of output is read back as it
  -- is, with what stands behind it, where its number has eight bits and what stands behind it is the
  -- end or what may follow a type; a number of more bits is refused.
  pub parse-put_svc :
      (c : SvcCall) (i : Input)
      → w.Follows i
      → (c.svc_num < 2 ^ 8) × (parse s (put_svc c i) ≡ some (c, i))
        ⊎ (2 ^ 8 ≤ c.svc_num) × (parse s (put_svc c i) ≡ none)
  unfolding parse
  parse-put_svc c i h =
      let tail = w.put_parens (w.put_terminated put_parameter c.input) (put_output c.output i) in
      let number = w.lit_read c.svc_num (w.put_token colon tail) in
      elim (dec_lt c.svc_num (2 ^ 8)) [
        | yes low ↦ inl (
          low,
          rw
              (
                number,
                w.base10_fits 8 c.svc_num low,
                w.token_read colon tail,
                input_read c.input (put_output c.output i),
                output_read c.output i h,
              )
              refl,
        )
        | no high ↦
            let above : 2 ^ 8 ≤ c.svc_num = omega arith in
            inr (above, rw (number, w.base10_over 8 c.svc_num above) refl)
      ]
