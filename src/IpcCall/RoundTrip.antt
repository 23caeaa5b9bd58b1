-- ===== src/IpcCall/RoundTrip.antt =====
-- A call that is written as the macro for IPC calls expects it is read back.
use ctru_rt.Base.{ℕ, ◌^◌, ◌<◌, ◌≤◌, ◌≡◌, ◌⊎◌, inl, inr, dec_lt, refl, arith, none, some}
use ctru_rt.Syn.{ParseStream, Written, underscore, colon, comma}
use ctru_rt.IpcCall.{IpcCall, TranslateParameter, translate_parameter}
use ctru_rt.IpcCall.Parse.{parse_parameter, parse_translate_parameter, parse}

module _ {Input Ident Ty : Type 0} (s : ParseStream Input Ident ℕ Ty) (w : Written s) where
  abbrev put_translate_parameter : TranslateParameter → Input → Input
  put_translate_parameter _ i = w.put_token underscore i

  abbrev put_lists : IpcCall → Input → Input
  put_lists c i = w.put_brackets (w.put_terminated w.put_expr c.params) (
      w.put_token comma
        (w.put_brackets (w.put_terminated put_translate_parameter c.translate_params) i))

  abbrev pub put_ipc : IpcCall → Input → Input
  put_ipc c i = w.put_lit c.id (w.put_token colon (put_lists c i))

  translate_parameter_read :
      (p : TranslateParameter) (i : Input)
      → parse_translate_parameter s (put_translate_parameter p i) ≡ some (p, i)
  unfolding parse_translate_parameter
  translate_parameter_read translate_parameter i = rw (w.token_read underscore i) refl

  -- A call that is written with its id and its two lists is read back as it is, with what stands
  -- behind it, where its id has 16 bits; an id of more bits is refused.
  pub parse-put_ipc :
      (c : IpcCall) (i : Input)
      → (c.id < 2 ^ 16) × (parse s (put_ipc c i) ≡ some (c, i))
        ⊎ (2 ^ 16 ≤ c.id) × (parse s (put_ipc c i) ≡ none)
  unfolding parse parse_parameter
  parse-put_ipc c i =
      let number = w.lit_read c.id (w.put_token colon (put_lists c i)) in
      let second = w.put_brackets (w.put_terminated put_translate_parameter c.translate_params) i in
      elim (dec_lt c.id (2 ^ 16)) [
        | yes low ↦ inl (
          low,
          rw
              (
                number,
                w.base10_fits 16 c.id low,
                w.token_read colon (put_lists c i),
                w.brackets_read (w.put_terminated w.put_expr c.params) (w.put_token comma second),
                w.terminated_read (parse_parameter s) w.put_expr w.expr_read w.expr_size c.params,
                w.token_read comma second,
                w.brackets_read (w.put_terminated put_translate_parameter c.translate_params) i,
                w.terminated_read (parse_translate_parameter s) put_translate_parameter
                    (λ p i _. translate_parameter_read p i) (λ p. w.token_size underscore)
                    c.translate_params,
              )
              refl,
        )
        | no high ↦
            let above : 2 ^ 16 ≤ c.id = omega arith in
            inr (above, rw (number, w.base10_over 16 c.id above) refl)
      ]
