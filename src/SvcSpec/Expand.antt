-- ===== src/SvcSpec/Expand.antt =====
-- The macro `svc!` as a whole (ctru-rt-macros/src/lib.rs): it parses its tokens and emits the block
-- of the call. A message of the compiler is `none`; a panic of the macro is one of its outcome.
use ctru_rt.Base.{ℕ, ◌^◌, ◌<◌, ◌≡◌, inl, inr, refl, arith, List, Option, some, Outcome, ok}
use ctru_rt.Machine.{Machine, Register}
use ctru_rt.Syn.{◌>>=◌, ParseStream, Written}
use ctru_rt.Svc.Calls.{svc_unit, svc_word, svc_handle}
use ctru_rt.SvcSpec.{
  OutputSpec, unit, single, OutputType, word_type, handle_type, AsmCall, to_asm_call, execute,
}
use ctru_rt.SvcSpec.Parse.{SvcCall, parse}
use ctru_rt.SvcSpec.RoundTrip.{put_svc, parse-put_svc}
use ctru_rt.SvcSpec.Refines.{spec_of, Trimmed, one, no_output, svc_refines}

module _ {Input Expr : Type 0} (s : ParseStream Input Register Expr OutputType) where
  unfoldable pub svc : Input → Option (Outcome AsmCall)
  svc tokens = s.parse_macro_input (parse s) tokens >>= λ (c : SvcCall).
      some (to_asm_call c.svc_num c.input c.output)

  -- What the macro makes of the tokens has this result on a kernel.
  abbrev pub Runs : {W : Type 0} → Machine W → Input → W → Option (Outcome (List ℕ)) × W → Type 0
  Runs m tokens w result =
      (call : AsmCall) × (svc tokens ≡ some (ok call)) × (execute m call w ≡ result)

  module _ (written : Written s) where
    -- The tokens of a call with these argument registers.
    abbrev pub tokens_of : ℕ → List Register → OutputSpec → Input
    tokens_of n rs output =
        put_svc s written (record { svc_num = n; input = spec_of rs; output = output })
          written.put_nothing

    svc-tokens_of :
        (n : ℕ) (rs : List Register) (output : OutputSpec)
        → n < 2 ^ 8
        → svc (tokens_of n rs output) ≡ some (to_asm_call n (spec_of rs) output)
    unfolding svc
    svc-tokens_of n rs output low =
        let call : SvcCall = record { svc_num = n; input = spec_of rs; output = output } in
        let nothing = written.put_nothing in
        elim (parse-put_svc s written call nothing written.nothing_follows) [
          | inl (_, read) ↦
              rw (written.whole_read (parse s) call (put_svc s written call nothing) read) refl
          | inr (high, _) ↦ absurd (omega (arith, high))
        ]

    runs :
        {W : Type 0} (m : Machine W) (n : ℕ) (rs : List Register) (w : W) (output : OutputSpec)
        (result : Option (Outcome (List ℕ)) × W)
        → n < 2 ^ 8
        → (call : AsmCall) × (to_asm_call n (spec_of rs) output ≡ ok call)
          × (execute m call w ≡ result)
        → Runs m (tokens_of n rs output) w result
    runs m n rs w output result low (call, expands, run) =
        (call, rw (svc-tokens_of n rs output low, expands) refl, run)

    -- For every number of eight bits and every list of arguments whose last one is used: the macro
    -- accepts the tokens of the call without an output, with a word and with a handle, and the
    -- block that it expands them to does what `svc_unit`, `svc_word` and `svc_handle` do.
    pub expansion_refines :
        {W : Type 0} (m : Machine W) (n : ℕ) (rs : List Register) (w : W)
        → n < 2 ^ 8
        → Trimmed rs
        → Runs m (tokens_of n rs unit) w (no_output (svc_unit m n rs w).0, (svc_unit m n rs w).1)
          × Runs m
              (tokens_of n rs (single word_type))
              w
              (one (svc_word m n rs w).0, (svc_word m n rs w).1)
          × Runs m
              (tokens_of n rs (single handle_type))
              w
              (one (svc_handle m n rs w).0, (svc_handle m n rs w).1)
    expansion_refines m n rs w low h =
        let (nothing, word_, handle) = svc_refines m n rs w h in
        (
          runs m n rs w unit _ low nothing,
          runs m n rs w (single word_type) _ low word_,
          runs m n rs w (single handle_type) _ low handle,
        )
