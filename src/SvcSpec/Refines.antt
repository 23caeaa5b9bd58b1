-- ===== src/SvcSpec/Refines.antt =====
-- The calls of Svc/Calls.antt are what the macro emits for their specs.
use ctru_rt.Base.{
  ℕ, zero, suc, ◌+◌, ◌-◌, ◌≡◌, refl, ap, sym, ◌∙◌, arith, List, [], ◌∷◌, ◌++◌, replicate, Option,
  some,
}
use ctru_rt.Base.{Outcome, ok, ◌>>=◌}
use ctru_rt.Machine.{Machine, Register, unused, word, pointer}
use ctru_rt.Codes.ResultCode
use ctru_rt.Svc.Calls.{svc_unit, svc_registers, svc_word, svc_handle}
use ctru_rt.SvcSpec.{
  InputParameterSpec, unused_spec, name, InputParameter, parameters, word_type, handle_type,
  OutputSpec, unit, single, AsmCall, to_asm_call, register_file, convert_result, execute,
  output_parameters,
}

-- The spec that is written for a list of argument registers.
abbrev pub spec_of : List Register → List InputParameterSpec
spec_of [] = []
spec_of (unused ∷ rs) = unused_spec ∷ spec_of rs
spec_of (word n ∷ rs) = name (word n) ∷ spec_of rs
spec_of (pointer p ∷ rs) = name (pointer p) ∷ spec_of rs

-- The last argument is not an unused one.
abbrev pub Trimmed : List Register → Type 0
Trimmed [] = Unit
Trimmed (unused ∷ []) = ⊥
Trimmed (unused ∷ r ∷ rs) = Trimmed (r ∷ rs)
Trimmed (word n ∷ rs) = Trimmed rs
Trimmed (pointer p ∷ rs) = Trimmed rs

-- A gap before no argument at all is empty.
abbrev Fits : List Register → ℕ → Type 0
Fits [] k = k ≡ 0
Fits (r ∷ rs) k = Unit

unused_behind :
    (k : ℕ) (rs : List Register)
    → replicate (suc k) unused ++ rs ≡ replicate k unused ++ (unused ∷ rs)
unused_behind zero rs = refl
unused_behind (suc k) rs = ap (λ t. unused ∷ t) (unused_behind k rs)

Filled : List Register → ℕ → ℕ → Type 0
Filled rs i k =
    (ps : List InputParameter) × (parameters (spec_of rs) (i + k) ≡ ok ps)
    × (register_file i ps ≡ replicate k unused ++ rs)

-- An argument in register `i + k` behind a gap of `k`.
put :
    (r : Register) (rs : List Register) (i k : ℕ)
    → parameters (spec_of (r ∷ rs)) (i + k) ≡ (
        parameters (spec_of rs) (i + k + 1) >>= λ (ps : List InputParameter).
        ok (record { value = r; register = i + k } ∷ ps))
    → Filled rs (i + k + 1) 0
    → Filled (r ∷ rs) i k
unfolding Filled register_file
put r rs i k step (ps, e, f) =
    let start : i + k + 1 + 0 ≡ i + k + 1 = omega arith in
    let gap : i + k - i ≡ k = omega arith in
    (
      record { value = r; register = i + k } ∷ ps,
      step
          ∙ ap
              (λ t. parameters (spec_of rs) t >>= λ (ps : List InputParameter).
                ok (record { value = r; register = i + k } ∷ ps))
              (sym start)
          ∙ ap
              (λ t. t >>= λ (ps : List InputParameter).
                ok (record { value = r; register = i + k } ∷ ps))
              e,
      rw (gap, f) refl,
    )

-- The parameters that are allocated from register `i + k` on fill the registers from `i` on, the
-- first `k` of them by nothing.
filled : (rs : List Register) (i k : ℕ) → Trimmed rs → Fits rs k → Filled rs i k
unfolding Filled parameters register_file
filled [] i k h z = ([], refl, rw z refl)
filled (unused ∷ []) i k h z = absurd h
filled (unused ∷ r ∷ rs) i k h z =
    let (ps, e, f) = filled (r ∷ rs) i (suc k) h tt in
    let next : i + k + 1 ≡ i + suc k = omega arith in
    (ps, ap (parameters (spec_of (r ∷ rs))) next ∙ e, f ∙ unused_behind k (r ∷ rs))
filled (word n ∷ []) i k h z = put (word n) [] i k refl (filled [] (i + k + 1) 0 tt refl)
filled (word n ∷ r ∷ rs) i k h z =
    put (word n) (r ∷ rs) i k refl (filled (r ∷ rs) (i + k + 1) 0 h tt)
filled (pointer p ∷ []) i k h z = put (pointer p) [] i k refl (filled [] (i + k + 1) 0 tt refl)
filled (pointer p ∷ r ∷ rs) i k h z =
    put (pointer p) (r ∷ rs) i k refl (filled (r ∷ rs) (i + k + 1) 0 h tt)

-- One returned value, or none, as the list of the outputs.
abbrev pub one : Outcome ℕ → Option (Outcome (List ℕ))
one r = some (r >>= λ (v : ℕ). ok (v ∷ []))

abbrev pub no_output : Outcome (Unit {0}) → Option (Outcome (List ℕ))
no_output r = some (r >>= λ _. ok [])

-- The block with these parameters, for each form of output.
module _ {W : Type 0} (m : Machine W) (n : ℕ) (rs : List Register) (w : W)
    (ps : List InputParameter) (f : register_file 0 ps ≡ rs) where
  abbrev block : OutputSpec → AsmCall
  block output = record { svc_num = n; inputs = ps; outputs = output_parameters output }

  run_unit : execute m (block unit) w ≡ (no_output (svc_unit m n rs w).0, (svc_unit m n rs w).1)
  unfolding execute svc_unit convert_result output_parameters
  run_unit = ground (arith, f)

  run_word :
      execute m (block (single word_type)) w ≡ (one (svc_word m n rs w).0, (svc_word m n rs w).1)
  unfolding execute svc_word svc_registers convert_result output_parameters ResultCode.and
  run_word = ground (arith, f)

  run_handle :
      execute m (block (single handle_type)) w
      ≡ (one (svc_handle m n rs w).0, (svc_handle m n rs w).1)
  unfolding execute svc_handle svc_registers convert_result output_parameters ResultCode.and
  run_handle = ground (arith, f)

-- For every number and every list of arguments whose last one is used: the macro expands their spec
-- for each of the output forms nothing, a word and a handle, and the block that it emits does what
-- `svc_unit`, `svc_word` and `svc_handle` do, by which the calls are defined.
pub svc_refines :
    {W : Type 0} (m : Machine W) (n : ℕ) (rs : List Register) (w : W)
    → Trimmed rs
    → ((call : AsmCall) × (to_asm_call n (spec_of rs) unit ≡ ok call)
        × (execute m call w ≡ (no_output (svc_unit m n rs w).0, (svc_unit m n rs w).1)))
      × ((call : AsmCall) × (to_asm_call n (spec_of rs) (single word_type) ≡ ok call)
          × (execute m call w ≡ (one (svc_word m n rs w).0, (svc_word m n rs w).1)))
      × ((call : AsmCall) × (to_asm_call n (spec_of rs) (single handle_type) ≡ ok call)
          × (execute m call w ≡ (one (svc_handle m n rs w).0, (svc_handle m n rs w).1)))
unfolding to_asm_call Filled
svc_refines m n rs w h =
    let (ps, e, f) = filled rs 0 0 h (no_gap rs) in
    (
      (block m n rs w ps f unit, expands ps e unit, run_unit m n rs w ps f),
      (
        block m n rs w ps f (single word_type),
        expands ps e (single word_type),
        run_word m n rs w ps f,
      ),
      (
        block m n rs w ps f (single handle_type),
        expands ps e (single handle_type),
        run_handle m n rs w ps f,
      ),
    )
  where
    no_gap : (rs : List Register) → Fits rs 0
    no_gap [] = refl
    no_gap (r ∷ rs) = tt

    expands :
        (ps : List InputParameter)
        → parameters (spec_of rs) (0 + 0) ≡ ok ps
        → (output : OutputSpec)
        → to_asm_call n (spec_of rs) output
          ≡ ok (record { svc_num = n; inputs = ps; outputs = output_parameters output })
    expands ps e output =
        ap
          (λ t. t >>= λ (ps : List InputParameter).
            ok (record { svc_num = n; inputs = ps; outputs = output_parameters output }))
          e
