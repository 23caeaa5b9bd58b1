-- ===== src/SvcSpec.antt =====
-- The macro `svc!` (ctru-rt-macros/src/svc_spec.rs): which register each operand of a call gets,
-- and what the assembly that it emits does. A spec is taken as it is parsed; an input is the
-- register value that its expression gives, an output type its `FromRegister`.
pub mod Parse
pub mod RoundTrip
pub mod Refines
pub mod Expand
use ctru_rt.Base.{ℕ, zero, suc, ◌+◌, ◌-◌, List, [], ◌∷◌, ◌++◌, replicate, Option, none, some}
use ctru_rt.Base.{Outcome, ok, err, panic, ◌>>=◌}
use ctru_rt.Machine.{Machine, Register, unused, Sys}
use ctru_rt.Codes.ResultCode
use ctru_rt.Svc.Calls.{handle_from_register}

pub data InputParameterSpec : Type 0 where
  unused_spec : InputParameterSpec
  name split : Register → InputParameterSpec

pub record InputParameter : Type 0 where
  pub value : Register
  pub register : ℕ

abbrev pub cons_parameter :
    InputParameter → Outcome (List InputParameter) → Outcome (List InputParameter)
cons_parameter p rest = rest >>= λ (ps : List InputParameter). ok (p ∷ ps)

-- `InputSpec::parameters`: every place counts, an unused one too. Splitting is a `todo!`.
unfoldable pub parameters : List InputParameterSpec → ℕ → Outcome (List InputParameter)
parameters [] register = ok []
parameters (unused_spec ∷ specs) register = parameters specs (register + 1)
parameters (name value ∷ specs) register =
    cons_parameter (record { value = value; register = register }) (parameters specs (register + 1))
parameters (split value ∷ specs) register = panic

-- The types that the calls return: a word, and an owned handle.
pub data OutputType : Type 0 where
  word_type handle_type : OutputType

unfoldable pub from_register : OutputType → ℕ → Outcome ℕ
from_register word_type reg = ok reg
from_register handle_type reg = handle_from_register reg

pub data OutputSpec : Type 0 where
  no_return unit : OutputSpec
  single : OutputType → OutputSpec
  multiple : List OutputType → OutputSpec

pub record OutputParameter : Type 0 where
  pub type_ : OutputType
  pub register : ℕ

unfoldable pub number_outputs : List OutputType → ℕ → List OutputParameter
number_outputs [] register = []
number_outputs (t ∷ ts) register =
    record { type_ = t; register = register } ∷ number_outputs ts (register + 1)

-- `OutputSpec::parameters`: the result is in r0, the others from r1 on; nothing for `!`.
unfoldable pub output_parameters : OutputSpec → Option (ℕ × List OutputParameter)
unfolding number_outputs
output_parameters no_return = none
output_parameters unit = some (0, [])
output_parameters (single t) = some (0, record { type_ = t; register = 1 } ∷ [])
output_parameters (multiple ts) = some (0, number_outputs ts 1)

-- The emitted block: the number of the call, its `in` operands and its `lateout` operands.
pub record AsmCall : Type 0 where
  pub svc_num : ℕ
  pub inputs : List InputParameter
  pub outputs : Option (ℕ × List OutputParameter)

unfoldable pub to_asm_call : ℕ → List InputParameterSpec → OutputSpec → Outcome AsmCall
unfolding parameters output_parameters
to_asm_call svc_num input output = parameters input 0 >>= λ (ps : List InputParameter).
    ok (record { svc_num = svc_num; inputs = ps; outputs = output_parameters output })

-- The argument registers as `in` operands fill them, from register `i` on.
unfoldable pub register_file : ℕ → List InputParameter → List Register
register_file i [] = []
register_file i (p ∷ ps) =
    replicate (p.register - i) unused ++ (p.value ∷ register_file (p.register + 1) ps)

-- The conversions of the output registers, in order.
unfoldable pub convert_all : List OutputParameter → (ℕ → ℕ) → Outcome (List ℕ)
unfolding from_register
convert_all [] r = ok []
convert_all (p ∷ ps) r = from_register p.type_ (r p.register) >>= λ (v : ℕ).
    convert_all ps r >>= λ (vs : List ℕ). ok (v ∷ vs)

-- `ResultCode::from(result).and_then(|| outputs)`
unfoldable pub convert_result : ℕ × List OutputParameter → (ℕ → ℕ) → Outcome (List ℕ)
unfolding convert_all
convert_result (result, outputs) r = elim (ResultCode.into_result (r result)) [
  | ok _ ↦ convert_all outputs r
  | err e ↦ err e
  | panic ↦ panic
]

-- What the block does on a kernel; a call that does not return gives no result.
unfoldable pub execute : {W : Type 0} → Machine W → AsmCall → W → Option (Outcome (List ℕ)) × W
unfolding register_file convert_result
execute m call w =
    let (r, w') = m.svc call.svc_num (register_file 0 call.inputs) w in
    elim call.outputs [ none ↦ (none, w') | some o ↦ (some (convert_result o r), w') ]
