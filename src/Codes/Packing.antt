-- ===== src/Codes/Packing.antt =====
-- The fields of a packed code, and which codes mean success.
use ctru_rt.Base.{
  Bool, ◌⊎◌, inl, inr, ℕ_discrete, ℕ, ◌+◌, ◌*◌, ◌/◌, ◌%◌, ◌^◌, ◌<◌, ◌≡◌, ◌≢◌, ap, ◌∙◌, arith,
  bit_and, bit_or,
}
use ctru_rt.Base.{bit_or_disjoint, bit_and-mask, ◌<<◌, ◌>>◌, u8, ok, err, panic, okay, fail}
use ctru_rt.Codes.Level
use ctru_rt.Codes.Level.{Level}
use ctru_rt.Codes.Summary
use ctru_rt.Codes.Summary.{Summary}
use ctru_rt.Codes.Origin
use ctru_rt.Codes.Origin.{Module}
use ctru_rt.Codes.Description
use ctru_rt.Codes.Description.{CommonDescription}
use ctru_rt.Codes.ResultCode
use ctru_rt.Codes.ErrorCode

-- The packed word is a sum of its fields.
pub packed_sum :
    (l s m d : ℕ)
    → l < 32
    → s < 64
    → m < 256
    → bit_or (bit_or (bit_or (l << 27) (s << 21)) (m << 10)) (bit_and d 0x3ff)
      ≡ l * 2 ^ 27 + s * 2 ^ 21 + m * 2 ^ 10 + d % 2 ^ 10
packed_sum l s m d hl hs hm =
    rw
      (
        bit_and-mask 10 d,
        bit_or_disjoint 27 (l << 27) (s << 21) (omega arith) (omega arith),
        bit_or_disjoint 18 ((l << 27) + (s << 21)) (m << 10) (omega arith) (omega arith),
        bit_or_disjoint 10 ((l << 27) + (s << 21) + (m << 10)) (d % 2 ^ 10) (omega arith)
            (omega arith),
      )
      (omega arith)

new_sum :
    (l : Level) (s : Summary) (m : Module) (d : ℕ)
    → ResultCode.new l s m d
      ≡ Level.to_value l * 2 ^ 27
        + Summary.to_value s * 2 ^ 21
        + Origin.to_value m * 2 ^ 10
        + d % 2 ^ 10
unfolding ResultCode.new
new_sum l s m d =
    packed_sum (Level.to_value l) (Summary.to_value s) (Origin.to_value m) d (Level.to_value-lt l)
      (Summary.to_value-lt s) (Origin.to_value-lt m)

-- The masked shifts of the accessors are the fields of the sum.
fields_of_sum :
    (v l s m d : ℕ)
    → l < 32
    → s < 64
    → m < 256
    → d < 1024
    → v ≡ l * 2 ^ 27 + s * 2 ^ 21 + m * 2 ^ 10 + d
    → (bit_and (v >> 27) 0x1f ≡ l)
      × (bit_and (v >> 21) 0x3f ≡ s)
      × (u8 (bit_and (v >> 10) 0xff) ≡ m)
      × (bit_and v 0x3ff ≡ d)
fields_of_sum v l s m d hl hs hm hd e = omega (
  arith,
  bit_and-mask 5 (v >> 27),
  bit_and-mask 6 (v >> 21),
  bit_and-mask 8 (v >> 10),
  bit_and-mask 10 v,
)

-- Each accessor gives back the field that `ResultCode::new` packed; of a description the low ten
-- bits are kept.
pub fields-new :
    (l : Level) (s : Summary) (m : Module) (d : ℕ)
    → (ResultCode.level (ResultCode.new l s m d) ≡ okay l)
      × (ResultCode.summary (ResultCode.new l s m d) ≡ okay s)
      × (ResultCode.module_of (ResultCode.new l s m d) ≡ okay m)
      × (ResultCode.description (ResultCode.new l s m d) ≡ Description.from_value (d % 2 ^ 10))
unfolding ResultCode.level ResultCode.summary ResultCode.module_of ResultCode.description
fields-new l s m d =
    let f =
      fields_of_sum (ResultCode.new l s m d) (Level.to_value l) (Summary.to_value s)
        (Origin.to_value m) (d % 2 ^ 10) (Level.to_value-lt l) (Summary.to_value-lt s)
        (Origin.to_value-lt m) (omega arith) (new_sum l s m d) in
    (
      ap Level.from_value f.0 ∙ Level.from_value-to_value l,
      ap Summary.from_value f.1 ∙ Summary.from_value-to_value s,
      ap Origin.from_value f.2 ∙ Origin.from_value-to_value m,
      ap Description.from_value f.3,
    )

-- A 32-bit word whose bits 18 to 20 are zero and whose level, summary and module are known is the
-- word that `ResultCode::new` packs from these and from its low ten bits.
pub new-fields :
    (v : ℕ) (l : Level) (s : Summary) (m : Module)
    → v < 2 ^ 32
    → v / 2 ^ 18 % 8 ≡ 0
    → ResultCode.level v ≡ okay l
    → ResultCode.summary v ≡ okay s
    → ResultCode.module_of v ≡ okay m
    → ResultCode.new l s m (bit_and v 0x3ff) ≡ v
unfolding ResultCode.level ResultCode.summary ResultCode.module_of
new-fields v l s m hv hz hl hs hm = omega (
  arith,
  new_sum l s m (bit_and v 0x3ff),
  Level.to_value-from_value _ l hl,
  Summary.to_value-from_value _ s hs,
  Origin.to_value-from_value _ m hm,
  bit_and-mask 5 (v >> 27),
  bit_and-mask 6 (v >> 21),
  bit_and-mask 8 (v >> 10),
  bit_and-mask 10 v,
)

-- `ErrorCode::new` panics where level, summary and module have the value 0 and the low ten bits
-- of the description are 0. Everywhere else it returns the packed word, which `into_result` turns
-- into that error.
pub new-panics :
    (l : Level) (s : Summary) (m : Module) (d : ℕ)
    → (Level.to_value l + Summary.to_value s + Origin.to_value m + d % 2 ^ 10 ≡ 0)
        × (ErrorCode.new l s m d ≡ panic)
      ⊎ (Level.to_value l + Summary.to_value s + Origin.to_value m + d % 2 ^ 10 ≢ 0)
        × (ErrorCode.new l s m d ≡ ok (ResultCode.new l s m d))
        × (ResultCode.into_result (ResultCode.new l s m d) ≡ err (ResultCode.new l s m d))
unfolding ErrorCode.new ResultCode.into_result
new-panics l s m d = elim (ℕ_discrete (ResultCode.new l s m d) 0) [
  | yes e ↦ inl (omega (arith, new_sum l s m d), ground arith)
  | no e ↦ inr (omega (arith, new_sum l s m d), ground arith, ground arith)
]

-- `into_result`, the `?` of `Try` and the predicates tell the same codes apart: 0 is success and
-- continues; any other word is an error that carries it, and the residual turns back into it.
pub branch_lem :
    (code : ℕ)
    → (code ≡ 0)
        × (ResultCode.into_result code ≡ ok tt)
        × (ResultCode.branch code ≡ okay tt)
        × (ResultCode.from_output tt ≡ code)
        × (ResultCode.is_ok code ≡ Bool.true)
      ⊎ (code ≢ 0)
        × (ResultCode.into_result code ≡ err code)
        × (ResultCode.branch code ≡ fail code)
        × (ResultCode.from_residual code ≡ code)
        × (ResultCode.is_ok code ≡ Bool.false)
unfolding ResultCode.into_result ResultCode.branch ResultCode.from_output ResultCode.from_residual
    ResultCode.is_ok
branch_lem code = elim (ℕ_discrete code 0) [
  | yes e ↦ inl (e, ground arith, ground arith, ground arith, ground arith)
  | no e ↦ inr (e, ground arith, ground arith, ground arith, ground arith)
]
