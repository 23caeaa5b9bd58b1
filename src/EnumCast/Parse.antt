-- ===== src/EnumCast/Parse.antt =====
-- What `EnumCast::new` takes: the input as `syn` has parsed it, and the errors for what is not an
-- enum of numbered names. A literal is read as an i32, the type of `next_value`.
use ctru_rt.Base.{
  ℕ, ◌+◌, ◌^◌, ltb, Bool, true, if◌then◌else◌, List, [], ◌∷◌, Option, none, some, Outcome, ok, err,
  panic, Result, okay, fail,
}
use ctru_rt.EnumCast.ValueType.{Meta, parse_value_type}

pub data Expr : Type 0 where
  int_literal : ℕ → Expr
  other_expr : Expr

module _ (A : Type 0) where
  pub record Variant : Type 0 where
    pub ident : A
    pub is_unit : Bool
    pub discriminant : Option Expr

  pub data Data : Type 0 where
    enum_input : List Variant → Data
    other_input : Data

pub data Error : Type 0 where
  not_an_enum has_fields not_a_literal too_large not_a_type : Error

-- The input of the macro, of which the name of the enum is only passed on.
pub record DeriveInput (A : Type 0) : Type 0 where
  pub attrs : List Meta
  pub data_ : Data A

module _ {A : Type 0} where
  unfoldable pub parse_variant : Variant A → Result (Variant A) Error
  parse_variant v = if v.is_unit then okay v else fail has_fields

  unfoldable pub parse_variant_expr : Variant A → Result (Option ℕ) Error
  parse_variant_expr v = elim v.discriminant [
    | none ↦ okay none
    | some (int_literal n) ↦ okay (some n)
    | some other_expr ↦ fail not_a_literal
  ]

  -- `next_value += 1` overflows, or the rest follows.
  unfoldable pub push :
      A → ℕ → (ℕ → Outcome (Result (List (A × ℕ)) Error)) → Outcome (Result (List (A × ℕ)) Error)
  push ident value rest =
      if ltb (value + 1) (2 ^ 31)
      then elim (rest (value + 1)) [
        | ok (okay variants) ↦ ok (okay ((ident, value) ∷ variants))
        | ok (fail e) ↦ ok (fail e)
        | err e ↦ err e
        | panic ↦ panic
      ]
      else panic

  -- The body of the loop.
  unfoldable pub step :
      Variant A
      → ℕ
      → (ℕ → Outcome (Result (List (A × ℕ)) Error))
      → Outcome (Result (List (A × ℕ)) Error)
  unfolding parse_variant parse_variant_expr
  step v next_value rest = elim (parse_variant v) [
    | fail e ↦ ok (fail e)
    | okay v ↦ elim (parse_variant_expr v) [
      | fail e ↦ ok (fail e)
      | okay none ↦ push (v.ident) next_value rest
      | okay (some value) ↦
          if ltb value (2 ^ 31) then push (v.ident) value rest else ok (fail too_large)
    ]
  ]

  unfoldable pub parse_variants : List (Variant A) → ℕ → Outcome (Result (List (A × ℕ)) Error)
  parse_variants [] next_value = ok (okay [])
  parse_variants (v ∷ variants) next_value = step v next_value (parse_variants variants)

  -- The variants with their values, and the type of a value.
  unfoldable pub with_value_type :
      {Ty : Type 0}
      → Option Ty
      → Outcome (Result (List (A × ℕ)) Error)
      → Outcome (Result (List (A × ℕ) × Ty) Error)
  with_value_type found (ok (okay variants)) =
      ok (elim found [ some value_type ↦ okay (variants, value_type) | none ↦ fail not_a_type ])
  with_value_type found (ok (fail e)) = ok (fail e)
  with_value_type found (err e) = err e
  with_value_type found panic = panic

  unfoldable pub new :
      {Ty : Type 0}
      → (List ℕ → Option Ty)
      → Ty
      → DeriveInput A
      → Outcome (Result (List (A × ℕ) × Ty) Error)
  unfolding parse_variants with_value_type
  new parse u32 derive_input = elim derive_input.data_ [
    | enum_input variants ↦
        with_value_type (parse_value_type parse u32 derive_input.attrs) (parse_variants variants 0)
    | other_input ↦ ok (fail not_an_enum)
  ]

  -- A name, and the discriminant that is written behind it.
  abbrev pub plain : A × Option ℕ → Variant A
  plain (ident, none) = record { ident = ident; is_unit = true; discriminant = none }
  plain (ident, some n) = record {
    ident = ident;
    is_unit = true;
    discriminant = some (int_literal n);
  }
