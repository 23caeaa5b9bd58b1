-- ===== src/EnumCast/ValueType.antt =====
-- The attribute `#[enum_cast(value_type = "…")]` (ctru-rt-macros/src/enum_cast.rs), from the
-- attributes as `syn` has parsed them: a path is its name, where it is one identifier.
use ctru_rt.Base.{
  ℕ, List, [], ◌∷◌, Bool, false, same_name, if◌then◌else◌, Option, none, some, All, ◌++◌, ◌≡◌, refl,
}

abbrev pub MetaPath : Type 0
MetaPath = Option (List ℕ)

-- `path = "…"`, or anything else in the parentheses.
pub data NestedMeta : Type 0 where
  name_value : MetaPath → List ℕ → NestedMeta
  other_nested : NestedMeta

-- An attribute with parentheses; an attribute of another form, or one that cannot be parsed.
pub data Meta : Type 0 where
  list_meta : MetaPath → List NestedMeta → Meta
  other_meta : Meta

-- `PathExt::is_ident`
unfoldable pub is_ident : MetaPath → List ℕ → Bool
is_ident none ident = false
is_ident (some name) ident = same_name name ident

-- `"enum_cast"` and `"value_type"`
abbrev pub enum_cast : List ℕ
enum_cast = 101 ∷ 110 ∷ 117 ∷ 109 ∷ 95 ∷ 99 ∷ 97 ∷ 115 ∷ 116 ∷ []

abbrev pub value_type : List ℕ
value_type = 118 ∷ 97 ∷ 108 ∷ 117 ∷ 101 ∷ 95 ∷ 116 ∷ 121 ∷ 112 ∷ 101 ∷ []

-- The loop over what is in the parentheses: the first literal of a `value_type`.
unfoldable pub type_literal : List NestedMeta → Option (List ℕ)
unfolding is_ident
type_literal [] = none
type_literal (other_nested ∷ nested) = type_literal nested
type_literal (name_value path type_lit ∷ nested) =
    let rest = type_literal nested in if is_ident path value_type then some type_lit else rest

-- The attribute is not `#[enum_cast(…)]`.
abbrev pub Other : Meta → Type 0
Other other_meta = Unit
Other (list_meta path nested) = is_ident path enum_cast ≡ false

-- `#[enum_cast(value_type = "…")]`
abbrev pub typed : List ℕ → Meta
typed lit = list_meta (some enum_cast) (name_value (some value_type) lit ∷ [])

-- `parse_value_type`; a literal that is no type is an error, and `u32` is the default.
module _ {Ty : Type 0} (parse : List ℕ → Option Ty) (u32 : Ty) where
  unfoldable pub parse_value_type : List Meta → Option Ty
  unfolding is_ident type_literal
  parse_value_type [] = some u32
  parse_value_type (other_meta ∷ attributes) = parse_value_type attributes
  parse_value_type (list_meta path nested ∷ attributes) =
      let rest = parse_value_type attributes in
      if is_ident path enum_cast
      then elim (type_literal nested) [ some type_lit ↦ parse type_lit | none ↦ rest ]
      else rest

  pub parse_value_type-typed :
      (others rest : List Meta) (lit : List ℕ)
      → All Other others
      → parse_value_type (others ++ (typed lit ∷ rest)) ≡ parse lit
  unfolding parse_value_type is_ident type_literal
  parse_value_type-typed [] rest lit h = refl
  parse_value_type-typed (other_meta ∷ others) rest lit h =
      parse_value_type-typed others rest lit h.1
  parse_value_type-typed (list_meta path nested ∷ others) rest lit h =
      rw h.0 (parse_value_type-typed others rest lit h.1)

  pub parse_value_type-default :
      (others : List Meta) → All Other others → parse_value_type others ≡ some u32
  unfolding parse_value_type is_ident type_literal
  parse_value_type-default [] h = refl
  parse_value_type-default (other_meta ∷ others) h = parse_value_type-default others h.1
  parse_value_type-default (list_meta path nested ∷ others) h =
      rw h.0 (parse_value_type-default others h.1)
