-- ===== src/Syn.antt =====
-- What the macros of ctru-rt-macros/src use of the crate syn: the operations of a `ParseStream`, as
-- a parameter, and what its documentation says of a stream that has been written. An error is a
-- message of the compiler, `none`.
use ctru_rt.Base.{ℕ, ◌^◌, ◌<◌, ◌≤◌, ◌≡◌, List, [], ◌∷◌, Bool, true, false, Option, none, some}

-- The `?` of a parser: an error ends it.
infixl 5 ◌>>=◌
abbrev pub ◌>>=◌ {ℓ κ} : {A : Type ℓ} {B : Type κ} → Option A → (A → Option B) → Option B
none >>= f = none
some a >>= f = f a

pub data Token : Type 0 where
  underscore arrow colon comma bang : Token

-- An attribute is the name of its path, where that is an identifier.
abbrev pub Attribute : Type 0
Attribute = Option (List ℕ)

-- A literal is its number.
pub record ParseStream (Input Ident Expr Ty : Type 0) : Type 1 where
  pub peek : Token → Input → Bool
  pub peek_paren : Input → Bool
  pub parse_token : Token → Input → Option Input
  pub parse_ident : Input → Option (Ident × Input)
  pub parse_expr : Input → Option (Expr × Input)
  pub parse_type : Input → Option (Ty × Input)
  -- `TypeTuple::parse`
  pub parse_tuple : Input → Option (List Ty × Input)
  pub parse_lit : Input → Option (ℕ × Input)
  -- `base10_parse` for an unsigned type of so many bits.
  pub base10_parse : ℕ → ℕ → Option ℕ
  -- `Attribute::parse_outer`
  pub parse_outer : Input → Option (List Attribute × Input)
  -- What is between the brackets, and what is behind them.
  pub parenthesized : Input → Option (Input × Input)
  pub bracketed : Input → Option (Input × Input)
  -- `parse_terminated`, up to the end of the stream.
  pub parse_terminated : {A : Type 0} → (Input → Option (A × Input)) → Input → Option (List A)
  -- `parse_macro_input!`, which takes the whole input.
  pub parse_macro_input : {A : Type 0} → (Input → Option (A × Input)) → Input → Option A

-- Streams that are written token by token, and how they are read. `Follows` holds of what may stand
-- behind an expression or a type without continuing it: the end, and a comma. The values of `Ty` are
-- types that are paths, which begin with a name.
pub record Written {Input Ident Expr Ty : Type 0} (s : ParseStream Input Ident Expr Ty)
    : Type 1 where
  pub put_nothing : Input
  pub put_token : Token → Input → Input
  pub put_ident : Ident → Input → Input
  pub put_expr : Expr → Input → Input
  pub put_type : Ty → Input → Input
  pub put_tuple : List Ty → Input → Input
  pub put_lit : ℕ → Input → Input
  pub put_attribute : List ℕ → Input → Input
  pub put_parens : Input → Input → Input
  pub put_brackets : Input → Input → Input
  pub put_terminated : {A : Type 0} → (A → Input → Input) → List A → Input
  pub Follows : Input → Type 0
  -- How many tokens are left.
  pub size : Input → ℕ
  pub token_read : (t : Token) (i : Input) → s.parse_token t (put_token t i) ≡ some i
  pub ident_read : (x : Ident) (i : Input) → s.parse_ident (put_ident x i) ≡ some (x, i)
  pub nothing_follows : Follows put_nothing
  pub comma_follows : (i : Input) → Follows (put_token comma i)
  pub no_arrow : (i : Input) → Follows i → s.peek arrow i ≡ false
  pub expr_read : (e : Expr) (i : Input) → Follows i → s.parse_expr (put_expr e i) ≡ some (e, i)
  pub type_read : (t : Ty) (i : Input) → Follows i → s.parse_type (put_type t i) ≡ some (t, i)
  pub tuple_read : (ts : List Ty) (i : Input) → s.parse_tuple (put_tuple ts i) ≡ some (ts, i)
  pub lit_read : (n : ℕ) (i : Input) → s.parse_lit (put_lit n i) ≡ some (n, i)
  pub base10_fits : (bits n : ℕ) → n < 2 ^ bits → s.base10_parse bits n ≡ some n
  pub base10_over : (bits n : ℕ) → 2 ^ bits ≤ n → s.base10_parse bits n ≡ none
  pub parens_read : (a i : Input) → s.parenthesized (put_parens a i) ≡ some (a, i)
  pub brackets_read : (a i : Input) → s.bracketed (put_brackets a i) ≡ some (a, i)
  pub no_attribute :
      (x : Ident) (i : Input) → s.parse_outer (put_ident x i) ≡ some ([], put_ident x i)
  pub one_attribute :
      (name : List ℕ) (x : Ident) (i : Input)
      → s.parse_outer (put_attribute name (put_ident x i)) ≡ some (some name ∷ [], put_ident x i)
  -- Elements that take at least one token are read up to the end, each with a comma or the end
  -- behind it.
  pub terminated_read :
      {A : Type 0} (parse : Input → Option (A × Input)) (put : A → Input → Input)
      → ((a : A) (i : Input) → Follows i → parse (put a i) ≡ some (a, i))
      → ((a : A) (i : Input) → size i < size (put a i))
      → (list : List A) → s.parse_terminated parse (put_terminated put list) ≡ some list
  pub whole_read :
      {A : Type 0} (parse : Input → Option (A × Input)) (a : A) (i : Input)
      → parse i ≡ some (a, put_nothing)
      → s.parse_macro_input parse i ≡ some a
  pub peek_token : (t : Token) (i : Input) → s.peek t (put_token t i) ≡ true
  pub peek_ident : (t : Token) (x : Ident) (i : Input) → s.peek t (put_ident x i) ≡ false
  pub peek_attribute : (t : Token) (n : List ℕ) (i : Input) → s.peek t (put_attribute n i) ≡ false
  pub peek_type : (t : Token) (ty : Ty) (i : Input) → s.peek t (put_type ty i) ≡ false
  pub paren_tuple : (ts : List Ty) (i : Input) → s.peek_paren (put_tuple ts i) ≡ true
  pub paren_token : (t : Token) (i : Input) → s.peek_paren (put_token t i) ≡ false
  pub paren_type : (t : Ty) (i : Input) → s.peek_paren (put_type t i) ≡ false
  pub token_size : (t : Token) (i : Input) → size i < size (put_token t i)
  pub ident_size : (x : Ident) (i : Input) → size i < size (put_ident x i)
  pub expr_size : (e : Expr) (i : Input) → size i < size (put_expr e i)
  pub attribute_size : (n : List ℕ) (i : Input) → size i < size (put_attribute n i)
