-- ===== src/Tests/Tokens.antt =====
-- A stream of tokens, as the macros read from one.
use ctru_rt.Base.{
  ℕ, zero, suc, ◌^◌, ◌<◌, ◌≤◌, ◌≡◌, refl, ap, arith, List, [], ◌∷◌, Bool, true, false, ◌==◌, ltb,
  if◌then◌else◌, Option, none, some,
}
use ctru_rt.Machine.{Register}
use ctru_rt.Syn.{
  ◌>>=◌, ParseStream, Written, Token, underscore, arrow, colon, comma, bang, Attribute,
}
use ctru_rt.SvcSpec.{OutputType}

mutual
  pub data Tree : Type 0 where
    token : Token → Tree
    ident : Register → Tree
    expr : ℕ → Tree
    type_ : OutputType → Tree
    tuple : List OutputType → Tree
    lit : ℕ → Tree
    attribute : List ℕ → Tree
    parens brackets : Trees → Tree

  pub data Trees : Type 0 where
    done : Trees
    then_ : Tree → Trees → Trees

abbrev pub token_number : Token → ℕ
token_number underscore = 0
token_number arrow = 1
token_number colon = 2
token_number comma = 3
token_number bang = 4

abbrev pub peek : Token → Trees → Bool
peek t (then_ (token u) i) = token_number t == token_number u
peek t _ = false

-- The end, or a comma.
abbrev pub Follows : Trees → Type 0
Follows done = Unit
Follows (then_ (token comma) i) = Unit
Follows _ = ⊥

abbrev pub peek_paren : Trees → Bool
peek_paren (then_ (tuple ts) i) = true
peek_paren (then_ (parens a) i) = true
peek_paren _ = false

abbrev pub parse_token : Token → Trees → Option Trees
parse_token t (then_ (token u) i) = if token_number t == token_number u then some i else none
parse_token t _ = none

abbrev pub parse_ident : Trees → Option (Register × Trees)
parse_ident (then_ (ident x) i) = some (x, i)
parse_ident _ = none

abbrev pub parse_expr : Trees → Option (ℕ × Trees)
parse_expr (then_ (expr x) i) = some (x, i)
parse_expr _ = none

abbrev pub parse_type : Trees → Option (OutputType × Trees)
parse_type (then_ (type_ x) i) = some (x, i)
parse_type _ = none

abbrev pub parse_tuple : Trees → Option (List OutputType × Trees)
parse_tuple (then_ (tuple x) i) = some (x, i)
parse_tuple _ = none

abbrev pub parse_lit : Trees → Option (ℕ × Trees)
parse_lit (then_ (lit x) i) = some (x, i)
parse_lit _ = none

abbrev pub parse_outer : Trees → Option (List Attribute × Trees)
parse_outer (then_ (attribute n) i) =
    parse_outer i >>= λ (p : List Attribute × Trees). some (some n ∷ p.0, p.1)
parse_outer i = some ([], i)

abbrev pub parenthesized : Trees → Option (Trees × Trees)
parenthesized (then_ (parens a) i) = some (a, i)
parenthesized _ = none

abbrev pub bracketed : Trees → Option (Trees × Trees)
bracketed (then_ (brackets a) i) = some (a, i)
bracketed _ = none

abbrev pub size : Trees → ℕ
size done = 0
size (then_ t i) = suc (size i)

-- What follows an element of a list: the end, or a comma and the others.
abbrev pub behind : {A : Type 0} → (Trees → Option (List A)) → A × Trees → Option (List A)
behind again (a, done) = some (a ∷ [])
behind again (a, then_ (token comma) i) = again i >>= λ xs. some (a ∷ xs)
behind again _ = none

abbrev pub terminated : {A : Type 0} → (Trees → Option (A × Trees)) → ℕ → Trees → Option (List A)
terminated parse zero i = none
terminated parse (suc fuel) done = some []
terminated parse (suc fuel) (then_ t i) = parse (then_ t i) >>= behind (terminated parse fuel)

abbrev pub whole : {A : Type 0} → A × Trees → Option A
whole (a, done) = some a
whole (a, then_ t i) = none

abbrev pub stream : ParseStream Trees Register ℕ OutputType
stream = record {
  peek = peek;
  peek_paren = peek_paren;
  parse_token = parse_token;
  parse_ident = parse_ident;
  parse_expr = parse_expr;
  parse_type = parse_type;
  parse_tuple = parse_tuple;
  parse_lit = parse_lit;
  base10_parse = λ (bits n : ℕ). if ltb n (2 ^ bits) then some n else none;
  parse_outer = parse_outer;
  parenthesized = parenthesized;
  bracketed = bracketed;
  parse_terminated = λ {A} parse i. terminated {A = A} parse (suc (size i)) i;
  parse_macro_input = λ {A} parse i. parse i >>= whole;
}

abbrev pub put_terminated : {A : Type 0} → (A → Trees → Trees) → List A → Trees
put_terminated put [] = done
put_terminated put (a ∷ []) = put a done
put_terminated put (a ∷ b ∷ xs) = put a (then_ (token comma) (put_terminated put (b ∷ xs)))

terminated_some :
    {A : Type 0} (parse : Trees → Option (A × Trees)) (fuel : ℕ) (i : Trees)
    → 0 < size i
    → terminated parse (suc fuel) i ≡ (parse i >>= behind (terminated parse fuel))
terminated_some parse fuel done h = elim h [ ]
terminated_some parse fuel (then_ t i) h = refl

pub terminated_back :
    {A : Type 0} (parse : Trees → Option (A × Trees)) (put : A → Trees → Trees)
    → ((a : A) (i : Trees) → Follows i → parse (put a i) ≡ some (a, i))
    → ((a : A) (i : Trees) → size i < size (put a i))
    → (list : List A) (fuel : ℕ) → size (put_terminated put list) < fuel
    → terminated parse fuel (put_terminated put list) ≡ some list
terminated_back parse put read grows list zero h = absurd (omega arith)
terminated_back parse put read grows [] (suc fuel) h = refl
terminated_back parse put read grows (a ∷ []) (suc fuel) h =
    rw (terminated_some parse fuel (put a done) (omega (arith, grows a done)), read a done tt) refl
terminated_back parse put read grows (a ∷ b ∷ xs) (suc fuel) h =
    let rest = then_ (token comma) (put_terminated put (b ∷ xs)) in
    let later = terminated_back parse put read grows (b ∷ xs) fuel (omega (arith, grows a rest)) in
    rw (terminated_some parse fuel (put a rest) (omega (arith, grows a rest)), read a rest tt)
      (rw later refl)

pub token_back : (t : Token) (i : Trees) → parse_token t (then_ (token t) i) ≡ some i
token_back t i = ground arith

pub peek_back : (t : Token) (i : Trees) → peek t (then_ (token t) i) ≡ true
peek_back t i = ground arith

pub parsed_fits : (bits n : ℕ) → n < 2 ^ bits → stream.base10_parse bits n ≡ some n
parsed_fits bits n h = ground arith

pub parsed_over : (bits n : ℕ) → 2 ^ bits ≤ n → stream.base10_parse bits n ≡ none
parsed_over bits n h = ground arith

pub no_arrow_behind : (i : Trees) → Follows i → peek arrow i ≡ false
no_arrow_behind done h = refl
no_arrow_behind (then_ (token comma) i) h = refl
no_arrow_behind (then_ (token underscore) i) h = elim h [ ]
no_arrow_behind (then_ (token arrow) i) h = elim h [ ]
no_arrow_behind (then_ (token colon) i) h = elim h [ ]
no_arrow_behind (then_ (token bang) i) h = elim h [ ]
no_arrow_behind (then_ (ident _) i) h = elim h [ ]
no_arrow_behind (then_ (expr _) i) h = elim h [ ]
no_arrow_behind (then_ (type_ _) i) h = elim h [ ]
no_arrow_behind (then_ (tuple _) i) h = elim h [ ]
no_arrow_behind (then_ (lit _) i) h = elim h [ ]
no_arrow_behind (then_ (attribute _) i) h = elim h [ ]
no_arrow_behind (then_ (parens _) i) h = elim h [ ]
no_arrow_behind (then_ (brackets _) i) h = elim h [ ]

abbrev pub written : Written stream
written = record {
  put_nothing = done;
  put_token = λ t i. then_ (token t) i;
  put_ident = λ x i. then_ (ident x) i;
  put_expr = λ e i. then_ (expr e) i;
  put_type = λ t i. then_ (type_ t) i;
  put_tuple = λ ts i. then_ (tuple ts) i;
  put_lit = λ n i. then_ (lit n) i;
  put_attribute = λ n i. then_ (attribute n) i;
  put_parens = λ a i. then_ (parens a) i;
  put_brackets = λ a i. then_ (brackets a) i;
  put_terminated = put_terminated;
  size = size;
  token_read = token_back;
  ident_read = λ x i. refl;
  expr_read = λ e i h. refl;
  type_read = λ t i h. refl;
  tuple_read = λ ts i. refl;
  lit_read = λ n i. refl;
  base10_fits = parsed_fits;
  base10_over = parsed_over;
  parens_read = λ a i. refl;
  brackets_read = λ a i. refl;
  no_attribute = λ x i. refl;
  one_attribute = λ n x i. refl;
  terminated_read = λ parse put read grows list.
      terminated_back parse put read grows list (suc (size (put_terminated put list)))
        (omega arith);
  Follows = Follows;
  nothing_follows = tt;
  comma_follows = λ i. tt;
  no_arrow = no_arrow_behind;
  whole_read = λ parse a i h. ap (λ t. t >>= whole) h;
  peek_token = peek_back;
  peek_ident = λ t x i. refl;
  peek_attribute = λ t n i. refl;
  peek_type = λ t ty i. refl;
  paren_tuple = λ ts i. refl;
  paren_token = λ t i. refl;
  paren_type = λ t i. refl;
  token_size = λ t i. omega arith;
  ident_size = λ x i. omega arith;
  expr_size = λ e i. omega arith;
  attribute_size = λ n i. omega arith;
}
