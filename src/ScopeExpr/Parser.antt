-- ===== src/ScopeExpr/Parser.antt =====
-- packages/workflow/src/graph-engine/scope-expr.ts: `Parser` and `parseScopeExpression`. A method
-- of the parser takes the tokens that are left, and returns an expression and those behind it.
use Prim.Native.Char.{code}
use ai_orchestration.Prelude.{
  ℕ, zero, suc, ◌+◌, ◌*◌, ◌==◌, String, true, false, List, [], ◌∷◌, if◌then◌else◌, length, str_eq,
  Thrown, ok, throw, ◌>>=◌,
}
use ai_orchestration.Value.{Value}
use ai_orchestration.ScopeExpr.Lexer.{
  Token, ident, string, number, op, lparen, rparen, eof, Op, eq, ne, and, or, not, ScopeError,
  unexpected_trailing, missing_rparen, unexpected_token, out_of_fuel, tokenize,
}

pub data Expr : Type 0 where
  literal : Value → Expr
  ref : List String → Expr
  negation : Expr → Expr
  binary : Op → Expr → Expr → Expr

-- `text.split('.')`
abbrev to_head : String → List String → List String
to_head s [] = s ∷ []
to_head s (x ∷ xs) = s ∷ xs

unfoldable pub split_dots : String → List String
split_dots String.[] = String.[] ∷ []
split_dots (String.◌∷◌ c s) =
    let parts = split_dots s in
    if code c == b'.'
    then String.[] ∷ parts
    else elim parts [ [] ↦ [] | p ∷ ps ↦ String.◌∷◌ c p ∷ ps ]

pub data Parsed : Type 0 where
  parsed : Expr → List Token → Parsed
  failed : ScopeError → Parsed

abbrev then_parse : Parsed → (Expr → List Token → Parsed) → Parsed
then_parse (parsed e ts) k = k e ts
then_parse (failed e) k = failed e

-- The token of an operand that is one token.
atom : List Token → Parsed
unfolding split_dots
atom [] = failed unexpected_token
atom (string s ∷ ts) = parsed (literal (Value.string s)) ts
atom (number n ∷ ts) = parsed (literal (Value.number n)) ts
atom (ident s ∷ ts) =
    if str_eq s "true"
    then parsed (literal (Value.boolean true)) ts
    else if str_eq s "false"
    then parsed (literal (Value.boolean false)) ts
    else parsed (ref (split_dots s)) ts
atom (t ∷ ts) = failed unexpected_token

close : Expr → List Token → Parsed
close e (rparen ∷ ts) = parsed e ts
close e ts = failed missing_rparen

unfoldable mutual
  unfolding atom close

  pub parse_or : ℕ → List Token → Parsed
  parse_or zero ts = failed out_of_fuel
  parse_or (suc fuel) ts = then_parse (parse_and fuel ts) (or_rest fuel)

  pub or_rest : ℕ → Expr → List Token → Parsed
  or_rest zero left ts = failed out_of_fuel
  or_rest (suc fuel) left (op or ∷ ts) =
      then_parse (parse_and fuel ts) (λ right rest. or_rest fuel (binary or left right) rest)
  or_rest (suc fuel) left ts = parsed left ts

  pub parse_and : ℕ → List Token → Parsed
  parse_and zero ts = failed out_of_fuel
  parse_and (suc fuel) ts = then_parse (parse_equality fuel ts) (and_rest fuel)

  pub and_rest : ℕ → Expr → List Token → Parsed
  and_rest zero left ts = failed out_of_fuel
  and_rest (suc fuel) left (op and ∷ ts) =
      then_parse (parse_equality fuel ts) (λ right rest. and_rest fuel (binary and left right) rest)
  and_rest (suc fuel) left ts = parsed left ts

  pub parse_equality : ℕ → List Token → Parsed
  parse_equality zero ts = failed out_of_fuel
  parse_equality (suc fuel) ts = then_parse (parse_unary fuel ts) (equality_rest fuel)

  pub equality_rest : ℕ → Expr → List Token → Parsed
  equality_rest zero left ts = failed out_of_fuel
  equality_rest (suc fuel) left (op eq ∷ ts) =
      then_parse (parse_unary fuel ts)
        (λ right rest. equality_rest fuel (binary eq left right) rest)
  equality_rest (suc fuel) left (op ne ∷ ts) =
      then_parse (parse_unary fuel ts)
        (λ right rest. equality_rest fuel (binary ne left right) rest)
  equality_rest (suc fuel) left ts = parsed left ts

  pub parse_unary : ℕ → List Token → Parsed
  parse_unary zero ts = failed out_of_fuel
  parse_unary (suc fuel) (op not ∷ ts) =
      then_parse (parse_unary fuel ts) (λ operand rest. parsed (negation operand) rest)
  parse_unary (suc fuel) ts = parse_primary fuel ts

  pub parse_primary : ℕ → List Token → Parsed
  parse_primary zero ts = failed out_of_fuel
  parse_primary (suc fuel) (lparen ∷ ts) = then_parse (parse_or fuel ts) close
  parse_primary (suc fuel) ts = atom ts

-- Five calls lead from `parse_or` to a token, so this fuel is never used up.
abbrev pub enough_for : List Token → ℕ
enough_for ts = 6 * length ts + 6

finish : Parsed → Thrown ScopeError Expr
finish (failed e) = throw e
finish (parsed e (eof ∷ ts)) = ok e
finish (parsed e ts) = throw unexpected_trailing

unfoldable pub parse_scope_expression : String → Thrown ScopeError Expr
unfolding finish parse_or tokenize
parse_scope_expression source = do ts ← tokenize source; finish (parse_or (enough_for ts) ts)
