-- ===== src/StepExpr/Parser.antt =====
-- packages/workflow/src/expressions.ts: `parseReference` and `parseExpression`. A function of the
-- parser takes the tokens that are left, and returns an expression and those behind it.
use ai_orchestration.Prelude.{
  ℕ, zero, suc, ◌+◌, ◌*◌, String, Bool, true, false, ◌||◌, List, [], ◌∷◌, if◌then◌else◌, length,
  str_eq, Thrown, ok, throw, ◌>>=◌,
}
use ai_orchestration.Value.{Decimal}
use ai_orchestration.ScopeExpr.Lexer.{Op, eq, ne, and, or, not, decimal_of}
use ai_orchestration.ScopeExpr.Parser.{split_dots}
use ai_orchestration.StepExpr.Tokens.{
  Token, ident, string, number, op, lparen, rparen, eof, ExpressionError, unexpected_trailing,
  missing_rparen, unexpected_token, invalid_reference, unknown_reference, out_of_fuel, tokenize,
}

-- `nan` is the number that `Number` makes of a text with two points.
pub data Literal : Type 0 where
  text : String → Literal
  decimal : Decimal → Literal
  nan : Literal
  flag : Bool → Literal

pub data StepField : Type 0 where
  succeeded failed skipped status : StepField

pub data Expression : Type 0 where
  literal : Literal → Expression
  var : String → Expression
  step_field : (step_id : String) → StepField → Expression
  step_output : (step_id key : String) → Expression
  unary : Expression → Expression
  binary : Op → Expression → Expression → Expression

-- `Number(token.value)`
number_of : List String → Literal
unfolding decimal_of
number_of (whole ∷ []) = decimal (decimal_of whole "")
number_of (whole ∷ fraction ∷ []) = decimal (decimal_of whole fraction)
number_of _ = nan

-- `STEP_FIELDS.has(part)`, with the field.
unfoldable pub field_of : String → List StepField
field_of part =
    if str_eq part "succeeded"
    then succeeded ∷ []
    else if str_eq part "failed"
    then failed ∷ []
    else if str_eq part "skipped"
    then skipped ∷ []
    else if str_eq part "status"
    then status ∷ []
    else []

unfoldable pub vars_reference : String → List String → Thrown ExpressionError Expression
vars_reference path (name ∷ []) =
    if str_eq name "" then throw (invalid_reference path) else ok (var name)
vars_reference path _ = throw (invalid_reference path)

unfoldable pub field_reference :
    String → String → List StepField → Thrown ExpressionError Expression
field_reference path id [] = throw (invalid_reference path)
field_reference path id (f ∷ _) =
    if str_eq id "" then throw (invalid_reference path) else ok (step_field id f)

unfoldable pub steps_reference : String → List String → Thrown ExpressionError Expression
unfolding field_of field_reference
steps_reference path (id ∷ field ∷ []) = field_reference path id (field_of field)
steps_reference path (id ∷ outputs ∷ key ∷ []) =
    if str_eq id "" || str_eq key ""
    then throw (invalid_reference path)
    else if str_eq outputs "outputs"
    then ok (step_output id key)
    else throw (invalid_reference path)
steps_reference path _ = throw (invalid_reference path)

-- The tests of the first part.
unfoldable pub reference_of : String → List String → Thrown ExpressionError Expression
unfolding vars_reference steps_reference
reference_of path [] = throw (unknown_reference path)
reference_of path (first ∷ parts) =
    if str_eq first "vars"
    then vars_reference path parts
    else if str_eq first "steps"
    then steps_reference path parts
    else throw (unknown_reference path)

unfoldable pub parse_reference : String → Thrown ExpressionError Expression
unfolding split_dots reference_of
parse_reference path = reference_of path (split_dots path)

pub data Parsed : Type 0 where
  parsed : Expression → List Token → Parsed
  threw : ExpressionError → Parsed

abbrev pub then_parse : Parsed → (Expression → List Token → Parsed) → Parsed
then_parse (parsed e ts) k = k e ts
then_parse (threw e) k = threw e

with_rest : List Token → Thrown ExpressionError Expression → Parsed
with_rest ts (ok e) = parsed e ts
with_rest ts (throw e) = threw e

-- `parsePrimary` on an operand that is one token.
unfoldable pub atom : List Token → Parsed
unfolding number_of split_dots parse_reference with_rest
atom [] = threw unexpected_token
atom (string s ∷ ts) = parsed (literal (text s)) ts
atom (number n ∷ ts) = parsed (literal (number_of (split_dots n))) ts
atom (ident s ∷ ts) =
    if str_eq s "true"
    then parsed (literal (flag true)) ts
    else if str_eq s "false"
    then parsed (literal (flag false)) ts
    else with_rest ts (parse_reference s)
atom (t ∷ ts) = threw unexpected_token

unfoldable pub close : Expression → List Token → Parsed
close e (rparen ∷ ts) = parsed e ts
close e ts = threw missing_rparen

unfoldable mutual
  unfolding atom close

  pub parse_or : ℕ → List Token → Parsed
  parse_or zero ts = threw out_of_fuel
  parse_or (suc fuel) ts = then_parse (parse_and fuel ts) (or_rest fuel)

  pub or_rest : ℕ → Expression → List Token → Parsed
  or_rest zero left ts = threw out_of_fuel
  or_rest (suc fuel) left (op or ∷ ts) =
      then_parse (parse_and fuel ts) (λ right rest. or_rest fuel (binary or left right) rest)
  or_rest (suc fuel) left ts = parsed left ts

  pub parse_and : ℕ → List Token → Parsed
  parse_and zero ts = threw out_of_fuel
  parse_and (suc fuel) ts = then_parse (parse_equality fuel ts) (and_rest fuel)

  pub and_rest : ℕ → Expression → List Token → Parsed
  and_rest zero left ts = threw out_of_fuel
  and_rest (suc fuel) left (op and ∷ ts) =
      then_parse (parse_equality fuel ts) (λ right rest. and_rest fuel (binary and left right) rest)
  and_rest (suc fuel) left ts = parsed left ts

  pub parse_equality : ℕ → List Token → Parsed
  parse_equality zero ts = threw out_of_fuel
  parse_equality (suc fuel) ts = then_parse (parse_unary fuel ts) (equality_rest fuel)

  pub equality_rest : ℕ → Expression → List Token → Parsed
  equality_rest zero left ts = threw out_of_fuel
  equality_rest (suc fuel) left (op eq ∷ ts) =
      then_parse (parse_unary fuel ts)
        (λ right rest. equality_rest fuel (binary eq left right) rest)
  equality_rest (suc fuel) left (op ne ∷ ts) =
      then_parse (parse_unary fuel ts)
        (λ right rest. equality_rest fuel (binary ne left right) rest)
  equality_rest (suc fuel) left ts = parsed left ts

  pub parse_unary : ℕ → List Token → Parsed
  parse_unary zero ts = threw out_of_fuel
  parse_unary (suc fuel) (op not ∷ ts) =
      then_parse (parse_unary fuel ts) (λ operand rest. parsed (unary operand) rest)
  parse_unary (suc fuel) ts = parse_primary fuel ts

  pub parse_primary : ℕ → List Token → Parsed
  parse_primary zero ts = threw out_of_fuel
  parse_primary (suc fuel) (lparen ∷ ts) = then_parse (parse_or fuel ts) close
  parse_primary (suc fuel) ts = atom ts

abbrev pub enough_for : List Token → ℕ
enough_for ts = 6 * length ts + 6

unfoldable pub finish : Parsed → Thrown ExpressionError Expression
finish (threw e) = throw e
finish (parsed e (eof ∷ ts)) = ok e
finish (parsed e ts) = throw unexpected_trailing

unfoldable pub parse_expression : String → Thrown ExpressionError Expression
unfolding finish parse_or tokenize
parse_expression source = do ts ← tokenize source; finish (parse_or (enough_for ts) ts)
