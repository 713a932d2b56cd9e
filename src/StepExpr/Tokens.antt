-- ===== src/StepExpr/Tokens.antt =====
-- packages/workflow/src/expressions.ts: `tokenize`.
use Prim.Native.Char.{Char, code}
use ai_orchestration.Prelude.{
  ℕ, zero, suc, ◌==◌, String, Bool, ◌||◌, Option, none, some, List, [], ◌∷◌, if◌then◌else◌, Thrown,
  ok, throw,
}
use ai_orchestration.ScopeExpr.Lexer.{
  Op, not, is_digit, is_letter, span, to_quote, text_length, two_ops,
}

-- A number token keeps its text, as the source does.
pub data Token : Type 0 where
  ident : String → Token
  string : String → Token
  number : String → Token
  op : Op → Token
  lparen rparen eof : Token

-- `ExpressionSyntaxError` and `ExpressionEvaluationError`, by their message, without the position.
-- `out_of_fuel` is the model's own.
pub data ExpressionError : Type 0 where
  unterminated_string unexpected_character : ExpressionError
  unexpected_trailing missing_rparen unexpected_token : ExpressionError
  invalid_reference unknown_reference : String → ExpressionError
  unknown_variable unknown_step : String → ExpressionError
  out_of_fuel : ExpressionError

-- `' '`, `'\t'`, `'\n'` and `'\r'`
unfoldable pub is_blank : ℕ → Bool
is_blank c = c == 0x20 || (c == 0x9 || (c == 0xa || c == 0xd))

-- `/[0-9.]/`
unfoldable pub is_number_char : ℕ → Bool
unfolding is_digit
is_number_char c = is_digit c || c == b'.'

-- `/[A-Za-z0-9_.]/`
unfoldable pub is_ident_char : ℕ → Bool
unfolding is_letter is_digit
is_ident_char c = is_letter c || (is_digit c || c == b'.')

-- One round of the loop: it ends, skips, pushes a token or throws.
pub data Round : Type 0 where
  done : Round
  skip : String → Round
  push : Token → String → Round
  fail : ExpressionError → Round

unfoldable pub quoted : Option (String × String) → Round
quoted none = fail unterminated_string
quoted (some (text, rest)) = push (string text) rest

-- The tests behind the two-character operators, for a character and the text behind it.
unfoldable pub one_char : Char → String → Round
unfolding to_quote quoted is_digit is_number_char is_letter is_ident_char span
one_char c s =
    if code c == b'!'
    then push (op not) s
    else if is_digit (code c)
    then (let (text, rest) = span is_number_char (String.◌∷◌ c s) in push (number text) rest)
    else if is_letter (code c)
    then (let (word, rest) = span is_ident_char (String.◌∷◌ c s) in push (ident word) rest)
    else fail unexpected_character

unfoldable pub round : String → Round
unfolding is_blank to_quote quoted two_ops one_char
round String.[] = done
round (String.◌∷◌ c s) =
    if is_blank (code c)
    then skip s
    else if code c == b'('
    then push lparen s
    else if code c == b')'
    then push rparen s
    else if code c == 0x27
    then quoted (to_quote s)
    else elim (two_ops (code c) s) [ some (o, rest) ↦ push (op o) rest | none ↦ one_char c s ]

abbrev pub prepend :
    Token → Thrown ExpressionError (List Token) → Thrown ExpressionError (List Token)
prepend t (ok ts) = ok (t ∷ ts)
prepend t (throw e) = throw e

-- The loop. Every round but the last takes a character.
unfoldable pub tokens : ℕ → String → Thrown ExpressionError (List Token)
unfolding round
tokens zero s = throw out_of_fuel
tokens (suc fuel) s = elim (round s) [
  | done ↦ ok (eof ∷ [])
  | skip rest ↦ tokens fuel rest
  | push t rest ↦ prepend t (tokens fuel rest)
  | fail e ↦ throw e
]

unfoldable pub tokenize : String → Thrown ExpressionError (List Token)
unfolding tokens text_length
tokenize s = tokens (suc (text_length s)) s
