-- ===== src/StepExpr/Template.antt =====
-- packages/workflow/src/expressions.ts: `INTERPOLATION_PATTERN`, `stringifyValue`, `interpolate` and
-- `interpolateForShell`. `JSON.stringify` is a parameter.
use Prim.Native.Char.{Char, code}
use Prim.Native.Nat.{◌/◌, ◌%◌}
use Prim.Native.String.{◌++◌}
use ai_orchestration.Prelude.{
  ℕ, zero, suc, ◌-◌, ◌==◌, ltb, String, Bool, ◌&&◌, Option, none, some, List, [], ◌∷◌,
  if◌then◌else◌, any, Thrown, ok, ◌>>=◌,
}
use ai_orchestration.Prelude.Dict.{Dict, insert}
use ai_orchestration.Value.{Value, undefined, null, string}
use ai_orchestration.ScopeExpr.Lexer.{text_length, is_space}
use ai_orchestration.StepExpr.Tokens.{ExpressionError}
use ai_orchestration.StepExpr.Parser.{parse_expression}
use ai_orchestration.StepExpr.Eval.{ExpressionContext, evaluate}

-- `\s*`
skip_spaces : String → String
unfolding is_space
skip_spaces String.[] = String.[]
skip_spaces (String.◌∷◌ c s) =
    let rest = skip_spaces s in if is_space (code c) then rest else String.◌∷◌ c s

-- The text behind `}}`.
behind_braces : String → Option String
behind_braces (String.◌∷◌ c (String.◌∷◌ d s)) =
    if code c == b'}' && code d == b'}' then some s else none
behind_braces _ = none

-- `.` matches no line terminator.
is_line_end : ℕ → Bool
is_line_end c = any (λ k. k == c) (0xa ∷ 0xd ∷ 0x2028 ∷ 0x2029 ∷ [])

abbrev in_front : Char → Option (String × String) → Option (String × String)
in_front c none = none
in_front c (some (content, rest)) = some (String.◌∷◌ c content, rest)

-- `(.*?)\s*\}\}`: the shortest text that the closing braces stand behind, and what follows them.
to_braces : String → Option (String × String)
unfolding skip_spaces behind_braces is_line_end
to_braces String.[] = none
to_braces (String.◌∷◌ c s) =
    let longer = to_braces s in
    elim (behind_braces (skip_spaces (String.◌∷◌ c s))) [
      | some rest ↦ some (String.[], rest)
      | none ↦ if is_line_end (code c) then none else in_front c longer
    ]

-- The placeholder that starts at this place, as its expression and what follows it.
hole_at : String → Option (String × String)
unfolding skip_spaces to_braces
hole_at (String.◌∷◌ c (String.◌∷◌ d (String.◌∷◌ e s))) =
    if code c == b'$' && (code d == b'{' && code e == b'{') then to_braces (skip_spaces s) else none
hole_at _ = none

pub data Segment : Type 0 where
  plain : Char → Segment
  hole : String → Segment

-- The matches of the pattern from the left, none within another: `skip` characters belong to the
-- placeholder in front.
unfoldable pub segments_from : ℕ → String → List Segment
unfolding hole_at text_length
segments_from skip String.[] = []
segments_from (suc skip) (String.◌∷◌ c s) = segments_from skip s
segments_from zero (String.◌∷◌ c s) = elim (hole_at (String.◌∷◌ c s)) [
  | none ↦ plain c ∷ segments_from 0 s
  | some (source, rest) ↦ hole source ∷ segments_from (text_length s - text_length rest) s
]

unfoldable pub segments : String → List Segment
unfolding segments_from
segments template = segments_from 0 template

-- The decimal digits of a number, in front of a text. Every digit takes one of the fuel.
unfoldable pub digit : ℕ → Char
digit n =
    if n == 0
    then "0"
    else if n == 1
    then "1"
    else if n == 2
    then "2"
    else if n == 3
    then "3"
    else if n == 4
    then "4"
    else if n == 5
    then "5"
    else if n == 6
    then "6"
    else if n == 7
    then "7"
    else if n == 8
    then "8"
    else "9"

unfoldable pub digits_before : ℕ → ℕ → String → String
unfolding digit
digits_before zero n s = s
digits_before (suc fuel) n s =
    let this = String.◌∷◌ (digit (n % 10)) s in
    if ltb n 10 then this else digits_before fuel (n / 10) this

unfoldable pub decimal_text : ℕ → String
unfolding digits_before
decimal_text n = digits_before (suc n) n ""

-- `OVERTURE_VAR_${nextIndex}`
unfoldable pub var_name : ℕ → String
unfolding decimal_text
var_name n = "OVERTURE_VAR_" ++ decimal_text n

unfoldable pub reference_to : String → String
reference_to name = "\"$" ++ (name ++ "\"")

module _ (json : Value → String) where
  unfoldable pub stringify_value : Value → String
  stringify_value undefined = ""
  stringify_value null = ""
  stringify_value (string s) = s
  stringify_value v = json v

  -- What both callbacks compute of a placeholder.
  unfoldable pub resolve : ExpressionContext → String → Thrown ExpressionError String
  unfolding parse_expression evaluate stringify_value
  resolve ctx source = do e ← parse_expression source; v ← evaluate e ctx; ok (stringify_value v)

  unfoldable pub splice : ExpressionContext → List Segment → Thrown ExpressionError String
  unfolding resolve
  splice ctx [] = ok ""
  splice ctx (plain c ∷ rest) = do s ← splice ctx rest; ok (String.◌∷◌ c s)
  splice ctx (hole source ∷ rest) = do v ← resolve ctx source; s ← splice ctx rest; ok (v ++ s)

  unfoldable pub interpolate : String → ExpressionContext → Thrown ExpressionError String
  unfolding segments splice
  interpolate template ctx = splice ctx (segments template)

  -- The callback's variables are `nextIndex` and `env`.
  unfoldable pub indirect :
      ExpressionContext
      → ℕ
      → Dict String
      → List Segment
      → Thrown ExpressionError (String × Dict String)
  unfolding resolve var_name reference_to
  indirect ctx index env [] = ok ("", env)
  indirect ctx index env (plain c ∷ rest) = do
    r ← indirect ctx index env rest
    ok (String.◌∷◌ c r.0, r.1)
  indirect ctx index env (hole source ∷ rest) = do
    v ← resolve ctx source
    r ← indirect ctx (suc index) (insert (var_name index) v env) rest
    ok (reference_to (var_name index) ++ r.0, r.1)

  unfoldable pub interpolate_for_shell :
      String → ExpressionContext → Thrown ExpressionError (String × Dict String)
  unfolding segments indirect
  interpolate_for_shell template ctx = indirect ctx 0 [] (segments template)
