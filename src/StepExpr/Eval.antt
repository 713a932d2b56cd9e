-- ===== src/StepExpr/Eval.antt =====
-- packages/workflow/src/expressions.ts: `statusFor` and `evaluateExpression`. The variables and a step's outputs are plain objects, which also have
-- the members that every object inherits.
use ai_orchestration.Prelude.{
  String, Bool, true, false, Option, none, some, ◌∷◌, Thrown, ok, throw, ◌>>=◌, ◌==◌, str_eq,
}
use ai_orchestration.Prelude.Dict.{Dict, lookup}
use mathlib.Core.Bool.{not as bool_not}
use ai_orchestration.Workflow.{StepResult, StepStatus, pending, running}
use ai_orchestration.Value.{Value, Fields, undefined, null, boolean, number, string, inherited}
use ai_orchestration.ScopeExpr.Lexer.{eq, and, or}
use ai_orchestration.ScopeExpr.Eval.{strict_eq, own_field, inherited_member, object_members}
use ai_orchestration.StepExpr.Tokens.{ExpressionError, unknown_variable, unknown_step}
use ai_orchestration.StepExpr.Parser.{
  Literal, text, decimal, nan, flag, StepField, Expression, literal, var, step_field, step_output,
  unary, binary,
}

pub record ExpressionContext : Type 0 where
  pub steps : Dict StepResult
  pub vars : Fields

-- `name in object`, with the member.
own_or_inherited : Option Value → Value → Option Value
own_or_inherited (some v) w = some v
own_or_inherited none (inherited name) = some (inherited name)
own_or_inherited none _ = none

find_member : String → Fields → Option Value
unfolding own_or_inherited own_field inherited_member
find_member name fields =
    own_or_inherited (own_field name fields)
      (inherited_member ("constructor" ∷ "__proto__" ∷ object_members) name)

known_variable : String → Option Value → Thrown ExpressionError Value
known_variable name none = throw (unknown_variable name)
known_variable name (some v) = ok v

known_step : String → Option StepResult → Thrown ExpressionError StepResult
known_step id none = throw (unknown_step id)
known_step id (some r) = ok r

abbrev pub is_succeeded : StepStatus → Bool
is_succeeded StepStatus.succeeded = true
is_succeeded _ = false

abbrev pub is_failed : StepStatus → Bool
is_failed StepStatus.failed = true
is_failed _ = false

abbrev pub is_skipped : StepStatus → Bool
is_skipped StepStatus.skipped = true
is_skipped _ = false

abbrev pub status_name : StepStatus → String
status_name pending = "pending"
status_name running = "running"
status_name StepStatus.succeeded = "succeeded"
status_name StepStatus.failed = "failed"
status_name StepStatus.skipped = "skipped"

field_value : StepField → StepStatus → Value
field_value StepField.status s = string (status_name s)
field_value StepField.succeeded s = boolean (is_succeeded s)
field_value StepField.failed s = boolean (is_failed s)
field_value StepField.skipped s = boolean (is_skipped s)

output_value : Option Value → Value
output_value none = undefined
output_value (some v) = v

literal_value : Literal → Value
literal_value (text s) = string s
literal_value (decimal n) = number n
literal_value nan = Value.nan
literal_value (flag b) = boolean b

-- `Boolean(value)`
unfoldable pub to_boolean : Value → Bool
to_boolean (boolean b) = b
to_boolean undefined = false
to_boolean null = false
to_boolean (number n) = bool_not (n.digits == 0)
to_boolean Value.nan = false
to_boolean (string s) = bool_not (str_eq s "")
to_boolean _ = true

-- The right side of `&&` and `||` is evaluated, and can throw, only behind a left side that does
-- not decide.
unfoldable pub evaluate : Expression → ExpressionContext → Thrown ExpressionError Value
unfolding literal_value find_member known_variable known_step field_value output_value to_boolean
    strict_eq
evaluate (literal l) ctx = ok (literal_value l)
evaluate (var name) ctx = known_variable name (find_member name ctx.vars)
evaluate (step_field id f) ctx = do
  r ← known_step id (lookup id ctx.steps)
  ok (field_value f r.status)
evaluate (step_output id key) ctx = do
  r ← known_step id (lookup id ctx.steps)
  ok (output_value (find_member key r.outputs))
evaluate (unary operand) ctx = do v ← evaluate operand ctx; ok (boolean (bool_not (to_boolean v)))
evaluate (binary and left right) ctx = do
  l ← evaluate left ctx
  elim (to_boolean l) [
    | true ↦ evaluate right ctx >>= (λ r. ok (boolean (to_boolean r)))
    | false ↦ ok (boolean false)
  ]
evaluate (binary or left right) ctx = do
  l ← evaluate left ctx
  elim (to_boolean l) [
    | true ↦ ok (boolean true)
    | false ↦ evaluate right ctx >>= (λ r. ok (boolean (to_boolean r)))
  ]
evaluate (binary eq left right) ctx = do
  l ← evaluate left ctx
  r ← evaluate right ctx
  ok (boolean (strict_eq l r))
evaluate (binary _ left right) ctx = do
  l ← evaluate left ctx
  r ← evaluate right ctx
  ok (boolean (bool_not (strict_eq l r)))
