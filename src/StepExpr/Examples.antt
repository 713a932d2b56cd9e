-- ===== src/StepExpr/Examples.antt =====
-- Expressions and templates of the shapes that workflows write.
use ai_orchestration.Prelude.{◌≡◌, refl, String, true, none, ok, throw, [], ◌∷◌, ◌>>=◌}
use ai_orchestration.Value.{Value, field, end, string, boolean}
use ai_orchestration.Workflow.{StepResult, StepStatus}
use ai_orchestration.StepExpr.Tokens.{unknown_variable}
use ai_orchestration.StepExpr.Eval.{ExpressionContext}
use ai_orchestration.StepExpr.Template.{segments, resolve, interpolate, interpolate_for_shell}
use ai_orchestration.Prelude.{str_eq}
use ai_orchestration.Prelude.Dict.{Dict, lookup, insert}
use ai_orchestration.StepExpr.Fuel.{no_fuel_error}
use ai_orchestration.StepExpr.Scan.{parse_expression-ends}
use ai_orchestration.StepExpr.Parser.{parse_expression}
use ai_orchestration.StepExpr.Shell.{
  referenced, Carries, expand, interpolate_for_shell-eq-ok, interpolate-interpolate_for_shell,
}

abbrev plain_json : Value → String
plain_json v = "{}"

abbrev review : StepResult
review = record {
  step_id = "review";
  status = StepStatus.failed;
  outputs = field "title" (string "a `b`") end;
  error = none;
  started_at = none;
  finished_at = none;
}

abbrev context : ExpressionContext
context = record {
  steps = ("review", review) ∷ [];
  vars = field "name" (string "x; rm") (field "dry" (boolean true) end);
}

spliced :
    interpolate plain_json "echo ${{ vars.name }} ${{steps.review.outputs.title}}." context
    ≡ ok "echo x; rm a `b`."
unfolding interpolate str_eq lookup
spliced = refl

indirect :
    interpolate_for_shell plain_json "echo ${{ vars.name }} ${{steps.review.outputs.title}}."
      context
    ≡ ok (
      "echo \"$OVERTURE_VAR_0\" \"$OVERTURE_VAR_1\".",
      ("OVERTURE_VAR_0", "x; rm") ∷ ("OVERTURE_VAR_1", "a `b`") ∷ [],
    )
unfolding interpolate_for_shell str_eq lookup insert
indirect = refl

lazy_or : resolve plain_json context "steps.review.failed || vars.missing" ≡ ok "{}"
unfolding resolve str_eq lookup
lazy_or = refl

unknown :
    resolve plain_json context "vars.missing || steps.review.failed"
    ≡ throw (unknown_variable "missing")
unfolding resolve str_eq lookup
unknown = refl

abbrev shell_result : String × Dict String
shell_result = (
  "echo \"$OVERTURE_VAR_0\" \"$OVERTURE_VAR_1\".",
  ("OVERTURE_VAR_0", "x; rm") ∷ ("OVERTURE_VAR_1", "a `b`") ∷ [],
)

abbrev template : String
template = "echo ${{ vars.name }} ${{steps.review.outputs.title}}."

interpolate_for_shell-eq-ok_example :
    (shell_result.0 ≡ referenced 0 (segments template))
    × Carries plain_json context 0 (segments template) shell_result.1
interpolate_for_shell-eq-ok_example =
    interpolate_for_shell-eq-ok plain_json template context shell_result indirect

interpolate-interpolate_for_shell_example : interpolate plain_json template context ≡ (
    interpolate_for_shell plain_json template context
    >>= (λ r. ok (expand 0 (segments template) r.1)))
interpolate-interpolate_for_shell_example =
    interpolate-interpolate_for_shell plain_json template context

abbrev other : ExpressionContext
other = record context { vars = field "name" (string "$(reboot)") end }

abbrev other_result : String × Dict String
other_result = (
  "echo \"$OVERTURE_VAR_0\" \"$OVERTURE_VAR_1\".",
  ("OVERTURE_VAR_0", "$(reboot)") ∷ ("OVERTURE_VAR_1", "a `b`") ∷ [],
)

other_indirect : interpolate_for_shell plain_json template other ≡ ok other_result
unfolding interpolate_for_shell str_eq lookup insert
other_indirect = refl

parse_expression-ends_example :
    no_fuel_error (parse_expression "!(steps.review.failed && vars.count == 1.5)") ≡ true
parse_expression-ends_example = parse_expression-ends "!(steps.review.failed && vars.count == 1.5)"
