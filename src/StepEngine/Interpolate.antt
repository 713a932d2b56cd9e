-- ===== src/StepEngine/Interpolate.antt =====
-- packages/workflow/src/engine.ts: `interpolateStep`, `interpolateStringRecord` and
-- `interpolateValues`. `JSON.stringify` is a parameter.
use ai_orchestration.Prelude.{
  String, Bool, false, Option, none, some, [], ◌∷◌, ◌||◌, if◌then◌else◌, is_none, Thrown, ok, ◌>>=◌,
}
use mathlib.Core.Bool.{not}
use ai_orchestration.Prelude.Dict.{Dict, insert}
use ai_orchestration.Value.{Value, string}
use ai_orchestration.Workflow.{WorkflowStep, StepKind, agent, command, action, approval}
use ai_orchestration.StepExpr.Tokens.{ExpressionError}
use ai_orchestration.StepExpr.Eval.{ExpressionContext}
use ai_orchestration.StepExpr.Template.{interpolate, interpolate_for_shell}

-- `{ ...left, ...right }`, where `left` may be absent.
abbrev spread : Dict String → Dict String → Dict String
spread left [] = left
spread left ((k, v) ∷ right) = spread (insert k v left) right

abbrev is_empty : Dict String → Bool
is_empty [] = Bool.true
is_empty (_ ∷ _) = false

abbrev or_empty : Option (Dict String) → Dict String
or_empty none = []
or_empty (some m) = m

-- A field that may be absent.
abbrev optional {ℓ} :
    {A : Type ℓ} → (A → Thrown ExpressionError A) → Option A → Thrown ExpressionError (Option A)
optional f none = ok none
optional f (some x) = do y ← f x; ok (some y)

module _ (json : Value → String) (ctx : ExpressionContext) where
  interpolate_string_record : Dict String → Thrown ExpressionError (Dict String)
  unfolding interpolate
  interpolate_string_record [] = ok []
  interpolate_string_record ((k, v) ∷ rest) = do
    w ← interpolate json v ctx
    done ← interpolate_string_record rest
    ok ((k, w) ∷ done)

  interpolate_value : Value → Thrown ExpressionError Value
  unfolding interpolate
  interpolate_value (string s) = do w ← interpolate json s ctx; ok (string w)
  interpolate_value v = ok v

  interpolate_values : Dict Value → Thrown ExpressionError (Dict Value)
  unfolding interpolate_value
  interpolate_values [] = ok []
  interpolate_values ((k, v) ∷ rest) = do
    w ← interpolate_value v
    done ← interpolate_values rest
    ok ((k, w) ∷ done)

  -- The fields of the step's kind.
  interpolate_kind : StepKind → Thrown ExpressionError StepKind
  unfolding interpolate interpolate_for_shell interpolate_string_record interpolate_values insert
  interpolate_kind (agent a goal route tools turns) = do
    text ← interpolate json goal ctx
    ok (agent a text route tools turns)
  interpolate_kind (command text cwd env) = do
    shell ← interpolate_for_shell json text ctx
    declared ← optional interpolate_string_record env
    place ← optional (λ s. interpolate json s ctx) cwd
    ok (
        command shell.0 place (
          if not (is_none declared) || not (is_empty shell.1)
          then some (spread (or_empty declared) shell.1)
          else none))
  interpolate_kind (action name arguments) = do
    values ← optional interpolate_values arguments
    ok (action name values)
  interpolate_kind (approval description) = do
    text ← interpolate json description ctx
    ok (approval text)

  unfoldable pub interpolate_step : WorkflowStep → Thrown ExpressionError WorkflowStep
  unfolding interpolate_kind
  interpolate_step step = do kind ← interpolate_kind step.kind; ok (record step { kind = kind })
