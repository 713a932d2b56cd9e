-- ===== src/StepEngine/State.antt =====
-- packages/workflow/src/engine.ts: the variables of `execute`, `isEligible`, one pass of its loop,
-- and `computeStatus`. `JSON.stringify` is not needed here: a `when` is never interpolated.
use ai_orchestration.Prelude.{
  ℕ, String, Bool, false, not, ◌&&◌, ◌||◌, Option, none, some, List, [], ◌∷◌, map, ltb, texts,
  if◌then◌else◌, is_none, str_eq, all, Thrown, ok, throw, ◌>>=◌,
}
use ai_orchestration.Prelude.Dict.{Dict, lookup, insert}
use ai_orchestration.Prelude.Names.{has}
use ai_orchestration.Value.{Value, Fields, end, field, string}
use ai_orchestration.Workflow.{WorkflowStep, WorkflowDefinition, StepResult, StepStatus}
use ai_orchestration.StepExpr.Tokens.{ExpressionError}
use ai_orchestration.StepExpr.Parser.{parse_expression}
use ai_orchestration.StepExpr.Eval.{evaluate, to_boolean, is_succeeded, is_failed, status_name}

pub data WorkflowEngineEvent : Type 0 where
  step_started : (step_id : String) → WorkflowEngineEvent
  step_completed : (step_id : String) (status : StepStatus) → WorkflowEngineEvent
  step_skipped : (step_id reason : String) → WorkflowEngineEvent

pub data WorkflowRunStatus : Type 0 where
  succeeded failed cancelled : WorkflowRunStatus

pub data WorkflowTransitionKind : Type 0 where
  success failure blocked : WorkflowTransitionKind

pub record WorkflowResult : Type 0 where
  pub status : WorkflowRunStatus
  pub step_results : Dict StepResult
  pub transition : WorkflowTransitionKind
  pub transition_target : Option String

-- What `execute` throws. `type_error` is the read of a result that is not there.
pub data EngineError : Type 0 where
  expression : ExpressionError → EngineError
  type_error : EngineError

-- The constants of an execution.
pub record Execution : Type 0 where
  pub definition : WorkflowDefinition
  pub variables : Option Fields
  pub concurrency : Option ℕ

-- The variables that change. An id of `pendingIds` stands here with its step of `byId`.
pub record Progress : Type 0 where
  pub pending : List WorkflowStep
  -- The tasks that have not settled.
  pub tasks : List WorkflowStep
  -- The keys of the map `inFlight`: a task leaves it a little after it settles.
  pub in_flight : List String
  pub results : Dict StepResult
  pub tainted : List String
  pub events : List WorkflowEngineEvent

-- `{ ...left, ...right }`
set_field : String → Value → Fields → Fields
set_field k v end = field k v end
set_field k v (field j w rest) =
    if str_eq j k then field j v rest else field j w (set_field k v rest)

spread : Fields → Fields → Fields
unfolding set_field
spread left end = left
spread left (field k v rest) = spread (set_field k v left) rest

text_fields : Dict String → Fields
text_fields [] = end
text_fields ((k, v) ∷ rest) = field k (string v) (text_fields rest)

abbrev or_else {ℓ} : {A : Type ℓ} → A → Option A → A
or_else d none = d
or_else d (some x) = x

abbrev pub dependencies : WorkflowStep → List String
dependencies step = or_else [] step.depends_on

abbrev pub forgives : WorkflowStep → Bool
forgives step = or_else false step.continue_on_failure

-- `new Map(definition.steps.map((step) => [step.id, step]))`, behind the entries so far.
unfoldable pub steps_map : Dict WorkflowStep → List WorkflowStep → Dict WorkflowStep
unfolding insert
steps_map m [] = m
steps_map m (s ∷ ss) = steps_map (insert s.id s m) ss

module _ (x : Execution) where
  unfoldable pub variables : Fields
  unfolding spread text_fields
  variables = spread (text_fields (or_else [] x.definition.variables)) (or_else end x.variables)

  -- `none` is `Number.POSITIVE_INFINITY`.
  abbrev pub concurrency_limit : Option ℕ
  concurrency_limit = elim x.concurrency [ none ↦ none | some n ↦ if ltb 0 n then some n else none ]

  unfoldable pub by_id : Dict WorkflowStep
  unfolding steps_map
  by_id = steps_map [] x.definition.steps

  unfoldable pub initial : Progress
  unfolding by_id
  initial = record {
    pending = map (λ (entry : String × WorkflowStep). entry.1) by_id;
    tasks = [];
    in_flight = [];
    results = [];
    tainted = [];
    events = [];
  }

unfoldable pub deps_settled : Dict StepResult → WorkflowStep → Bool
unfolding lookup
deps_settled results step = all (λ d. not (is_none (lookup d results))) (dependencies step)

-- What `isEligible` returns.
pub data Verdict : Type 0 where
  eligible : Verdict
  ineligible : (reason : String) (is_tainted : Bool) → Verdict

-- Whether a dependency that ended this way lets its dependents run, and whether it taints those
-- that it does not let run.
abbrev pub forgiven : Dict WorkflowStep → String → StepStatus → Bool
forgiven steps dep status =
    is_failed status && elim (lookup dep steps) [ none ↦ false | some s ↦ forgives s ]

abbrev pub is_ok : Dict WorkflowStep → String → StepStatus → Bool
is_ok steps dep status = is_succeeded status || forgiven steps dep status

abbrev pub taints : Dict WorkflowStep → List String → String → StepStatus → Bool
taints steps tainted dep status =
    (is_failed status && not (forgiven steps dep status)) || has dep tainted

-- The loop over the dependencies: the first that is not ok, and whether one that is not ok taints.
pub record Checked : Type 0 where
  pub first_bad : Option (String × StepStatus)
  pub causes_taint : Bool

abbrev note_bad : Option (String × StepStatus) → String → StepStatus → Option (String × StepStatus)
note_bad none dep status = some (dep, status)
note_bad (some b) dep status = some b

abbrev pub check : Dict WorkflowStep → List String → String → StepStatus → Checked → Checked
check steps tainted dep status c = if is_ok steps dep status then c else record {
  first_bad = note_bad c.first_bad dep status;
  causes_taint = c.causes_taint || taints steps tainted dep status;
}

unfoldable pub check_all :
    Dict WorkflowStep → Progress → List String → Checked → Thrown EngineError Checked
unfolding lookup has
check_all steps p [] c = ok c
check_all steps p (dep ∷ deps) c = elim (lookup dep p.results) [
  | none ↦ throw type_error
  | some r ↦ check_all steps p deps (check steps p.tainted dep r.status c)
]

abbrev verdict_of : Checked → Verdict
verdict_of c = elim c.first_bad [
  | none ↦ eligible
  | some (dep, status) ↦
      ineligible
        (texts
          ("dependency '" ∷ dep ∷ "' did not succeed (status: " ∷ status_name status ∷ ")" ∷ []))
        c.causes_taint
]

abbrev lift {ℓ} : {A : Type ℓ} → Thrown ExpressionError A → Thrown EngineError A
lift (ok a) = ok a
lift (throw e) = throw (expression e)

module _ (x : Execution) where
  unfoldable pub is_eligible : Progress → WorkflowStep → Thrown EngineError Verdict
  unfolding by_id variables check_all parse_expression evaluate to_boolean
  is_eligible p step = elim step.when [
    | some source ↦ lift (parse_expression source) >>= (λ e.
        lift (evaluate e (record { steps = p.results; vars = variables x })) >>= (λ value. ok (
          if to_boolean value
          then eligible
          else ineligible (texts ("when condition '" ∷ source ∷ "' evaluated to false" ∷ []))
              false)))
    | none ↦
        check_all (by_id x) p (dependencies step)
          (record { first_bad = none; causes_taint = false })
        >>= (λ c. ok (verdict_of c))
  ]
