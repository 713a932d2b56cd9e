-- ===== src/Workflow.antt =====
-- packages/core/src/workflow.ts and packages/core/src/work.ts: workflow definitions, and the part
-- of a work item that decides whether a definition takes it.
pub mod Eligibility
use ai_orchestration.Prelude.{ℕ, String, Bool, Option, List}
use ai_orchestration.Prelude.Dict.{Dict}
use ai_orchestration.Value.{Value, Fields}

pub record WorkflowTrigger : Type 0 where
  pub states : Option (List String)
  pub labels : Option (List String)

pub record WorkflowEligibility : Type 0 where
  pub labels_include : Option (List String)
  pub labels_exclude : Option (List String)
  pub types : Option (List String)
  pub assignee : Option String

pub data Retention : Type 0 where
  always on_failure never : Retention

pub record WorkflowWorkspaceConfig : Type 0 where
  pub strategy : String
  pub retention : Option Retention

pub record RetryPolicy : Type 0 where
  pub max_attempts : ℕ
  pub backoff_ms : Option ℕ

-- What a step's kind adds to the fields of `BaseStep`.
pub data StepKind : Type 0 where
  agent :
      (agent goal : String) (route : Option String) (tool_names : Option (List String))
      (max_turns : Option ℕ)
      → StepKind
  command : (command : String) (cwd : Option String) (env : Option (Dict String)) → StepKind
  action : (action : String) (arguments : Option (Dict Value)) → StepKind
  approval : (description : String) → StepKind

pub record WorkflowStep : Type 0 where
  pub id : String
  pub kind : StepKind
  pub depends_on : Option (List String)
  pub when : Option String
  pub timeout_ms : Option ℕ
  pub retry : Option RetryPolicy
  pub continue_on_failure : Option Bool

pub record WorkflowTransitions : Type 0 where
  pub success : Option String
  pub failure : Option String
  pub blocked : Option String

pub record WorkflowDefinition : Type 0 where
  pub name : String
  pub description : Option String
  pub trigger : Option WorkflowTrigger
  pub eligibility : Option WorkflowEligibility
  pub workspace : Option WorkflowWorkspaceConfig
  pub variables : Option (Dict String)
  pub steps : List WorkflowStep
  pub transitions : Option WorkflowTransitions
  pub budget : Option String

pub record Assignee : Type 0 where
  pub id : String
  pub display_name : Option String
  pub email : Option String

pub record RepositoryReference : Type 0 where
  pub locator : String
  pub default_branch : Option String
  pub scm_provider_id : Option String

-- The fields of a work item that eligibility and routing read.
pub record WorkItem : Type 0 where
  pub id : String
  pub provider : String
  pub external_id : String
  pub title : String
  pub state : String
  pub type : Option String
  pub priority : Option String
  pub labels : List String
  pub assignees : List Assignee
  pub repository : Option RepositoryReference

pub data StepStatus : Type 0 where
  pending running succeeded failed skipped : StepStatus

pub record StepResult : Type 0 where
  pub step_id : String
  pub status : StepStatus
  pub outputs : Fields
  pub error : Option String
  pub started_at : Option ℕ
  pub finished_at : Option ℕ
