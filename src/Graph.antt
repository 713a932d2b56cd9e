-- ===== src/Graph.antt =====
-- packages/core/src/graph.ts: typed nodes joined by declared transitions.
pub mod Validate
pub mod Samples
use ai_orchestration.Prelude.{ℕ, String, Bool, Option, List}
use ai_orchestration.Prelude.Dict.{Dict}
use ai_orchestration.Value.{Value}
use ai_orchestration.Workflow.{WorkflowEligibility, WorkflowTrigger, Retention}

pub record DefinitionRef : Type 0 where
  pub name : String
  pub version : Option ℕ

pub data WaitKind : Type 0 where
  human_input approval time external_event dependency : WaitKind
  provider_availability work_item_event : WaitKind

pub record WaitSpec : Type 0 where
  pub kind : WaitKind
  pub parameters : Dict Value
  pub timeout_ms : Option ℕ

pub data HumanInputType : Type 0 where
  text boolean single_choice multiple_choice approval : HumanInputType
  secret file_reference free_form : HumanInputType

pub data Surface : Type 0 where
  app work_item both : Surface

pub record HumanInputRequestSpec : Type 0 where
  pub type : HumanInputType
  pub prompt : String
  pub surface : Surface
  pub choices : Option (List String)
  pub secret_name : Option String
  pub timeout_ms : Option ℕ

pub data JoinMode : Type 0 where
  all any min : JoinMode

pub record JoinSpec : Type 0 where
  pub mode : JoinMode
  pub n : Option ℕ
  pub required : Option (List String)

pub data TerminalOutcome : Type 0 where
  completed failed blocked : TerminalOutcome

pub data GraphNodeKind : Type 0 where
  agent command action gate human_input : GraphNodeKind
  wait subworkflow experiment fan_out terminal : GraphNodeKind

pub data GraphNodeConfig : Type 0 where
  agent_config :
      (goal : String) (profile : Option DefinitionRef) (output_schema : Option (Dict Value))
      (tool_names : Option (List String)) (max_turns timeout_ms : Option ℕ)
      → GraphNodeConfig
  command_config :
      (command : String) (cwd : Option String) (env : Option (Dict String)) (timeout_ms : Option ℕ)
      → GraphNodeConfig
  action_config : (action : String) (arguments : Option (Dict Value)) → GraphNodeConfig
  gate_config :
      (gate_set : DefinitionRef) (max_remediation_attempts : Option ℕ)
      (remediation_profile : Option DefinitionRef)
      → GraphNodeConfig
  human_input_config : (request : HumanInputRequestSpec) → GraphNodeConfig
  wait_config : (condition : WaitSpec) → GraphNodeConfig
  subworkflow_config : (workflow : DefinitionRef) (inputs : Option (Dict String)) → GraphNodeConfig
  experiment_config : (experiment : DefinitionRef) (rubric : Option DefinitionRef) → GraphNodeConfig
  fan_out_config :
      (items : String) (workflow : DefinitionRef) (join : JoinSpec) (max_concurrency : Option ℕ)
      → GraphNodeConfig
  terminal_config : (outcome : TerminalOutcome) → GraphNodeConfig

-- `config.kind`
abbrev pub kind_of : GraphNodeConfig → GraphNodeKind
kind_of (agent_config _ _ _ _ _ _) = GraphNodeKind.agent
kind_of (command_config _ _ _ _) = GraphNodeKind.command
kind_of (action_config _ _) = GraphNodeKind.action
kind_of (gate_config _ _ _) = GraphNodeKind.gate
kind_of (human_input_config _) = GraphNodeKind.human_input
kind_of (wait_config _) = GraphNodeKind.wait
kind_of (subworkflow_config _ _) = GraphNodeKind.subworkflow
kind_of (experiment_config _ _) = GraphNodeKind.experiment
kind_of (fan_out_config _ _ _ _) = GraphNodeKind.fan_out
kind_of (terminal_config _) = GraphNodeKind.terminal

pub record LifecycleEffect : Type 0 where
  pub set_domain_state : Option String
  pub set_data : Option (Dict String)
  pub project : Option String

pub record NodeRetry : Type 0 where
  pub max_attempts : ℕ
  pub backoff_ms : Option ℕ

pub record GraphNode : Type 0 where
  pub id : String
  pub config : GraphNodeConfig
  pub join : Option JoinSpec
  pub guards : Option (List String)
  pub on_enter : Option LifecycleEffect
  pub on_exit : Option LifecycleEffect
  pub retry : Option NodeRetry

pub record GraphTransition : Type 0 where
  pub id : String
  pub from : String
  pub to : String
  pub condition : Option String
  pub loop_bound : Option ℕ
  pub effects : Option LifecycleEffect

pub record ExternalProjection : Type 0 where
  pub states : Option (Dict String)
  pub comments : Option (List String)
  pub managed_section : Option Bool

pub record GraphWorkspace : Type 0 where
  pub strategy : String
  pub retention : Option Retention

pub record WorkflowGraph : Type 0 where
  pub name : String
  pub description : Option String
  pub entry : String
  pub nodes : List GraphNode
  pub transitions : List GraphTransition
  pub domain_states : Option (List String)
  pub projection : Option ExternalProjection
  pub trigger : Option WorkflowTrigger
  pub eligibility : Option WorkflowEligibility
  pub default_profile : Option DefinitionRef
  pub variables : Option (Dict String)
  pub workspace : Option GraphWorkspace
