-- ===== src/Waits.antt =====
-- packages/core/src/waits.ts: durable waits and the responses to them.
pub mod Validate
pub mod Contract
pub mod Memory
pub mod Json
pub mod Sqlite
pub mod Table
pub mod FirstWins
mod Samples
mod Examples
use ai_orchestration.Prelude.{ℕ, String, Option}
use ai_orchestration.Prelude.Dict.{Dict}
use ai_orchestration.Value.{Value}
use ai_orchestration.Graph.{WaitKind, HumanInputRequestSpec}

pub data HumanInputChannel : Type 0 where
  app work_item : HumanInputChannel

pub record HumanInput : Type 0 where
  pub request_id : String
  pub responder : String
  pub channel : HumanInputChannel
  pub at : ℕ
  pub value : Value

pub record WaitSatisfaction : Type 0 where
  pub kind : WaitKind
  pub at : ℕ
  pub input : Option HumanInput
  pub event : Option (Dict Value)

pub data WaitConditionStatus : Type 0 where
  is_open satisfied expired cancelled : WaitConditionStatus

pub record WaitCondition : Type 0 where
  pub id : String
  pub run_id : String
  pub node_id : String
  pub kind : WaitKind
  pub parameters : Dict Value
  pub request : Option HumanInputRequestSpec
  pub status : WaitConditionStatus
  pub created_at : ℕ
  pub due_at : Option ℕ
  pub satisfied_at : Option ℕ
  pub satisfaction : Option WaitSatisfaction

pub record SupplementalInput : Type 0 where
  pub wait_id : String
  pub run_id : String
  pub input : HumanInput
  pub promoted_at : Option ℕ

-- A satisfaction as it is stored: its times are texts.
pub record StoredHumanInput (Iso : Type 0) : Type 0 where
  pub request_id : String
  pub responder : String
  pub channel : HumanInputChannel
  pub at : Iso
  pub value : Value

pub record StoredSatisfaction (Iso : Type 0) : Type 0 where
  pub kind : WaitKind
  pub at : Iso
  pub input : Option (StoredHumanInput Iso)
  pub event : Option (Dict Value)
