-- ===== src/Artifacts/Playbooks.antt =====
-- The types of TasteKit/tastekit/packages/core/schemas/playbook.ts. The parameters of a step are
-- texts, whole numbers or lists of texts.
pub mod Content
pub mod Research
pub mod Sales
pub mod Support
pub mod General
pub mod Compiler
pub mod Written
pub mod Dataflow
use oss_agent_tools.Prelude.{ℕ, String, Bool, Option, List}

pub data TriggerType : Type 0 where
  cron event manual : TriggerType

pub record PlaybookTrigger : Type 0 where
  pub type : TriggerType
  pub schedule : Option String
  pub event_pattern : Option String

pub record PlaybookInput : Type 0 where
  pub name : String
  pub type : String
  pub required : Bool
  pub description : Option String

pub data StepType : Type 0 where
  think tool transform write approval_gate : StepType

pub data Parameter : Type 0 where
  text : String → Parameter
  whole : ℕ → Parameter
  texts : List String → Parameter

pub record PlaybookStep : Type 0 where
  pub step_id : String
  pub type : StepType
  pub tool_ref : Option String
  pub params_template : Option (List (String × Parameter))
  pub outputs : Option (List String)

pub data CheckType : Type 0 where
  taste safety format facts : CheckType

pub record PlaybookCheck : Type 0 where
  pub check_id : String
  pub type : CheckType
  pub rubric_ref : Option String
  pub condition : String

pub record PlaybookStopCondition : Type 0 where
  pub condition : String
  pub reason : String

pub record PlaybookEscalation : Type 0 where
  pub escalation_id : String
  pub trigger : String
  pub approval_ref : String

pub record PlaybookV1 : Type 0 where
  pub schema_version : String
  pub id : String
  pub name : String
  pub description : String
  pub triggers : List PlaybookTrigger
  pub inputs : List PlaybookInput
  pub steps : List PlaybookStep
  pub checks : List PlaybookCheck
  pub stop_conditions : List PlaybookStopCondition
  pub escalations : List PlaybookEscalation
