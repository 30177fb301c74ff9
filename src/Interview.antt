-- ===== src/Interview.antt =====
-- The interview: TasteKit/tastekit/packages/core/interview/interviewer.ts, with the rubric's types
-- (interview/rubric.ts) and the state that is saved (schemas/workspace.ts). `N` is the type of
-- numbers, `S` that of the structured answers.
pub mod Rubric
pub mod Coverage
pub mod Response
pub mod Session
use oss_agent_tools.Prelude.{ℕ, String, Bool, Option, List}
use oss_agent_tools.AutoManage.Text.{Text}

pub data Depth : Type 0 where
  quick guided operator : Depth

pub data Section : Type 0 where
  principles tone tradeoffs evidence_policy taboos domain_specific : Section

pub record Cascade (N : Type 0) : Type 0 where
  pub dimension_id : String
  pub weight : N
  pub condition : Option String

pub record RubricDimension (N : Type 0) : Type 0 where
  pub id : String
  pub name : String
  pub description : String
  pub maps_to : List Section
  pub depth_tiers : List Depth
  pub exploration_hints : List String
  pub coverage_criteria : List String
  pub sub_areas : Option (List String)
  pub cascade_to : Option (List (Cascade N))

pub record DomainRubric (N : Type 0) : Type 0 where
  pub domain_id : String
  pub version : String
  pub interview_goal : String
  pub dimensions : List (RubricDimension N)
  pub includes_universal : Bool

pub data Role : Type 0 where
  interviewer user : Role

pub record InterviewTurn : Type 0 where
  pub turn_number : ℕ
  pub role : Role
  pub content : Text
  pub timestamp : String

pub data CoverageStatus : Type 0 where
  not_started in_progress covered skipped : CoverageStatus

-- `source` is what the model wrote, cast to one of the four sources.
pub record Signal (N : Type 0) : Type 0 where
  pub weight : N
  pub source : String
  pub turn_number : ℕ
  pub excerpt : Option String

-- A saved state is not checked when it is loaded, so the fields that the code reads with `??` may
-- be missing.
pub record DimensionCoverage (N : Type 0) : Type 0 where
  pub dimension_id : String
  pub status : CoverageStatus
  pub confidence : Option N
  pub confidence_threshold : Option N
  pub signals : Option (List (Signal N))
  pub anti_signals : Option (List String)
  pub summary : Option String
  pub extracted_facts : Option (List String)
  pub relevant_turns : List ℕ

pub record InterviewState (N S : Type 0) : Type 0 where
  pub transcript : List InterviewTurn
  pub dimension_coverage : List (DimensionCoverage N)
  pub is_complete : Bool
  pub turn_count : ℕ
  pub structured_answers : Option S
