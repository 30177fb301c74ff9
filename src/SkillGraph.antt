-- ===== src/SkillGraph.antt =====
-- Skills and their relationships: TasteKit/tastekit/packages/core/schemas/skills.ts, and the
-- analysis of TasteKit/tastekit/packages/core/skills/graph.ts in the child modules.
pub mod Walk
pub mod Paths
pub mod Follows
pub mod Edges
pub mod Cycles
pub mod Analysis
pub mod Within
pub mod Mirror
pub mod Reports
pub mod Linter
use oss_agent_tools.Prelude.{String, Option, List}

pub data RiskLevel : Type 0 where
  low med high : RiskLevel

pub data ContextModel : Type 0 where
  inherit fork : ContextModel

pub record SkillMetadata : Type 0 where
  pub skill_id : String
  pub name : String
  pub description : String
  pub tags : List String
  pub risk_level : RiskLevel
  pub required_tools : List String
  pub compatible_runtimes : List String
  pub playbook_ref : Option String
  pub prerequisites : Option (List String)
  pub feeds_into : Option (List String)
  pub alternatives : Option (List String)
  pub pipeline_phase : Option String
  pub context_model : Option ContextModel
  pub model_hint : Option String
