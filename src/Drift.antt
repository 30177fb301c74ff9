-- ===== src/Drift.antt =====
-- The detection of drift: TasteKit/tastekit/packages/core/drift/detector.ts, with the types of
-- drift/proposal.ts beside it.
pub mod Signals
pub mod Proposals
pub mod Detect
pub mod Aggregates
pub mod Consolidator
pub mod Counts
pub mod Laws
pub mod Review
use oss_agent_tools.Prelude.{ℕ, String, Option, List}
use oss_agent_tools.Details.{Details, Datum}
use oss_agent_tools.Trace.{Value}

pub data DriftSignalType : Type 0 where
  repeated_edit principle_violation user_correction tool_change staleness coverage_gap
        assertion_mismatch :
      DriftSignalType

-- `applies_to` is cast from the context without a check, as is the reason of the evidence.
pub record AddPrinciple : Type 0 where
  pub statement : String
  pub priority : ℕ
  pub applies_to : List Value

-- The fields of a principle that a proposal changes.
pub record PrincipleChanges : Type 0 where
  pub statement : Option String
  pub priority : Option ℕ
  pub rationale : Option String
  pub applies_to : Option (List String)

pub record ModifyPrinciple : Type 0 where
  pub id : String
  pub changes : PrincipleChanges

pub record RemovePrinciple : Type 0 where
  pub id : String
  pub reason : String

pub record ProposedConstitutionChange : Type 0 where
  pub add_principle : Option AddPrinciple
  pub modify_principle : Option ModifyPrinciple
  pub remove_principle : Option RemovePrinciple

pub record AddApproval : Type 0 where
  pub rule_id : String
  pub when : String
  pub action : String

pub record ModifyRateLimit : Type 0 where
  pub tool_ref : String
  pub limit : ℕ
  pub window : String

pub record ProposedGuardrailsChange : Type 0 where
  pub add_approval : Option AddApproval
  pub modify_rate_limit : Option ModifyRateLimit

pub record ProposedToneChange : Type 0 where
  pub add_forbidden_phrase : Option String
  pub add_voice_keyword : Option String
  pub remove_forbidden_phrase : Option String

pub record SuggestSkill : Type 0 where
  pub description : String
  pub reason : String

pub record ModifySkill : Type 0 where
  pub skill_id : String
  pub changes : String

pub record ProposedSkillsChange : Type 0 where
  pub suggest_skill : Option SuggestSkill
  pub modify_skill : Option ModifySkill

pub record ProposedChanges : Type 0 where
  pub constitution : Option ProposedConstitutionChange
  pub guardrails : Option ProposedGuardrailsChange
  pub tone : Option ProposedToneChange
  pub skills : Option ProposedSkillsChange

pub data RiskRating : Type 0 where
  low medium high : RiskRating

pub record DriftEvidence : Type 0 where
  pub event_refs : Option (List String)
  pub reason : Option Datum
  pub occurrences : Option ℕ
  pub affected_ids : Option (List String)
  pub context : Option Details

pub record DriftProposal : Type 0 where
  pub proposal_id : String
  pub created_at : String
  pub signal_type : DriftSignalType
  pub frequency : ℕ
  pub rationale : String
  pub proposed_changes : ProposedChanges
  pub risk_rating : RiskRating
  pub evidence : DriftEvidence

pub data DetectionMode : Type 0 where
  violations staleness_only : DetectionMode

-- `since` is a time in milliseconds; the detector does not read `mode`.
pub record DriftDetectionOptions : Type 0 where
  pub since : Option ℕ
  pub skill_id : Option String
  pub mode : Option DetectionMode
  pub constitution_path : Option String
  pub known_skill_ids : Option (List String)
  pub known_tool_refs : Option (List String)

pub record DriftSignal : Type 0 where
  pub signal_type : DriftSignalType
  pub frequency : ℕ
  pub context : Details
