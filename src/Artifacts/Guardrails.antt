-- ===== src/Artifacts/Guardrails.antt =====
-- The types of TasteKit/tastekit/packages/core/schemas/guardrails.ts, and the preset of
-- compiler/guardrails-compiler.ts.
pub mod Presets
pub mod Compiler
pub mod Laws
pub mod Paths
use oss_agent_tools.Prelude.{ℕ, String, Option, List}
use oss_agent_tools.AutoManage.Text.{Text}

pub data Operation : Type 0 where
  read write delete execute post publish admin : Operation

pub data ApprovalAction : Type 0 where
  require_approval block allow : ApprovalAction

pub data Channel : Type 0 where
  cli ui webhook : Channel

pub record GuardrailsPermission : Type 0 where
  pub scope_id : String
  pub tool_ref : String
  pub resources : List String
  pub ops : List Operation

pub record GuardrailsApproval : Type 0 where
  pub rule_id : Text
  pub when : Text
  pub action : ApprovalAction
  pub channel : Channel

pub record GuardrailsRateLimit : Type 0 where
  pub tool_ref : String
  pub limit : ℕ
  pub window : String

pub record GuardrailsRollback : Type 0 where
  pub playbook_ref : String
  pub notes : Option String

pub record GuardrailsV1 : Type 0 where
  pub schema_version : String
  pub permissions : List GuardrailsPermission
  pub approvals : List GuardrailsApproval
  pub rate_limits : List GuardrailsRateLimit
  pub rollback : Option GuardrailsRollback

-- The multiplier is in tenths.
pub record DomainGuardrailPreset : Type 0 where
  pub permissions : List GuardrailsPermission
  pub extra_approvals : List GuardrailsApproval
  pub rate_limit_multiplier : ℕ
  pub rollback_playbook : Option String
