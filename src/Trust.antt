-- ===== src/Trust.antt =====
-- The trust policy and the bindings: TasteKit/tastekit/packages/core/schemas/trust.ts and
-- schemas/bindings.ts beside it. The literal `schema_version` fields are left out.
pub mod Manager
pub mod Auditor
pub mod Laws
use oss_agent_tools.Prelude.{String, Bool, Option, List}

pub data PinMode : Type 0 where
  strict warn : PinMode

pub record TrustMcpServer : Type 0 where
  pub url : String
  pub fingerprint : String
  pub pin_mode : PinMode

pub data SourceType : Type 0 where
  local git : SourceType

pub record TrustSkillSource : Type 0 where
  pub source_type : SourceType
  pub path : Option String
  pub url : Option String
  pub commit : Option String
  pub hash : Option String
  pub pin_mode : PinMode

pub record TrustUpdatePolicy : Type 0 where
  pub allow_auto_updates : Bool
  pub require_review : Bool

pub record TrustPolicy : Type 0 where
  pub mcp_servers : List TrustMcpServer
  pub skill_sources : List TrustSkillSource
  pub update_policy : TrustUpdatePolicy

pub record BindingsTool : Type 0 where
  pub tool_ref : String
  pub risk_hints : Option (List String)
  pub default_permission_scope_id : Option String

pub record BindingsResource : Type 0 where
  pub resource_ref : String
  pub uri_pattern : Option String

pub record BindingsPrompt : Type 0 where
  pub prompt_ref : String
  pub description : Option String

pub record BindingsServer : Type 0 where
  pub name : String
  pub url : String
  pub pinned_fingerprint : Option String
  pub auth : Option (List (String × String))
  pub tools : List BindingsTool
  pub resources : Option (List BindingsResource)
  pub prompts : Option (List BindingsPrompt)
  pub last_bind_at : String

pub record Bindings : Type 0 where
  pub servers : List BindingsServer
