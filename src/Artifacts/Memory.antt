-- ===== src/Artifacts/Memory.antt =====
-- The types of TasteKit/tastekit/packages/core/schemas/memory.ts, and the preset of
-- compiler/memory-compiler.ts. A score is in thousandths.
pub mod Presets
pub mod Compiler
pub mod Laws
use oss_agent_tools.Prelude.{ℕ, String, Bool, Option, List}
use oss_agent_tools.Trace.{Value}

pub record MemorySalienceRule : Type 0 where
  pub rule_id : String
  pub pattern : String
  pub score : ℕ
  pub reason : Option String

pub record MemoryPiiHandling : Type 0 where
  pub detect : Bool
  pub redact : Bool
  pub store_separately : Bool

pub data UpdateMode : Type 0 where
  append revise consolidate : UpdateMode

pub record MemoryWritePolicy : Type 0 where
  pub salience_rules : List MemorySalienceRule
  pub pii_handling : MemoryPiiHandling
  pub update_mode : UpdateMode
  pub consolidation_schedule : Option String
  pub revisit_triggers : List String

pub data PruneStrategy : Type 0 where
  oldest least_salient manual : PruneStrategy

pub record MemoryRetentionPolicy : Type 0 where
  pub ttl_days : Option ℕ
  pub prune_strategy : PruneStrategy

pub record MemoryStore : Type 0 where
  pub store_id : String
  pub type : String
  pub config : List (String × Value)

pub record MemoryV1 : Type 0 where
  pub schema_version : String
  pub runtime_target : String
  pub stores : List MemoryStore
  pub write_policy : MemoryWritePolicy
  pub retention_policy : MemoryRetentionPolicy

pub record DomainMemoryPreset : Type 0 where
  pub salience_rules : List MemorySalienceRule
  pub revisit_triggers : List String
  pub default_ttl_days : ℕ
  pub pii_sensitive : Bool
