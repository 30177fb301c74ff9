-- ===== src/Artifacts/Memory/Laws.antt =====
-- A compiled memory policy meets its schema, and keeps private what the taboos or the domain do.
use oss_agent_tools.Prelude.{
  ℕ, ◌≤◌, ◌<◌, String, ◌≡◌, true, Option, none, some, List, ◌++◌, map, All, Distinct, string_key,
}
use oss_agent_tools.Artifacts.{StructuredAnswers}
use oss_agent_tools.Artifacts.Memory.{MemorySalienceRule, MemoryV1, DomainMemoryPreset}
use oss_agent_tools.Artifacts.Memory.Presets.{shared_salience_rules}
use oss_agent_tools.Artifacts.Memory.Compiler.{some_mention}

abbrev IsScored : MemorySalienceRule → Type 0
IsScored r = r.score ≤ 1000

abbrev rule_ids : List MemorySalienceRule → List String
rule_ids rules = map (λ r. r.rule_id) rules

-- The preset's rules with the shared ones, and its lifetime.
abbrev IsSound : DomainMemoryPreset → Type 0
IsSound p =
    All IsScored (shared_salience_rules ++ p.salience_rules)
    × Distinct (rule_ids (shared_salience_rules ++ p.salience_rules))
    × (1 < p.default_ttl_days)

abbrev IsLasting : Option ℕ → Type 0
IsLasting none = Unit
IsLasting (some days) = 0 < days

-- The bounds of the schema, with distinct rules.
abbrev pub IsValid : MemoryV1 → Type 0
IsValid m =
    All IsScored m.write_policy.salience_rules
    × Distinct (rule_ids m.write_policy.salience_rules)
    × IsLasting m.retention_policy.ttl_days

-- With structured answers, a taboo that mentions privacy has personal information redacted and
-- stored separately.
abbrev pub AnswersPrivate : {N : Type 0} → Option (StructuredAnswers N) → MemoryV1 → Type 0
AnswersPrivate none m = Unit
AnswersPrivate (some sa) m =
    some_mention sa.taboos.never_do ≡ true
    → (m.write_policy.pii_handling.redact ≡ true)
      × (m.write_policy.pii_handling.store_separately ≡ true)
