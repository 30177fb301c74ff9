-- ===== src/Artifacts/Memory/Compiler.antt =====
-- `compileMemoryPolicy` of TasteKit/tastekit/packages/core/compiler/memory-compiler.ts.
use oss_agent_tools.Prelude.{
  ℕ, ◌+◌, ◌*◌, ◌/◌, String, Bool, true, false, ◌&&◌, ◌||◌, Option, none, some, List, [], ◌∷◌, ◌++◌,
  leb, nat_eq, if◌then◌else◌,
}
use oss_agent_tools.Numbers.{Arithmetic, at_least}
use oss_agent_tools.AutoManage.Text.{Text}
use oss_agent_tools.AutoManage.Status.{codes}
use oss_agent_tools.Artifacts.{
  StructuredAnswers, SessionState, domain_of, preset_for, legacy_autonomy,
}
use oss_agent_tools.Artifacts.Memory.{
  MemoryPiiHandling, UpdateMode, revise, consolidate, least_salient, MemoryStore, MemoryV1,
  DomainMemoryPreset,
}
use oss_agent_tools.Artifacts.Memory.Presets.{
  shared_salience_rules, domain_memory_presets, general_memory,
}

unfoldable pub preset_of : String → DomainMemoryPreset
unfolding domain_memory_presets
preset_of id = preset_for domain_memory_presets general_memory id

-- A regular expression with the flag `i` folds the case of the letters of ASCII.
abbrev fold_case : ℕ → ℕ
fold_case c = if leb 65 c && leb c 90 then c + 32 else c

abbrev begins : Text → Text → Bool
begins [] s = true
begins (p ∷ ps) [] = false
begins (p ∷ ps) (c ∷ s) = nat_eq (fold_case c) p && begins ps s

-- The word, in small letters, occurs in the text.
abbrev pub occurs : Text → Text → Bool
occurs word [] = begins word []
occurs word (c ∷ s) = begins word (c ∷ s) || occurs word s

-- `/personal information|pii|privacy|confidential/i.test`.
abbrev pub mentions_privacy : Text → Bool
mentions_privacy t =
    occurs (codes "personal information") t
    || occurs (codes "pii") t
    || occurs (codes "privacy") t
    || occurs (codes "confidential") t

abbrev pub some_mention : List Text → Bool
some_mention [] = false
some_mention (t ∷ ts) = mentions_privacy t || some_mention ts

abbrev handling : Bool → MemoryPiiHandling
handling sensitive = record { detect = true; redact = sensitive; store_separately = sensitive }

abbrev stores : List MemoryStore
stores = record { store_id = "default"; type = "runtime_managed"; config = [] } ∷ []

-- `Math.round` of a number of so many tenths.
abbrev pub round_tenths : ℕ → ℕ
round_tenths n = (n + 5) / 10

module _ {N : Type 0} (a : Arithmetic N) where
  abbrev schedule_of : N → String
  schedule_of autonomy =
      if at_least a autonomy (a.thousandths 700) then "0 0 2 * * *" else "0 0 2 * * 0"

  abbrev mode_of : N → UpdateMode
  mode_of autonomy = if at_least a autonomy (a.thousandths 600) then consolidate else revise

  abbrev pub ttl_of : N → ℕ → ℕ
  ttl_of cost days =
      if a.lt (a.thousandths 700) cost
      then round_tenths (days * 6)
      else if a.lt cost (a.thousandths 300)
      then round_tenths (days * 15)
      else days

  abbrev policy : DomainMemoryPreset → N → Bool → ℕ → MemoryV1
  policy preset autonomy sensitive ttl = record {
    schema_version = "memory.v1";
    runtime_target = "generic";
    stores = stores;
    write_policy = record {
      salience_rules = shared_salience_rules ++ preset.salience_rules;
      pii_handling = handling sensitive;
      update_mode = mode_of autonomy;
      consolidation_schedule = some (schedule_of autonomy);
      revisit_triggers = preset.revisit_triggers;
    };
    retention_policy = record { ttl_days = some ttl; prune_strategy = least_salient };
  }

  unfoldable pub compile_from_structured_answers : StructuredAnswers N → SessionState N → MemoryV1
  unfolding preset_of
  compile_from_structured_answers sa session =
      let preset = preset_of (domain_of session) in
      policy preset sa.tradeoffs.autonomy_level
        (preset.pii_sensitive || some_mention sa.taboos.never_do)
        (ttl_of sa.tradeoffs.cost_sensitivity preset.default_ttl_days)

  unfoldable pub compile_legacy : SessionState N → MemoryV1
  unfolding preset_of
  compile_legacy session =
      let preset = preset_of (domain_of session) in
      policy preset (legacy_autonomy a session) preset.pii_sensitive preset.default_ttl_days

  unfoldable pub by_answers : Option (StructuredAnswers N) → SessionState N → MemoryV1
  unfolding compile_from_structured_answers compile_legacy
  by_answers none session = compile_legacy session
  by_answers (some sa) session = compile_from_structured_answers sa session

  unfoldable pub compile_memory_policy : SessionState N → MemoryV1
  unfolding by_answers
  compile_memory_policy session = by_answers session.structured_answers session
