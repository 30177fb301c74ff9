-- ===== src/Artifacts/Guardrails/Compiler.antt =====
-- `compileGuardrails` of TasteKit/tastekit/packages/core/compiler/guardrails-compiler.ts. `lower` is
-- `toLowerCase`.
use oss_agent_tools.Prelude.{
  ℕ, ◌+◌, ◌*◌, ◌/◌, String, Bool, false, not, ◌&&◌, ◌||◌, Option, none, some, List, [], ◌∷◌, ◌++◌,
  leb, take, if◌then◌else◌,
}
use oss_agent_tools.Numbers.{Arithmetic, at_least}
use oss_agent_tools.AutoManage.Text.{Text}
use oss_agent_tools.AutoManage.Status.{codes}
use oss_agent_tools.Details.{decimal}
use oss_agent_tools.Artifacts.{
  StructuredAnswers, SessionState, domain_of, preset_for, legacy_autonomy,
}
use oss_agent_tools.Artifacts.Guardrails.{
  ApprovalAction, require_approval, block, cli, GuardrailsApproval, GuardrailsRateLimit,
  GuardrailsRollback, GuardrailsV1, DomainGuardrailPreset,
}
use oss_agent_tools.Artifacts.Guardrails.Presets.{domain_presets, general_guardrails}

abbrev pub approval : Text → Text → ApprovalAction → GuardrailsApproval
approval rule_id when action = record {
  rule_id = rule_id;
  when = when;
  action = action;
  channel = cli;
}

abbrev is_slug_letter : ℕ → Bool
is_slug_letter c = (leb 97 c && leb c 122) || (leb 48 c && leb c 57)

-- `replace(/[^a-z0-9]+/g, '_')`; the flag is whether the last character was replaced.
abbrev underscore : Bool → Text → Text
underscore gap [] = []
underscore gap (c ∷ s) =
    let rest = underscore (not (is_slug_letter c)) s in
    if is_slug_letter c then c ∷ rest else if gap then rest else 95 ∷ rest

abbrev limit_of : String → ℕ → GuardrailsRateLimit
limit_of tool_ref limit = record { tool_ref = tool_ref; limit = limit; window = "1h" }

-- `Math.round` of a number of so many hundredths.
abbrev round_hundredths : ℕ → ℕ
round_hundredths n = (n + 50) / 100

abbrev pub rollback_of : Option String → Option GuardrailsRollback
rollback_of none = none
rollback_of (some playbook) = some (record { playbook_ref = playbook; notes = none })

unfoldable pub preset_of : String → DomainGuardrailPreset
unfolding domain_presets
preset_of id = preset_for domain_presets general_guardrails id

module _ {N : Type 0} (a : Arithmetic N) where
  -- The base rule of an autonomy level, on either path.
  abbrev pub structured_base : N → List GuardrailsApproval
  structured_base autonomy =
      if a.lt autonomy (a.thousandths 300)
      then approval (codes "approve_all_writes")
          (codes
            "action.ops contains \"write\" || action.ops contains \"delete\" || action.ops contains \"execute\"")
          require_approval
        ∷ []
      else if a.lt autonomy (a.thousandths 500)
      then approval (codes "approve_writes_and_deletes")
          (codes "action.ops contains \"write\" || action.ops contains \"delete\"") require_approval
        ∷ []
      else if a.lt autonomy (a.thousandths 700)
      then approval (codes "approve_destructive")
          (codes "action.ops contains \"delete\" || action.risk_score > 0.7") require_approval
        ∷ []
      else []

  abbrev pub legacy_base : N → List GuardrailsApproval
  legacy_base autonomy =
      if a.lt autonomy (a.thousandths 300)
      then approval (codes "approve_all_writes")
          (codes
            "action.type == \"write\" || action.type == \"delete\" || action.type == \"execute\"")
          require_approval
        ∷ []
      else if a.lt autonomy (a.thousandths 500)
      then approval (codes "approve_writes_and_deletes")
          (codes "action.type == \"write\" || action.type == \"delete\"") require_approval
        ∷ []
      else if a.lt autonomy (a.thousandths 700)
      then approval (codes "approve_destructive")
          (codes "action.type == \"delete\" || action.risk_score > 0.7") require_approval
        ∷ []
      else []

  abbrev pub high_risk : GuardrailsApproval
  high_risk =
      approval (codes "approve_high_risk") (codes "action.risk_score > 0.9") require_approval

module _ (lower : Text → Text) where
  abbrev slug_of : Text → Text
  slug_of text = take 40 (underscore false (lower text))

  abbrev tagged : Text → Text → ℕ → Text
  unfolding decimal
  tagged prefix text i = prefix ++ (slug_of text ++ (codes "_" ++ codes (decimal i)))

  -- What a rule that names a text asks for.
  abbrev pub asks : Text → Text → Text
  asks question text = question ++ (codes " \"" ++ (text ++ codes "\""))

  -- The rules of a list of taboos, from the index on.
  unfoldable pub taboo_rules :
      Text → Text → ApprovalAction → ℕ → List Text → List GuardrailsApproval
  unfolding tagged
  taboo_rules prefix question action i [] = []
  taboo_rules prefix question action i (t ∷ ts) =
      approval (tagged prefix t i) (asks question t) action
      ∷ taboo_rules prefix question action (i + 1) ts

  unfoldable pub block_rules : List Text → List GuardrailsApproval
  unfolding taboo_rules
  block_rules never_do =
      taboo_rules (codes "block_taboo_") (codes "action.description matches") block 0 never_do

  unfoldable pub escalation_rules : List Text → List GuardrailsApproval
  unfolding taboo_rules
  escalation_rules must_escalate =
      taboo_rules (codes "escalate_") (codes "action.tags contains") require_approval 0
        must_escalate

  module _ {N : Type 0} (a : Arithmetic N) where
    abbrev pub extra_rules : N → DomainGuardrailPreset → List GuardrailsApproval
    extra_rules autonomy preset =
        if at_least a autonomy (a.thousandths 800) then [] else preset.extra_approvals

    unfoldable pub build_approval_rules :
        N → DomainGuardrailPreset → StructuredAnswers N → List GuardrailsApproval
    unfolding block_rules escalation_rules
    build_approval_rules autonomy preset sa =
        structured_base a autonomy
        ++ (high_risk a
            ∷ (extra_rules autonomy preset
                ++ (block_rules sa.taboos.never_do ++ escalation_rules sa.taboos.must_escalate)))

    -- The cost factor is in tenths.
    abbrev cost_factor : N → ℕ
    cost_factor cost = if a.lt (a.thousandths 700) cost then 5 else 10

    abbrev pub structured_limits :
        DomainGuardrailPreset → StructuredAnswers N → List GuardrailsRateLimit
    structured_limits preset sa =
        limit_of "*:*" (
          round_hundredths
            (100 * preset.rate_limit_multiplier * cost_factor sa.tradeoffs.cost_sensitivity))
        ∷ (if a.lt sa.tradeoffs.autonomy_level (a.thousandths 500)
            then limit_of "*:delete" 10 ∷ limit_of "*:execute" 25 ∷ []
            else [])

    unfoldable pub compile_from_structured_answers :
        StructuredAnswers N → SessionState N → GuardrailsV1
    unfolding preset_of build_approval_rules
    compile_from_structured_answers sa session =
        let preset = preset_of (domain_of session) in
        record {
          schema_version = "guardrails.v1";
          permissions = preset.permissions;
          approvals = build_approval_rules sa.tradeoffs.autonomy_level preset sa;
          rate_limits = structured_limits preset sa;
          rollback = rollback_of preset.rollback_playbook;
        }

    abbrev pub legacy_rules : N → DomainGuardrailPreset → List GuardrailsApproval
    legacy_rules autonomy preset =
        legacy_base a autonomy
        ++ (high_risk a
            ∷ (if a.lt autonomy (a.thousandths 800) then preset.extra_approvals else []))

    unfoldable pub compile_legacy : SessionState N → GuardrailsV1
    unfolding preset_of
    compile_legacy session =
        let preset = preset_of (domain_of session) in
        record {
          schema_version = "guardrails.v1";
          permissions = preset.permissions;
          approvals = legacy_rules (legacy_autonomy a session) preset;
          rate_limits =
              limit_of "*:*" (round_hundredths (100 * preset.rate_limit_multiplier * 10)) ∷ [];
          rollback = rollback_of preset.rollback_playbook;
        }

    unfoldable pub by_answers : Option (StructuredAnswers N) → SessionState N → GuardrailsV1
    unfolding compile_from_structured_answers compile_legacy
    by_answers none session = compile_legacy session
    by_answers (some sa) session = compile_from_structured_answers sa session

    unfoldable pub compile_guardrails : SessionState N → GuardrailsV1
    unfolding by_answers
    compile_guardrails session = by_answers session.structured_answers session
