-- ===== src/Drift/Proposals.antt =====
-- `createProposalFromSignal` of detector.ts: it reads the signal's open context by key, where a
-- missing key reads as undefined. `show_object` is the text that JavaScript gives an object.
use oss_agent_tools.Prelude.{
  ℕ, String, Option, none, some, List, [], ◌∷◌, string_key, lookup, map, length, ltb, or_else,
  if◌then◌else◌, concat,
}
use oss_agent_tools.Trace.{Value, null, bool, number, str, reference}
use oss_agent_tools.Details.{Details, Datum, one, many, count, decimal, join}
use oss_agent_tools.Drift.{
  DriftSignalType, repeated_edit, principle_violation, user_correction, tool_change, staleness,
  coverage_gap, assertion_mismatch, ProposedConstitutionChange, SuggestSkill, ModifySkill,
  ProposedChanges, RiskRating, low, medium, high, DriftProposal, DriftSignal,
}

-- What the clock and the random source answer for one proposal.
pub record Stamp : Type 0 where
  pub now_ms : ℕ
  pub random : String
  pub now_iso : String

abbrev no_changes : ProposedChanges
no_changes = record { constitution = none; guardrails = none; tone = none; skills = none }

abbrev constitution_change : ProposedConstitutionChange → ProposedChanges
constitution_change c = record no_changes { constitution = some c }

abbrev add_principle_change : String → ℕ → List Value → ProposedChanges
add_principle_change statement priority applies_to = constitution_change (record {
  add_principle =
      some (record { statement = statement; priority = priority; applies_to = applies_to });
  modify_principle = none;
  remove_principle = none;
})

abbrev skills_change : Option SuggestSkill → Option ModifySkill → ProposedChanges
skills_change suggest modify = record no_changes {
  skills = some (record { suggest_skill = suggest; modify_skill = modify });
}

abbrev pub risk_of : ℕ → RiskRating
risk_of n = if ltb 10 n then high else if ltb 5 n then medium else low

-- `context.key`, cast to an array.
abbrev values_at : Option Datum → Option (List Value)
values_at (some (many vs)) = some vs
values_at _ = none

module _ (show_object : ℕ → String) where
  abbrev show_value : Value → String
  show_value null = "null"
  show_value (bool b) = if b then "true" else "false"
  show_value (number t) = t
  show_value (str s) = s
  show_value (reference n) = show_object n

  -- `context.key` in a template.
  abbrev show_one : Option Datum → String
  show_one none = "undefined"
  show_one (some (one v)) = show_value v
  show_one (some (count n)) = decimal n
  show_one (some (many vs)) = join (map show_value vs)

  -- `context.key as string[]`.
  abbrev texts_at : Option Datum → Option (List String)
  texts_at (some (many vs)) = some (map show_value vs)
  texts_at _ = none

  -- `(...)?.join(', ')` in a template.
  abbrev show_joined : Option (List String) → String
  show_joined none = "undefined"
  show_joined (some ts) = join ts

  abbrev quoted : String → String → String → String
  quoted before middle after = concat before (concat middle after)

  -- `join`ed texts of a key.
  abbrev joined_at : String → Details → String
  joined_at key context = show_joined (texts_at (lookup key context))

  first_text : Option (List String) → String
  first_text (some (t ∷ ts)) = t
  first_text _ = "unknown"

  abbrev known : String → Details → List String
  known key context = or_else (texts_at (lookup key context)) []

  unfoldable pub rationale_for : DriftSignalType → ℕ → Details → String
  rationale_for repeated_edit n context =
      quoted "User repeatedly rejected actions with reason: \"" (show_one (lookup "reason" context))
        "\". This suggests a principle or preference that should be captured."
  rationale_for principle_violation n context =
      quoted "Multiple errors detected (" (decimal n)
        " occurrences). Review and update guardrails or principles."
  rationale_for user_correction n context = quoted "User corrected agent output " (decimal n) (
      quoted " times on: " (joined_at "corrected_artifacts" context)
        ". The agent may be misunderstanding preferences.")
  rationale_for tool_change n context =
      quoted "Multiple tools used for skill \"" (show_one (lookup "skill_id" context))
        (quoted "\": " (joined_at "tools_used" context) ". Consider binding a preferred tool.")
  rationale_for staleness n context =
      quoted "Constitution was compiled " (show_one (lookup "days_since" context))
        " days ago. Consider recompiling to reflect any evolved preferences."
  rationale_for coverage_gap n context =
      quoted "Used skills/tools not in manifest: skills=[" (join (known "unknown_skills" context)) (
        quoted "], tools=[" (join (known "unknown_tools" context))
          "]. Consider adding to configuration.")
  rationale_for assertion_mismatch n context = quoted "Principles were violated " (decimal n) (
      quoted " times (principles: " (joined_at "affected_principles" context)
        "). Either the principles are wrong or enforcement is broken.")

  unfoldable pub changes_for : DriftSignalType → Details → ProposedChanges
  unfolding first_text
  changes_for repeated_edit context =
      add_principle_change (concat "Avoid: " (show_one (lookup "reason" context))) 10 (str "*" ∷ [])
  changes_for principle_violation context = record no_changes {
    guardrails = some (record {
      add_approval = some (record {
        rule_id = "auto-detected-violation";
        when = "Similar error pattern detected";
        action = "require_approval";
      });
      modify_rate_limit = none;
    });
  }
  changes_for user_correction context =
      add_principle_change
        "Review output carefully before submitting — user has corrected similar work before" 5
        (or_else (values_at (lookup "corrected_artifacts" context)) (str "*" ∷ []))
  changes_for tool_change context = skills_change none (
      some (record {
        skill_id = show_one (lookup "skill_id" context);
        changes = concat "Bind to preferred tool from: " (joined_at "tools_used" context);
      }))
  changes_for staleness context = no_changes
  changes_for coverage_gap context =
      if ltb 0 (length (known "unknown_skills" context))
      then skills_change
          (some (record {
            description =
                concat "Add skill definitions for: " (join (known "unknown_skills" context));
            reason = "Used in traces but not configured";
          }))
          none
      else no_changes
  changes_for assertion_mismatch context = constitution_change (record {
    add_principle = none;
    modify_principle = some (record {
      id = first_text (texts_at (lookup "affected_principles" context));
      changes = record {
        statement = none;
        priority = none;
        rationale = some "Review: this principle is being violated in practice";
        applies_to = none;
      };
    });
    remove_principle = none;
  })

  unfoldable pub create_proposal_from_signal : Stamp → DriftSignal → DriftProposal
  unfolding rationale_for changes_for
  create_proposal_from_signal stamp signal = record {
    proposal_id = concat "drift_" (concat (decimal stamp.now_ms) (concat "_" stamp.random));
    created_at = stamp.now_iso;
    signal_type = signal.signal_type;
    frequency = signal.frequency;
    rationale = rationale_for signal.signal_type signal.frequency signal.context;
    proposed_changes = changes_for signal.signal_type signal.context;
    risk_rating = risk_of signal.frequency;
    evidence = record {
      event_refs = none;
      reason = lookup "reason" signal.context;
      occurrences = some signal.frequency;
      affected_ids = none;
      context = some signal.context;
    };
  }
