-- ===== src/Interview/Rubric/Universal.antt =====
-- The table of TasteKit/tastekit/packages/core/interview/universal-rubric.ts.
use oss_agent_tools.Prelude.{List, [], ◌∷◌, none, some}
use oss_agent_tools.Numbers.{Arithmetic}
use oss_agent_tools.Interview.{
  RubricDimension, quick, guided, operator, principles, tone, tradeoffs, evidence_policy, taboos,
}

module _ {N : Type 0} (a : Arithmetic N) where
  abbrev pub core_purpose : RubricDimension N
  core_purpose = record {
    id = "core_purpose";
    name = "Core Purpose & Goals";
    description =
        "What the user wants to achieve with their agent. Their primary mission, success criteria, and the problem they are solving.";
    maps_to = (principles ∷ []);
    depth_tiers = (quick ∷ guided ∷ operator ∷ []);
    exploration_hints =
        ("Start broad: what problem are they solving?"
          ∷ "Dig into what success looks like concretely"
          ∷ "Understand if this is personal, professional, or both"
          ∷ "Listen for implicit principles in how they describe their goals" ∷ []);
    coverage_criteria =
        ("Clear primary goal stated" ∷ "At least one success metric or criteria identified"
          ∷ "Context for why this matters to them" ∷ []);
    sub_areas = none;
    cascade_to = some (
        (record {
          dimension_id = "guiding_principles";
          weight = (a.thousandths 200);
          condition = none;
        })
        ∷ []);
  }

  abbrev pub guiding_principles : RubricDimension N
  guiding_principles = record {
    id = "guiding_principles";
    name = "Guiding Principles & Values";
    description =
        "The non-negotiable principles that should guide agent behavior. What matters most when making tradeoff decisions.";
    maps_to = (principles ∷ []);
    depth_tiers = (quick ∷ guided ∷ operator ∷ []);
    exploration_hints =
        ("Ask about past experiences where an AI did something they hated"
          ∷ "Ask about what \"good\" looks like vs. \"great\""
          ∷ "Probe for implicit values (e.g., if they say \"just get it done\" that implies speed over perfection)"
          ∷ "At operator depth: ask for priority ordering between conflicting principles" ∷ []);
    coverage_criteria =
        ("At least 2-3 distinct principles identified" ∷ "Rationale understood for each"
          ∷ "Priority ordering established (at guided+ depth)" ∷ []);
    sub_areas = none;
    cascade_to = some (
        (record {
          dimension_id = "communication_tone";
          weight = (a.thousandths 150);
          condition = none;
        })
        ∷ []);
  }

  abbrev pub communication_tone : RubricDimension N
  communication_tone = record {
    id = "communication_tone";
    name = "Communication Style & Tone";
    description =
        "How the agent should communicate. Voice, register, vocabulary level, formatting preferences.";
    maps_to = (tone ∷ []);
    depth_tiers = (quick ∷ guided ∷ operator ∷ []);
    exploration_hints =
        ("Ask them to describe the voice in 3-5 adjectives"
          ∷ "Ask for examples of communication they admire vs. what annoys them"
          ∷ "Probe formatting: do they want bullet points? Headers? Prose?"
          ∷ "At operator depth: explore context-specific tone differences" ∷ []);
    coverage_criteria =
        ("Voice descriptors captured" ∷ "At least one \"never do\" for tone"
          ∷ "Formatting preference expressed" ∷ []);
    sub_areas = none;
    cascade_to = none;
  }

  abbrev pub autonomy_boundaries : RubricDimension N
  autonomy_boundaries = record {
    id = "autonomy_boundaries";
    name = "Autonomy & Decision Boundaries";
    description = "How much latitude the agent has. When to ask vs. when to act. Risk tolerance.";
    maps_to = (tradeoffs ∷ taboos ∷ []);
    depth_tiers = (quick ∷ guided ∷ operator ∷ []);
    exploration_hints =
        ("Frame as a spectrum: \"always ask\" to \"fully autonomous\""
          ∷ "Probe with concrete scenarios: \"what if the agent encounters X?\""
          ∷ "Understand their risk tolerance for different action types"
          ∷ "At operator depth: explore specific escalation triggers" ∷ []);
    coverage_criteria =
        ("General autonomy level established" ∷ "At least one escalation scenario identified"
          ∷ "Risk tolerance direction clear" ∷ []);
    sub_areas = none;
    cascade_to = some (
        (record {
          dimension_id = "hard_boundaries";
          weight = (a.thousandths 300);
          condition = some "Strong autonomy preference implies specific boundary needs";
        })
        ∷ []);
  }

  abbrev pub accuracy_evidence : RubricDimension N
  accuracy_evidence = record {
    id = "accuracy_evidence";
    name = "Accuracy & Evidence Standards";
    description = "How the agent should handle facts, uncertainty, citations, and claims.";
    maps_to = (evidence_policy ∷ tradeoffs ∷ []);
    depth_tiers = (guided ∷ operator ∷ []);
    exploration_hints =
        ("Ask about accuracy vs. speed preference" ∷ "Probe when citations are needed vs. not"
          ∷ "Ask how the agent should express uncertainty"
          ∷ "At operator depth: domain-specific evidence requirements" ∷ []);
    coverage_criteria =
        ("Accuracy/speed tradeoff positioned" ∷ "Citation expectations set"
          ∷ "Uncertainty language preference expressed" ∷ []);
    sub_areas = none;
    cascade_to = some (
        (record {
          dimension_id = "hard_boundaries";
          weight = (a.thousandths 150);
          condition = some "Evidence standards hint at safety boundaries";
        })
        ∷ []);
  }

  abbrev pub hard_boundaries : RubricDimension N
  hard_boundaries = record {
    id = "hard_boundaries";
    name = "Hard Boundaries & Taboos";
    description =
        "Things the agent must never do. Topics to avoid. Actions that always require human approval.";
    maps_to = (taboos ∷ []);
    depth_tiers = (guided ∷ operator ∷ []);
    exploration_hints =
        ("Ask about past negative experiences with AI agents"
          ∷ "Probe for sensitive topics in their domain"
          ∷ "Ask what would make them lose trust in the agent"
          ∷ "At operator depth: distinguish \"never do\" from \"always escalate\"" ∷ []);
    coverage_criteria =
        ("At least one \"never do\" rule identified" ∷ "At least one escalation trigger identified"
          ∷ []);
    sub_areas = none;
    cascade_to = none;
  }

  abbrev pub cost_resource_sensitivity : RubricDimension N
  cost_resource_sensitivity = record {
    id = "cost_resource_sensitivity";
    name = "Cost & Resource Sensitivity";
    description =
        "How cost-sensitive they are. Token budget awareness. Preference for efficiency vs. thoroughness.";
    maps_to = (tradeoffs ∷ []);
    depth_tiers = (operator ∷ []);
    exploration_hints =
        ("Ask about budget constraints or token awareness"
          ∷ "Probe whether they prefer shorter responses to save cost"
          ∷ "Understand if they have rate limits or usage caps" ∷ []);
    coverage_criteria = ("Cost sensitivity level established" ∷ []);
    sub_areas = none;
    cascade_to = none;
  }

  abbrev pub universal_dimensions : List (RubricDimension N)
  universal_dimensions =
      core_purpose ∷ guiding_principles ∷ communication_tone ∷ autonomy_boundaries
      ∷ accuracy_evidence ∷ hard_boundaries ∷ cost_resource_sensitivity ∷ []
