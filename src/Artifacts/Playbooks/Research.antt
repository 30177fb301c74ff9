-- ===== src/Artifacts/Playbooks/Research.antt =====
-- `getResearchAgentPlaybooks` of TasteKit/tastekit/packages/core/compiler/playbook-compiler.ts.
use oss_agent_tools.Prelude.{true, false, none, some, List, [], ◌∷◌}
use oss_agent_tools.Artifacts.Playbooks.{
  PlaybookV1, manual, think, tool, write, approval_gate, text, whole, taste, format, facts,
}

abbrev pub quick_lookup : PlaybookV1
quick_lookup = record {
  schema_version = "playbook.v1";
  id = "quick-lookup";
  name = "Quick Lookup";
  description = "Simple fact-finding: research a question, synthesize findings, present answer.";
  triggers = ((record { type = manual; schedule = none; event_pattern = none }) ∷ []);
  inputs =
      ((record {
        name = "question";
        type = "string";
        required = true;
        description = some "The question to research";
      })
        ∷ (record {
          name = "source_preferences";
          type = "string";
          required = false;
          description = some "Preferred source types";
        })
        ∷ []);
  steps =
      ((record {
        step_id = "research";
        type = tool;
        tool_ref = some "skill:web-research";
        params_template = some (
            ("topic", text "{{question}}")
            ∷ ("scope", text "narrow")
            ∷ ("max_sources", whole 5)
            ∷ []);
        outputs = some ("research_findings" ∷ []);
      })
        ∷ (record {
          step_id = "synthesize";
          type = think;
          tool_ref = none;
          params_template = some (
              ("findings", text "{{research_findings}}")
              ∷ ("instruction", text "Synthesize findings into a concise answer")
              ∷ []);
          outputs = some ("answer" ∷ []);
        })
        ∷ (record {
          step_id = "format-output";
          type = write;
          tool_ref = none;
          params_template =
              some (("content", text "{{answer}}") ∷ ("format", text "research_summary") ∷ []);
          outputs = some ("final_answer" ∷ []);
        })
        ∷ []);
  checks =
      ((record {
        check_id = "source-quality";
        type = facts;
        rubric_ref = none;
        condition = "Answer is supported by credible sources";
      })
        ∷ (record {
          check_id = "completeness";
          type = taste;
          rubric_ref = none;
          condition = "Answer addresses the original question fully";
        })
        ∷ []);
  stop_conditions =
      ((record {
        condition = "No relevant sources found";
        reason = "Cannot answer without credible sources";
      })
        ∷ []);
  escalations = [];
}

abbrev pub deep_dive_analysis : PlaybookV1
deep_dive_analysis = record {
  schema_version = "playbook.v1";
  id = "deep-dive-analysis";
  name = "Deep Dive Analysis";
  description =
      "Multi-source research: plan scope, gather sources, cross-reference, synthesize, and review.";
  triggers = ((record { type = manual; schedule = none; event_pattern = none }) ∷ []);
  inputs =
      ((record {
        name = "topic";
        type = "string";
        required = true;
        description = some "Research topic";
      })
        ∷ (record {
          name = "scope";
          type = "string";
          required = false;
          description = some "Research scope and boundaries";
        })
        ∷ (record {
          name = "output_format";
          type = "string";
          required = false;
          description = some "Desired output format";
        })
        ∷ []);
  steps =
      ((record {
        step_id = "plan-scope";
        type = think;
        tool_ref = none;
        params_template = some (
            ("topic", text "{{topic}}")
            ∷ ("instruction", text "Define research scope, key questions, and source strategy")
            ∷ []);
        outputs = some ("research_plan" ∷ []);
      })
        ∷ (record {
          step_id = "gather-sources";
          type = tool;
          tool_ref = some "skill:web-research";
          params_template = some (
              ("topic", text "{{topic}}")
              ∷ ("scope", text "broad")
              ∷ ("max_sources", whole 15)
              ∷ []);
          outputs = some ("raw_findings" ∷ []);
        })
        ∷ (record {
          step_id = "cross-reference";
          type = think;
          tool_ref = none;
          params_template = some (
              ("findings", text "{{raw_findings}}")
              ∷ ("instruction", text "Cross-reference findings, identify consensus and conflicts")
              ∷ []);
          outputs = some ("verified_findings" ∷ []);
        })
        ∷ (record {
          step_id = "synthesize";
          type = think;
          tool_ref = none;
          params_template = some (
              ("findings", text "{{verified_findings}}")
              ∷ ("plan", text "{{research_plan}}")
              ∷ ("instruction", text "Synthesize into structured analysis with citations")
              ∷ []);
          outputs = some ("analysis" ∷ []);
        })
        ∷ (record {
          step_id = "review";
          type = approval_gate;
          tool_ref = none;
          params_template = some (
              (
                "message",
                text "Review the research analysis. Approve or request deeper investigation.",
              )
              ∷ ("analysis", text "{{analysis}}")
              ∷ []);
          outputs = some ("approved_analysis" ∷ []);
        })
        ∷ (record {
          step_id = "finalize";
          type = write;
          tool_ref = none;
          params_template = some (
              ("content", text "{{approved_analysis}}")
              ∷ ("format", text "{{output_format || \"detailed_report\"}}")
              ∷ []);
          outputs = some ("final_report" ∷ []);
        })
        ∷ []);
  checks =
      ((record {
        check_id = "multi-source";
        type = facts;
        rubric_ref = none;
        condition = "Key claims supported by multiple independent sources";
      })
        ∷ (record {
          check_id = "bias-check";
          type = taste;
          rubric_ref = none;
          condition = "Analysis presents balanced perspectives where applicable";
        })
        ∷ (record {
          check_id = "citation-quality";
          type = format;
          rubric_ref = none;
          condition = "All claims properly cited per user citation standards";
        })
        ∷ []);
  stop_conditions =
      ((record {
        condition = "Insufficient credible sources on the topic";
        reason = "Cannot produce reliable analysis without adequate sourcing";
      })
        ∷ []);
  escalations =
      ((record {
        escalation_id = "sensitive-research";
        trigger = "Research involves confidential, proprietary, or ethically sensitive data";
        approval_ref = "guardrails.approval_rules.research_ethics";
      })
        ∷ []);
}

unfoldable pub research_agent_playbooks : List PlaybookV1
research_agent_playbooks = quick_lookup ∷ deep_dive_analysis ∷ []
