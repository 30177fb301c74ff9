-- ===== src/Artifacts/Playbooks/General.antt =====
-- `getGeneralAgentPlaybooks` of TasteKit/tastekit/packages/core/compiler/playbook-compiler.ts.
use oss_agent_tools.Prelude.{true, false, none, some, List, [], ◌∷◌}
use oss_agent_tools.Artifacts.Playbooks.{
  PlaybookV1, manual, think, tool, write, approval_gate, text, texts, taste, safety, format, facts,
}

abbrev pub general_task_execution : PlaybookV1
general_task_execution = record {
  schema_version = "playbook.v1";
  id = "general-task-execution";
  name = "General Task Execution";
  description =
      "Synthesize context, orchestrate execution, and close with a concise delivery summary.";
  triggers = ((record { type = manual; schedule = none; event_pattern = none }) ∷ []);
  inputs =
      ((record {
        name = "goal";
        type = "string";
        required = true;
        description = some "Desired outcome to achieve";
      })
        ∷ (record {
          name = "context_sources";
          type = "string";
          required = false;
          description = some "Relevant files/notes/links to ground the task";
        })
        ∷ (record {
          name = "constraints";
          type = "string";
          required = false;
          description = some "Policy, timeline, budget, or tooling constraints";
        })
        ∷ []);
  steps =
      ((record {
        step_id = "synthesize-context";
        type = tool;
        tool_ref = some "skill:context-synthesis";
        params_template =
            some (("question", text "{{goal}}") ∷ ("sources", text "{{context_sources}}") ∷ []);
        outputs = some ("context_brief" ∷ []);
      })
        ∷ (record {
          step_id = "plan-work";
          type = think;
          tool_ref = none;
          params_template = some (
              ("goal", text "{{goal}}")
              ∷ ("constraints", text "{{constraints}}")
              ∷ ("context", text "{{context_brief}}")
              ∷ []);
          outputs = some ("execution_plan" ∷ []);
        })
        ∷ (record {
          step_id = "execute-work";
          type = tool;
          tool_ref = some "skill:task-orchestration";
          params_template = some (
              ("goal", text "{{goal}}")
              ∷ ("constraints", text "{{constraints}}")
              ∷ ("context_snapshot", text "{{context_brief}}")
              ∷ []);
          outputs = some ("execution_result" ∷ []);
        })
        ∷ (record {
          step_id = "approval-checkpoint";
          type = approval_gate;
          tool_ref = none;
          params_template = some (
              ("message", text "Review execution summary before final delivery.")
              ∷ ("summary", text "{{execution_result}}")
              ∷ []);
          outputs = some ("approved_result" ∷ []);
        })
        ∷ (record {
          step_id = "finalize";
          type = write;
          tool_ref = none;
          params_template =
              some (
                ("content", text "{{approved_result}}") ∷ ("format", text "operator_summary") ∷ []);
          outputs = some ("final_output" ∷ []);
        })
        ∷ []);
  checks =
      ((record {
        check_id = "goal-alignment";
        type = taste;
        rubric_ref = none;
        condition = "Execution result directly addresses the user goal and operating principles";
      })
        ∷ (record {
          check_id = "risk-compliance";
          type = safety;
          rubric_ref = none;
          condition = "No taboo or high-risk action was executed without required escalation";
        })
        ∷ (record {
          check_id = "evidence-quality";
          type = facts;
          rubric_ref = none;
          condition =
              "Claims in the final output reflect context synthesis confidence and citation expectations";
        })
        ∷ []);
  stop_conditions =
      ((record {
        condition = "Critical context gaps remain unresolved after synthesis";
        reason = "Cannot continue safely without additional user input";
      })
        ∷ []);
  escalations =
      ((record {
        escalation_id = "high-risk-action";
        trigger = "Execution requires destructive, irreversible, legal, or financial actions";
        approval_ref = "guardrails.approval_rules.approve_high_risk";
      })
        ∷ []);
}

abbrev pub research_then_act : PlaybookV1
research_then_act = record {
  schema_version = "playbook.v1";
  id = "research-then-act";
  name = "Research Then Act";
  description =
      "Gather context, choose an execution path, and deliver an evidence-backed recommendation or action plan.";
  triggers = ((record { type = manual; schedule = none; event_pattern = none }) ∷ []);
  inputs =
      ((record {
        name = "question";
        type = "string";
        required = true;
        description = some "Decision or task question to resolve";
      })
        ∷ (record {
          name = "sources";
          type = "string";
          required = false;
          description = some "Optional initial sources to bootstrap synthesis";
        })
        ∷ (record {
          name = "decision_deadline";
          type = "string";
          required = false;
          description = some "Optional timing constraint for recommendation";
        })
        ∷ []);
  steps =
      ((record {
        step_id = "capture-context";
        type = tool;
        tool_ref = some "skill:context-synthesis";
        params_template =
            some (("question", text "{{question}}") ∷ ("sources", text "{{sources}}") ∷ []);
        outputs = some ("brief" ∷ "confidence_map" ∷ "open_questions" ∷ []);
      })
        ∷ (record {
          step_id = "select-path";
          type = think;
          tool_ref = none;
          params_template = some (
              ("brief", text "{{brief}}")
              ∷ ("confidence_map", text "{{confidence_map}}")
              ∷ ("deadline", text "{{decision_deadline}}")
              ∷ (
                "instruction",
                text "Select a recommended path with two alternatives and explicit tradeoffs.",
              )
              ∷ []);
          outputs = some ("recommended_path" ∷ []);
        })
        ∷ (record {
          step_id = "execute-path";
          type = tool;
          tool_ref = some "skill:task-orchestration";
          params_template = some (
              ("goal", text "{{question}}")
              ∷ ("context_snapshot", text "{{brief}}")
              ∷ ("constraints", text "{{decision_deadline}}")
              ∷ []);
          outputs = some ("path_result" ∷ []);
        })
        ∷ (record {
          step_id = "deliver";
          type = write;
          tool_ref = none;
          params_template = some (
              ("content", text "{{path_result}}")
              ∷ ("include", texts ("recommended_path" ∷ "confidence_map" ∷ "open_questions" ∷ []))
              ∷ []);
          outputs = some ("delivery_packet" ∷ []);
        })
        ∷ []);
  checks =
      ((record {
        check_id = "traceability";
        type = facts;
        rubric_ref = none;
        condition =
            "Recommendation and actions are traceable to synthesized context and confidence markers";
      })
        ∷ (record {
          check_id = "format-quality";
          type = format;
          rubric_ref = none;
          condition =
              "Delivery packet clearly separates facts, assumptions, risks, and next actions";
        })
        ∷ []);
  stop_conditions =
      ((record {
        condition = "No viable path can be recommended from available evidence";
        reason = "Insufficient confidence to proceed responsibly";
      })
        ∷ []);
  escalations =
      ((record {
        escalation_id = "policy-or-risk-blocker";
        trigger =
            "Recommended path conflicts with trust/guardrail policy or crosses high-risk thresholds";
        approval_ref = "guardrails.approval_rules.approve_high_risk";
      })
        ∷ []);
}

unfoldable pub general_agent_playbooks : List PlaybookV1
general_agent_playbooks = general_task_execution ∷ research_then_act ∷ []
