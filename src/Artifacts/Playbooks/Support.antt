-- ===== src/Artifacts/Playbooks/Support.antt =====
-- `getSupportAgentPlaybooks` of TasteKit/tastekit/packages/core/compiler/playbook-compiler.ts.
use oss_agent_tools.Prelude.{true, false, none, some, List, [], ◌∷◌}
use oss_agent_tools.Artifacts.Playbooks.{
  PlaybookV1, event, manual, think, tool, write, approval_gate, text, taste, format,
}

abbrev pub standard_ticket : PlaybookV1
standard_ticket = record {
  schema_version = "playbook.v1";
  id = "standard-ticket";
  name = "Standard Ticket Resolution";
  description = "Standard ticket flow: triage, research, draft response, review, send.";
  triggers =
      ((record { type = manual; schedule = none; event_pattern = none })
        ∷ (record { type = event; schedule = none; event_pattern = some "ticket.created" })
        ∷ []);
  inputs =
      ((record {
        name = "ticket";
        type = "string";
        required = true;
        description = some "Ticket content and customer info";
      })
        ∷ (record {
          name = "channel";
          type = "string";
          required = false;
          description = some "Support channel (email, chat, etc.)";
        })
        ∷ []);
  steps =
      ((record {
        step_id = "triage";
        type = tool;
        tool_ref = some "skill:ticket-triage";
        params_template = some (("ticket", text "{{ticket}}") ∷ []);
        outputs = some ("triage_result" ∷ []);
      })
        ∷ (record {
          step_id = "research-solution";
          type = think;
          tool_ref = none;
          params_template = some (
              ("ticket", text "{{ticket}}")
              ∷ ("triage", text "{{triage_result}}")
              ∷ ("instruction", text "Research the issue and identify the best resolution")
              ∷ []);
          outputs = some ("resolution" ∷ []);
        })
        ∷ (record {
          step_id = "draft-response";
          type = tool;
          tool_ref = some "skill:response-draft";
          params_template = some (
              ("ticket", text "{{ticket}}")
              ∷ ("channel", text "{{channel || \"email\"}}")
              ∷ ("triage", text "{{triage_result}}")
              ∷ ("resolution", text "{{resolution}}")
              ∷ []);
          outputs = some ("draft_response" ∷ []);
        })
        ∷ (record {
          step_id = "review";
          type = approval_gate;
          tool_ref = none;
          params_template = some (
              ("message", text "Review response before sending to customer.")
              ∷ ("response", text "{{draft_response}}")
              ∷ ("triage", text "{{triage_result}}")
              ∷ []);
          outputs = some ("approved_response" ∷ []);
        })
        ∷ (record {
          step_id = "send";
          type = write;
          tool_ref = none;
          params_template = some (
              ("content", text "{{approved_response}}")
              ∷ ("format", text "{{channel}}_response")
              ∷ []);
          outputs = some ("sent_response" ∷ []);
        })
        ∷ []);
  checks =
      ((record {
        check_id = "tone-match";
        type = taste;
        rubric_ref = none;
        condition = "Response matches support tone and empathy requirements";
      })
        ∷ (record {
          check_id = "resolution-quality";
          type = taste;
          rubric_ref = none;
          condition = "Response actually resolves the issue or clearly explains next steps";
        })
        ∷ (record {
          check_id = "channel-format";
          type = format;
          rubric_ref = none;
          condition = "Response is appropriate for the support channel";
        })
        ∷ []);
  stop_conditions =
      ((record {
        condition = "Ticket requires escalation based on triage";
        reason = "Issue is beyond agent capability or requires human intervention";
      })
        ∷ []);
  escalations =
      ((record {
        escalation_id = "angry-customer";
        trigger = "Customer sentiment is very negative or threatening";
        approval_ref = "guardrails.approval_rules.escalation";
      })
        ∷ (record {
          escalation_id = "billing-dispute";
          trigger = "Ticket involves billing, refunds, or financial matters";
          approval_ref = "guardrails.approval_rules.financial";
        })
        ∷ []);
}

abbrev pub escalation_workflow : PlaybookV1
escalation_workflow = record {
  schema_version = "playbook.v1";
  id = "escalation-workflow";
  name = "Escalation Workflow";
  description =
      "Escalation flow: assess severity, gather context, create escalation package, hand off.";
  triggers = ((record { type = manual; schedule = none; event_pattern = none }) ∷ []);
  inputs =
      ((record {
        name = "ticket";
        type = "string";
        required = true;
        description = some "Ticket requiring escalation";
      })
        ∷ (record {
          name = "reason";
          type = "string";
          required = true;
          description = some "Reason for escalation";
        })
        ∷ (record {
          name = "target_team";
          type = "string";
          required = false;
          description = some "Target team for escalation";
        })
        ∷ []);
  steps =
      ((record {
        step_id = "assess-severity";
        type = think;
        tool_ref = none;
        params_template = some (
            ("ticket", text "{{ticket}}")
            ∷ ("reason", text "{{reason}}")
            ∷ ("instruction", text "Assess severity and determine appropriate escalation level")
            ∷ []);
        outputs = some ("severity_assessment" ∷ []);
      })
        ∷ (record {
          step_id = "gather-context";
          type = think;
          tool_ref = none;
          params_template = some (
              ("ticket", text "{{ticket}}")
              ∷ ("assessment", text "{{severity_assessment}}")
              ∷ (
                "instruction",
                text "Compile all relevant context, customer history, and attempted resolutions",
              )
              ∷ []);
          outputs = some ("escalation_context" ∷ []);
        })
        ∷ (record {
          step_id = "create-package";
          type = write;
          tool_ref = none;
          params_template = some (
              ("content", text "{{escalation_context}}")
              ∷ ("format", text "escalation_package")
              ∷ []);
          outputs = some ("escalation_package" ∷ []);
        })
        ∷ (record {
          step_id = "notify-customer";
          type = tool;
          tool_ref = some "skill:response-draft";
          params_template = some (
              ("ticket", text "{{ticket}}")
              ∷ ("channel", text "email")
              ∷ ("resolution", text "escalation_notification")
              ∷ []);
          outputs = some ("customer_notification" ∷ []);
        })
        ∷ (record {
          step_id = "approve-handoff";
          type = approval_gate;
          tool_ref = none;
          params_template = some (
              (
                "message",
                text "Review escalation package and customer notification before handoff.",
              )
              ∷ ("package", text "{{escalation_package}}")
              ∷ ("notification", text "{{customer_notification}}")
              ∷ []);
          outputs = some ("approved_handoff" ∷ []);
        })
        ∷ []);
  checks =
      ((record {
        check_id = "context-completeness";
        type = taste;
        rubric_ref = none;
        condition = "Escalation package includes all relevant context and attempted resolutions";
      })
        ∷ (record {
          check_id = "customer-communication";
          type = taste;
          rubric_ref = none;
          condition = "Customer is notified about the escalation with appropriate empathy";
        })
        ∷ []);
  stop_conditions =
      ((record {
        condition = "Issue is resolved during escalation preparation";
        reason = "Resolution found, escalation no longer needed";
      })
        ∷ []);
  escalations =
      ((record {
        escalation_id = "critical-severity";
        trigger = "Severity is critical (data loss, security breach, complete outage)";
        approval_ref = "guardrails.approval_rules.critical_escalation";
      })
        ∷ []);
}

unfoldable pub support_agent_playbooks : List PlaybookV1
support_agent_playbooks = standard_ticket ∷ escalation_workflow ∷ []
