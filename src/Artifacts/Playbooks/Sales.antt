-- ===== src/Artifacts/Playbooks/Sales.antt =====
-- `getSalesAgentPlaybooks` of TasteKit/tastekit/packages/core/compiler/playbook-compiler.ts.
use oss_agent_tools.Prelude.{true, false, none, some, List, [], ◌∷◌}
use oss_agent_tools.Artifacts.Playbooks.{
  PlaybookV1, manual, think, tool, write, approval_gate, text, whole, taste, safety, format,
}

abbrev pub lead_outreach : PlaybookV1
lead_outreach = record {
  schema_version = "playbook.v1";
  id = "lead-outreach";
  name = "Lead Outreach";
  description = "Initial outreach to a new lead: research, qualify, draft email, review, send.";
  triggers = ((record { type = manual; schedule = none; event_pattern = none }) ∷ []);
  inputs =
      ((record {
        name = "lead_data";
        type = "string";
        required = true;
        description = some "Lead information (name, company, role, context)";
      })
        ∷ (record {
          name = "outreach_type";
          type = "string";
          required = false;
          description = some "Type of outreach (cold, warm, referral)";
        })
        ∷ []);
  steps =
      ((record {
        step_id = "qualify-lead";
        type = tool;
        tool_ref = some "skill:lead-qualification";
        params_template = some (("lead_data", text "{{lead_data}}") ∷ []);
        outputs = some ("qualification" ∷ []);
      })
        ∷ (record {
          step_id = "assess-fit";
          type = think;
          tool_ref = none;
          params_template = some (
              ("qualification", text "{{qualification}}")
              ∷ ("instruction", text "Determine if lead is worth pursuing and best approach")
              ∷ []);
          outputs = some ("approach_decision" ∷ []);
        })
        ∷ (record {
          step_id = "draft-email";
          type = tool;
          tool_ref = some "skill:outreach-email";
          params_template = some (
              ("recipient", text "{{lead_data}}")
              ∷ ("purpose", text "{{outreach_type || \"cold_outreach\"}}")
              ∷ ("context", text "{{approach_decision}}")
              ∷ ("sequence_position", whole 1)
              ∷ []);
          outputs = some ("draft_email" ∷ []);
        })
        ∷ (record {
          step_id = "review-email";
          type = approval_gate;
          tool_ref = none;
          params_template = some (
              ("message", text "Review outreach email before sending.")
              ∷ ("email", text "{{draft_email}}")
              ∷ ("qualification", text "{{qualification}}")
              ∷ []);
          outputs = some ("approved_email" ∷ []);
        })
        ∷ (record {
          step_id = "send";
          type = tool;
          tool_ref = some "email-sender";
          params_template = some (("email", text "{{approved_email}}") ∷ []);
          outputs = some ("send_result" ∷ []);
        })
        ∷ []);
  checks =
      ((record {
        check_id = "qualification-check";
        type = taste;
        rubric_ref = none;
        condition = "Lead meets minimum qualification criteria before outreach";
      })
        ∷ (record {
          check_id = "compliance-check";
          type = safety;
          rubric_ref = none;
          condition = "Email complies with CAN-SPAM/GDPR regulations";
        })
        ∷ (record {
          check_id = "tone-check";
          type = taste;
          rubric_ref = none;
          condition = "Email matches sales communication style from constitution";
        })
        ∷ []);
  stop_conditions =
      ((record {
        condition = "Lead scores D or is disqualified";
        reason = "Lead does not meet minimum qualification criteria";
      })
        ∷ []);
  escalations =
      ((record {
        escalation_id = "high-value-lead";
        trigger = "Lead is enterprise-tier or strategic account";
        approval_ref = "guardrails.approval_rules.strategic_outreach";
      })
        ∷ []);
}

abbrev pub proposal_workflow : PlaybookV1
proposal_workflow = record {
  schema_version = "playbook.v1";
  id = "proposal-workflow";
  name = "Proposal Workflow";
  description = "Create and deliver a sales proposal: gather requirements, draft, review, deliver.";
  triggers = ((record { type = manual; schedule = none; event_pattern = none }) ∷ []);
  inputs =
      ((record {
        name = "prospect";
        type = "string";
        required = true;
        description = some "Prospect information and deal context";
      })
        ∷ (record {
          name = "requirements";
          type = "string";
          required = true;
          description = some "Gathered requirements and pain points";
        })
        ∷ (record {
          name = "proposal_format";
          type = "string";
          required = false;
          description = some "Desired format (doc, deck, email)";
        })
        ∷ []);
  steps =
      ((record {
        step_id = "analyze-requirements";
        type = think;
        tool_ref = none;
        params_template = some (
            ("prospect", text "{{prospect}}")
            ∷ ("requirements", text "{{requirements}}")
            ∷ ("instruction", text "Analyze requirements and map to solution components")
            ∷ []);
        outputs = some ("solution_mapping" ∷ []);
      })
        ∷ (record {
          step_id = "draft-proposal";
          type = write;
          tool_ref = none;
          params_template = some (
              ("content", text "{{solution_mapping}}")
              ∷ ("format", text "{{proposal_format || \"detailed_document\"}}")
              ∷ []);
          outputs = some ("draft_proposal" ∷ []);
        })
        ∷ (record {
          step_id = "review-proposal";
          type = approval_gate;
          tool_ref = none;
          params_template = some (
              ("message", text "Review proposal before delivering to prospect.")
              ∷ ("proposal", text "{{draft_proposal}}")
              ∷ ("context", text "{{requirements}}")
              ∷ []);
          outputs = some ("approved_proposal" ∷ []);
        })
        ∷ (record {
          step_id = "deliver";
          type = write;
          tool_ref = none;
          params_template =
              some (
                ("content", text "{{approved_proposal}}") ∷ ("format", text "final_proposal") ∷ []);
          outputs = some ("delivered_proposal" ∷ []);
        })
        ∷ []);
  checks =
      ((record {
        check_id = "requirements-coverage";
        type = taste;
        rubric_ref = none;
        condition = "Proposal addresses all stated requirements";
      })
        ∷ (record {
          check_id = "pricing-check";
          type = safety;
          rubric_ref = none;
          condition = "Pricing is within approved ranges and discount policies";
        })
        ∷ (record {
          check_id = "brand-consistency";
          type = format;
          rubric_ref = none;
          condition = "Proposal follows brand guidelines and formatting standards";
        })
        ∷ []);
  stop_conditions =
      ((record {
        condition = "Requirements are unclear or contradictory";
        reason = "Cannot create proposal without clear requirements";
      })
        ∷ []);
  escalations =
      ((record {
        escalation_id = "custom-pricing";
        trigger = "Proposal requires pricing outside standard range";
        approval_ref = "guardrails.approval_rules.pricing_override";
      })
        ∷ []);
}

unfoldable pub sales_agent_playbooks : List PlaybookV1
sales_agent_playbooks = lead_outreach ∷ proposal_workflow ∷ []
