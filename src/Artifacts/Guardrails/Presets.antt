-- ===== src/Artifacts/Guardrails/Presets.antt =====
-- The table of presets of TasteKit/tastekit/packages/core/compiler/guardrails-compiler.ts.
use oss_agent_tools.Prelude.{String, none, some, List, [], ◌∷◌}
use oss_agent_tools.AutoManage.Status.{codes}
use oss_agent_tools.Artifacts.Guardrails.{
  DomainGuardrailPreset, read, write, execute, post, publish, require_approval, cli,
}

abbrev pub content_guardrails : DomainGuardrailPreset
content_guardrails = record {
  permissions =
      ((record {
        scope_id = "content_read";
        tool_ref = "*:*";
        resources = ("content/*" ∷ "analytics/*" ∷ "trends/*" ∷ []);
        ops = (read ∷ []);
      })
        ∷ (record {
          scope_id = "content_write";
          tool_ref = "*:*";
          resources = ("drafts/*" ∷ "content/*" ∷ []);
          ops = (write ∷ []);
        })
        ∷ (record {
          scope_id = "content_publish";
          tool_ref = "*:*";
          resources = ("posts/*" ∷ "social/*" ∷ []);
          ops = (publish ∷ post ∷ []);
        })
        ∷ []);
  extra_approvals =
      ((record {
        rule_id = (codes "approve_publish");
        when = (codes "action.ops contains \"publish\" || action.ops contains \"post\"");
        action = require_approval;
        channel = cli;
      })
        ∷ []);
  rate_limit_multiplier = 15;
  rollback_playbook = some "content-rollback";
}

abbrev pub sales_guardrails : DomainGuardrailPreset
sales_guardrails = record {
  permissions =
      ((record {
        scope_id = "crm_read";
        tool_ref = "*:*";
        resources = ("leads/*" ∷ "contacts/*" ∷ "deals/*" ∷ []);
        ops = (read ∷ []);
      })
        ∷ (record {
          scope_id = "crm_write";
          tool_ref = "*:*";
          resources = ("leads/*" ∷ "contacts/*" ∷ "deals/*" ∷ []);
          ops = (write ∷ []);
        })
        ∷ (record {
          scope_id = "outreach";
          tool_ref = "*:*";
          resources = ("emails/*" ∷ "messages/*" ∷ []);
          ops = (write ∷ execute ∷ []);
        })
        ∷ []);
  extra_approvals =
      ((record {
        rule_id = (codes "approve_outreach");
        when = (codes "action.ops contains \"execute\" && action.resources matches \"emails/*\"");
        action = require_approval;
        channel = cli;
      })
        ∷ (record {
          rule_id = (codes "approve_deal_changes");
          when = (codes "action.resources matches \"deals/*\" && action.ops contains \"write\"");
          action = require_approval;
          channel = cli;
        })
        ∷ []);
  rate_limit_multiplier = 10;
  rollback_playbook = some "sales-rollback";
}

abbrev pub development_guardrails : DomainGuardrailPreset
development_guardrails = record {
  permissions =
      ((record {
        scope_id = "code_read";
        tool_ref = "*:*";
        resources = ("src/*" ∷ "tests/*" ∷ "docs/*" ∷ "config/*" ∷ []);
        ops = (read ∷ []);
      })
        ∷ (record {
          scope_id = "code_write";
          tool_ref = "*:*";
          resources = ("src/*" ∷ "tests/*" ∷ "docs/*" ∷ []);
          ops = (write ∷ []);
        })
        ∷ (record {
          scope_id = "code_execute";
          tool_ref = "*:*";
          resources = ("tests/*" ∷ "scripts/*" ∷ []);
          ops = (execute ∷ []);
        })
        ∷ []);
  extra_approvals =
      ((record {
        rule_id = (codes "approve_deploy");
        when = (codes "action.ops contains \"execute\" && action.resources matches \"deploy/*\"");
        action = require_approval;
        channel = cli;
      })
        ∷ []);
  rate_limit_multiplier = 20;
  rollback_playbook = some "dev-rollback";
}

abbrev pub research_guardrails : DomainGuardrailPreset
research_guardrails = record {
  permissions =
      ((record {
        scope_id = "research_read";
        tool_ref = "*:*";
        resources = ("sources/*" ∷ "papers/*" ∷ "data/*" ∷ []);
        ops = (read ∷ []);
      })
        ∷ (record {
          scope_id = "research_write";
          tool_ref = "*:*";
          resources = ("notes/*" ∷ "reports/*" ∷ "analysis/*" ∷ []);
          ops = (write ∷ []);
        })
        ∷ []);
  extra_approvals =
      ((record {
        rule_id = (codes "approve_data_export");
        when = (codes "action.ops contains \"publish\" || action.resources matches \"reports/*\"");
        action = require_approval;
        channel = cli;
      })
        ∷ []);
  rate_limit_multiplier = 20;
  rollback_playbook = none;
}

abbrev pub support_guardrails : DomainGuardrailPreset
support_guardrails = record {
  permissions =
      ((record {
        scope_id = "support_read";
        tool_ref = "*:*";
        resources = ("tickets/*" ∷ "knowledge-base/*" ∷ "customers/*" ∷ []);
        ops = (read ∷ []);
      })
        ∷ (record {
          scope_id = "support_write";
          tool_ref = "*:*";
          resources = ("tickets/*" ∷ "responses/*" ∷ []);
          ops = (write ∷ []);
        })
        ∷ []);
  extra_approvals =
      ((record {
        rule_id = (codes "approve_customer_response");
        when = (codes "action.ops contains \"write\" && action.resources matches \"responses/*\"");
        action = require_approval;
        channel = cli;
      })
        ∷ (record {
          rule_id = (codes "approve_escalation");
          when = (codes "action.tags contains \"escalation\"");
          action = require_approval;
          channel = cli;
        })
        ∷ []);
  rate_limit_multiplier = 10;
  rollback_playbook = some "support-rollback";
}

abbrev pub general_guardrails : DomainGuardrailPreset
general_guardrails = record {
  permissions =
      ((record {
        scope_id = "general_read";
        tool_ref = "*:*";
        resources = ("*" ∷ []);
        ops = (read ∷ []);
      })
        ∷ (record {
          scope_id = "general_write";
          tool_ref = "*:*";
          resources = ("*" ∷ []);
          ops = (write ∷ []);
        })
        ∷ []);
  extra_approvals = [];
  rate_limit_multiplier = 10;
  rollback_playbook = none;
}

unfoldable pub domain_presets : List (String × DomainGuardrailPreset)
domain_presets =
    ("content-agent", content_guardrails)
    ∷ ("sales-agent", sales_guardrails)
    ∷ ("development-agent", development_guardrails)
    ∷ ("research-agent", research_guardrails)
    ∷ ("support-agent", support_guardrails)
    ∷ ("general-agent", general_guardrails)
    ∷ []
