-- ===== src/Artifacts/Playbooks/Content.antt =====
-- `getContentAgentPlaybooks` of TasteKit/tastekit/packages/core/compiler/playbook-compiler.ts.
use oss_agent_tools.Prelude.{true, false, none, some, List, [], ◌∷◌}
use oss_agent_tools.Artifacts.Playbooks.{
  PlaybookV1, cron, manual, think, tool, write, approval_gate, text, whole, taste, format, facts,
}

abbrev pub simple_post : PlaybookV1
simple_post = record {
  schema_version = "playbook.v1";
  id = "simple-post";
  name = "Simple Post Creation";
  description = "Quick workflow: research optional, generate options, user picks, publish.";
  triggers = ((record { type = manual; schedule = none; event_pattern = none }) ∷ []);
  inputs =
      ((record {
        name = "topic";
        type = "string";
        required = true;
        description = some "Topic or subject for the post";
      })
        ∷ (record {
          name = "platform";
          type = "string";
          required = true;
          description = some "Target platform (twitter, linkedin, etc.)";
        })
        ∷ (record {
          name = "tone_override";
          type = "string";
          required = false;
          description = some "Override default voice tone";
        })
        ∷ []);
  steps =
      ((record {
        step_id = "understand-context";
        type = think;
        tool_ref = none;
        params_template = none;
        outputs = some ("context_summary" ∷ []);
      })
        ∷ (record {
          step_id = "generate-options";
          type = tool;
          tool_ref = some "skill:generate-post-options";
          params_template = some (
              ("topic", text "{{topic}}")
              ∷ ("platform", text "{{platform}}")
              ∷ ("num_options", whole 3)
              ∷ []);
          outputs = some ("post_options" ∷ []);
        })
        ∷ (record {
          step_id = "user-selects";
          type = approval_gate;
          tool_ref = none;
          params_template = some (
              ("message", text "Choose a post option or request modifications.")
              ∷ ("options", text "{{post_options}}")
              ∷ []);
          outputs = some ("selected_post" ∷ []);
        })
        ∷ (record {
          step_id = "finalize";
          type = write;
          tool_ref = none;
          params_template =
              some
                (("content", text "{{selected_post}}") ∷ ("format", text "{{platform}}_post") ∷ []);
          outputs = some ("final_post" ∷ []);
        })
        ∷ []);
  checks =
      ((record {
        check_id = "voice-match";
        type = taste;
        rubric_ref = none;
        condition = "Post matches constitution voice_keywords and avoids forbidden_phrases";
      })
        ∷ (record {
          check_id = "platform-fit";
          type = format;
          rubric_ref = none;
          condition = "Post fits platform character limits and format requirements";
        })
        ∷ []);
  stop_conditions =
      ((record {
        condition = "User cancels or rejects all options";
        reason = "User does not want to proceed with any variation";
      })
        ∷ []);
  escalations =
      ((record {
        escalation_id = "sensitive-topic";
        trigger = "Topic involves controversy, politics, or sensitive subjects";
        approval_ref = "guardrails.approval_rules.content_review";
      })
        ∷ []);
}

abbrev pub research_and_post : PlaybookV1
research_and_post = record {
  schema_version = "playbook.v1";
  id = "research-and-post";
  name = "Research-Driven Post";
  description =
      "Full workflow: research trends, generate ideas informed by research, create and review.";
  triggers = ((record { type = manual; schedule = none; event_pattern = none }) ∷ []);
  inputs =
      ((record {
        name = "niche";
        type = "string";
        required = true;
        description = some "Topic area or industry";
      })
        ∷ (record {
          name = "platform";
          type = "string";
          required = true;
          description = some "Target platform";
        })
        ∷ (record {
          name = "timeframe";
          type = "string";
          required = false;
          description = some "Trend timeframe (default: past week)";
        })
        ∷ []);
  steps =
      ((record {
        step_id = "research-trends";
        type = tool;
        tool_ref = some "skill:research-trends";
        params_template = some (
            ("niche", text "{{niche}}")
            ∷ ("platform", text "{{platform}}")
            ∷ ("timeframe", text "{{timeframe || \"past week\"}}")
            ∷ []);
        outputs = some ("trend_data" ∷ []);
      })
        ∷ (record {
          step_id = "analyze-findings";
          type = think;
          tool_ref = none;
          params_template = some (
              ("research", text "{{trend_data}}")
              ∷ (
                "instruction",
                text "Identify the best angle based on research findings and user principles",
              )
              ∷ []);
          outputs = some ("selected_angle" ∷ []);
        })
        ∷ (record {
          step_id = "generate-options";
          type = tool;
          tool_ref = some "skill:generate-post-options";
          params_template = some (
              ("topic", text "{{selected_angle}}")
              ∷ ("platform", text "{{platform}}")
              ∷ ("num_options", whole 3)
              ∷ []);
          outputs = some ("post_options" ∷ []);
        })
        ∷ (record {
          step_id = "user-review";
          type = approval_gate;
          tool_ref = none;
          params_template = some (
              ("message", text "Review options based on trend research. Choose or request changes.")
              ∷ ("options", text "{{post_options}}")
              ∷ ("context", text "{{trend_data}}")
              ∷ []);
          outputs = some ("selected_post" ∷ []);
        })
        ∷ (record {
          step_id = "finalize";
          type = write;
          tool_ref = none;
          params_template =
              some
                (("content", text "{{selected_post}}") ∷ ("format", text "{{platform}}_post") ∷ []);
          outputs = some ("final_post" ∷ []);
        })
        ∷ []);
  checks =
      ((record {
        check_id = "voice-match";
        type = taste;
        rubric_ref = none;
        condition = "Post matches constitution voice_keywords and avoids forbidden_phrases";
      })
        ∷ (record {
          check_id = "trend-relevance";
          type = facts;
          rubric_ref = none;
          condition = "Post is informed by actual research findings, not generic advice";
        })
        ∷ (record {
          check_id = "platform-fit";
          type = format;
          rubric_ref = none;
          condition = "Post fits platform character limits and format requirements";
        })
        ∷ []);
  stop_conditions =
      ((record {
        condition = "No relevant trends found in research";
        reason = "Research did not yield actionable insights";
      })
        ∷ (record { condition = "User cancels"; reason = "User does not want to proceed" })
        ∷ []);
  escalations =
      ((record {
        escalation_id = "sensitive-topic";
        trigger = "Research reveals sensitive or controversial trending topics";
        approval_ref = "guardrails.approval_rules.content_review";
      })
        ∷ []);
}

abbrev pub content_calendar : PlaybookV1
content_calendar = record {
  schema_version = "playbook.v1";
  id = "content-calendar";
  name = "Content Calendar Planning";
  description = "Plan a week of content: research trends, map to themes, schedule posts.";
  triggers =
      ((record { type = manual; schedule = none; event_pattern = none })
        ∷ (record { type = cron; schedule = some "0 9 * * 1"; event_pattern = none })
        ∷ []);
  inputs =
      ((record {
        name = "niche";
        type = "string";
        required = true;
        description = some "Topic area";
      })
        ∷ (record {
          name = "platforms";
          type = "string";
          required = true;
          description = some "Target platforms (comma-separated)";
        })
        ∷ (record {
          name = "posts_per_week";
          type = "number";
          required = false;
          description = some "Posts per week (default: 5)";
        })
        ∷ []);
  steps =
      ((record {
        step_id = "research-trends";
        type = tool;
        tool_ref = some "skill:research-trends";
        params_template = some (
            ("niche", text "{{niche}}")
            ∷ ("platform", text "{{platforms}}")
            ∷ ("timeframe", text "past week")
            ∷ []);
        outputs = some ("trend_data" ∷ []);
      })
        ∷ (record {
          step_id = "plan-themes";
          type = think;
          tool_ref = none;
          params_template = some (
              ("research", text "{{trend_data}}")
              ∷ (
                "instruction",
                text
                    "Map trends to daily themes for {{posts_per_week || 5}} posts across {{platforms}}",
              )
              ∷ []);
          outputs = some ("theme_plan" ∷ []);
        })
        ∷ (record {
          step_id = "review-plan";
          type = approval_gate;
          tool_ref = none;
          params_template = some (
              ("message", text "Review the proposed content calendar. Approve or adjust.")
              ∷ ("plan", text "{{theme_plan}}")
              ∷ []);
          outputs = some ("approved_plan" ∷ []);
        })
        ∷ (record {
          step_id = "write-calendar";
          type = write;
          tool_ref = none;
          params_template =
              some (
                ("content", text "{{approved_plan}}")
                ∷ ("format", text "content_calendar_md")
                ∷ []);
          outputs = some ("calendar_file" ∷ []);
        })
        ∷ []);
  checks =
      ((record {
        check_id = "variety";
        type = taste;
        rubric_ref = none;
        condition = "Calendar has varied topics and formats, not repetitive";
      })
        ∷ (record {
          check_id = "coverage";
          type = format;
          rubric_ref = none;
          condition = "All target platforms are represented in the calendar";
        })
        ∷ []);
  stop_conditions =
      ((record {
        condition = "No research data available";
        reason = "Cannot plan without trend data";
      })
        ∷ []);
  escalations =
      ((record {
        escalation_id = "high-volume";
        trigger = "Posts per week exceeds 10";
        approval_ref = "guardrails.approval_rules.resource_usage";
      })
        ∷ []);
}

unfoldable pub content_agent_playbooks : List PlaybookV1
content_agent_playbooks = simple_post ∷ research_and_post ∷ content_calendar ∷ []
