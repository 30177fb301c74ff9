-- ===== src/Artifacts/Memory/Presets.antt =====
-- The tables of rules and presets of TasteKit/tastekit/packages/core/compiler/memory-compiler.ts.
use oss_agent_tools.Prelude.{String, true, false, some, List, [], ◌∷◌}
use oss_agent_tools.Artifacts.Memory.{MemorySalienceRule, DomainMemoryPreset}

abbrev pub shared_salience_rules : List MemorySalienceRule
shared_salience_rules =
    (record {
      rule_id = "user_preferences";
      pattern = "preference|like|dislike|prefer|want|need";
      score = 900;
      reason = some "User preferences are highly salient across all domains";
    })
    ∷ (record {
      rule_id = "corrections";
      pattern = "actually|correction|mistake|wrong|fix|update";
      score = 950;
      reason = some "Corrections are critical to remember to avoid repeating errors";
    })
    ∷ (record {
      rule_id = "feedback";
      pattern = "good|bad|better|worse|improve|great|terrible";
      score = 800;
      reason = some "Feedback signals help calibrate future behavior";
    })
    ∷ []

abbrev pub content_memory : DomainMemoryPreset
content_memory = record {
  salience_rules =
      ((record {
        rule_id = "brand_voice";
        pattern = "brand|voice|tone|style|personality";
        score = 950;
        reason = some "Brand voice consistency is critical for content agents";
      })
        ∷ (record {
          rule_id = "audience_signals";
          pattern = "audience|follower|engagement|reach|impression";
          score = 850;
          reason = some "Audience insights inform content strategy";
        })
        ∷ (record {
          rule_id = "content_performance";
          pattern = "performed|viral|trending|popular|engagement rate";
          score = 800;
          reason = some "Content performance data guides future creation";
        })
        ∷ (record {
          rule_id = "platform_rules";
          pattern = "algorithm|policy|limit|character|format";
          score = 700;
          reason = some "Platform-specific rules evolve frequently";
        })
        ∷ []);
  revisit_triggers =
      ("user_correction" ∷ "principle_violation" ∷ "brand_drift" ∷ "platform_change" ∷ []);
  default_ttl_days = 90;
  pii_sensitive = false;
}

abbrev pub sales_memory : DomainMemoryPreset
sales_memory = record {
  salience_rules =
      ((record {
        rule_id = "deal_context";
        pattern = "deal|opportunity|pipeline|revenue|close";
        score = 950;
        reason = some "Deal context is the highest-value memory for sales agents";
      })
        ∷ (record {
          rule_id = "customer_relationship";
          pattern = "relationship|rapport|trust|concern|objection";
          score = 900;
          reason = some "Relationship context drives effective selling";
        })
        ∷ (record {
          rule_id = "pricing_terms";
          pattern = "price|discount|terms|contract|proposal";
          score = 850;
          reason = some "Accurate pricing recall prevents deal-breaking errors";
        })
        ∷ (record {
          rule_id = "competitive_intel";
          pattern = "competitor|alternative|comparison|switch";
          score = 750;
          reason = some "Competitive context helps position effectively";
        })
        ∷ []);
  revisit_triggers =
      ("user_correction" ∷ "deal_stage_change" ∷ "pricing_update" ∷ "lost_deal" ∷ []);
  default_ttl_days = 180;
  pii_sensitive = true;
}

abbrev pub development_memory : DomainMemoryPreset
development_memory = record {
  salience_rules =
      ((record {
        rule_id = "code_patterns";
        pattern = "pattern|architecture|convention|style guide|standard";
        score = 900;
        reason = some "Coding patterns and conventions ensure consistency";
      })
        ∷ (record {
          rule_id = "bug_context";
          pattern = "bug|error|issue|regression|failure|crash";
          score = 850;
          reason = some "Bug context prevents re-introduction of known issues";
        })
        ∷ (record {
          rule_id = "tech_decisions";
          pattern = "decision|chose|tradeoff|migration|deprecat";
          score = 900;
          reason = some "Technical decisions provide important context for future work";
        })
        ∷ (record {
          rule_id = "test_results";
          pattern = "test|coverage|assertion|spec|fixture";
          score = 700;
          reason = some "Test outcomes guide quality focus areas";
        })
        ∷ []);
  revisit_triggers =
      ("user_correction" ∷ "test_failure" ∷ "build_failure" ∷ "dependency_update" ∷ []);
  default_ttl_days = 120;
  pii_sensitive = false;
}

abbrev pub research_memory : DomainMemoryPreset
research_memory = record {
  salience_rules =
      ((record {
        rule_id = "source_quality";
        pattern = "source|citation|reference|paper|study|evidence";
        score = 950;
        reason = some "Source quality tracking is essential for research integrity";
      })
        ∷ (record {
          rule_id = "methodology";
          pattern = "method|approach|framework|analysis|hypothesis";
          score = 900;
          reason = some "Methodological choices must be consistently remembered";
        })
        ∷ (record {
          rule_id = "findings";
          pattern = "finding|result|conclusion|insight|discovery";
          score = 850;
          reason = some "Research findings are core output to preserve";
        })
        ∷ (record {
          rule_id = "contradictions";
          pattern = "contradict|conflict|disagree|inconsisten|debate";
          score = 900;
          reason = some "Contradictions require careful tracking for balanced analysis";
        })
        ∷ []);
  revisit_triggers =
      ("user_correction" ∷ "source_retraction" ∷ "new_evidence" ∷ "methodology_change" ∷ []);
  default_ttl_days = 365;
  pii_sensitive = false;
}

abbrev pub support_memory : DomainMemoryPreset
support_memory = record {
  salience_rules =
      ((record {
        rule_id = "customer_issue";
        pattern = "issue|problem|ticket|complaint|request";
        score = 900;
        reason = some "Customer issue context drives resolution quality";
      })
        ∷ (record {
          rule_id = "resolution_pattern";
          pattern = "resolved|fixed|solution|workaround|steps";
          score = 850;
          reason = some "Successful resolutions create reusable knowledge";
        })
        ∷ (record {
          rule_id = "customer_sentiment";
          pattern = "frustrated|happy|angry|satisfied|urgent";
          score = 800;
          reason = some "Sentiment awareness enables appropriate response tone";
        })
        ∷ (record {
          rule_id = "escalation_context";
          pattern = "escalat|manager|supervisor|priority|SLA";
          score = 950;
          reason = some "Escalation context must be preserved for continuity";
        })
        ∷ []);
  revisit_triggers = ("user_correction" ∷ "escalation" ∷ "repeated_issue" ∷ "customer_churn" ∷ []);
  default_ttl_days = 90;
  pii_sensitive = true;
}

abbrev pub general_memory : DomainMemoryPreset
general_memory = record {
  salience_rules = [];
  revisit_triggers = ("user_correction" ∷ "principle_violation" ∷ "repeated_failure" ∷ []);
  default_ttl_days = 90;
  pii_sensitive = false;
}

unfoldable pub domain_memory_presets : List (String × DomainMemoryPreset)
domain_memory_presets =
    ("content-agent", content_memory)
    ∷ ("sales-agent", sales_memory)
    ∷ ("development-agent", development_memory)
    ∷ ("research-agent", research_memory)
    ∷ ("support-agent", support_memory)
    ∷ ("general-agent", general_memory)
    ∷ []
