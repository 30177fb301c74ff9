-- ===== src/Tests/Artifacts.antt =====
-- A session of a content agent, with a taboo, an escalation and little autonomy.
use oss_agent_tools.Prelude.{ℕ, ◌≡◌, refl, some, [], ◌∷◌, map, concat, All, Bool, String, false}
use oss_agent_tools.AutoManage.Status.{codes}
use oss_agent_tools.Details.{decimal}
use oss_agent_tools.Artifacts.{StructuredAnswers, SessionState}
use oss_agent_tools.Artifacts.Guardrails.Presets.{domain_presets}
use oss_agent_tools.Artifacts.Guardrails.Compiler.{
  block_rules, escalation_rules, compile_guardrails, by_answers, compile_from_structured_answers,
  build_approval_rules, taboo_rules, preset_of,
}
use oss_agent_tools.Artifacts.Playbooks.{PlaybookV1}
use oss_agent_tools.Artifacts.Playbooks.Compiler.{
  by_domain, resolve_domain_playbooks, generic_playbook, all_playbooks, filename, write_playbooks,
  compile_playbooks,
}
use oss_agent_tools.Artifacts.Playbooks.Dataflow.{IsWellFormed, all_playbooks-IsWellFormed}
use oss_agent_tools.Artifacts.Playbooks.Written.{IsWritten, compile_playbooks-IsWritten}
use oss_agent_tools.Tests.Interviews.{whole}

abbrev answers : StructuredAnswers ℕ
answers = record {
  tradeoffs = record {
    accuracy_vs_speed = 500;
    cost_sensitivity = 800;
    autonomy_level = 400;
    source_dimensions = [];
  };
  taboos = record {
    never_do = codes "Leak PII" ∷ [];
    must_escalate = codes "legal" ∷ [];
    source_dimensions = [];
  };
}

abbrev session : SessionState ℕ
session = record {
  domain_id = some "content-agent";
  autonomy_level = some 400;
  structured_answers = some answers;
}

-- The rules, in order.
compiles_rules :
    map (λ r. r.rule_id) (compile_guardrails (λ t. t) whole session).approvals
    ≡ codes "approve_writes_and_deletes"
      ∷ codes "approve_high_risk"
      ∷ codes "approve_publish"
      ∷ codes "block_taboo__eak__0"
      ∷ codes "escalate_legal_0"
      ∷ []
unfolding compile_guardrails by_answers compile_from_structured_answers build_approval_rules
    block_rules escalation_rules taboo_rules preset_of domain_presets decimal
compiles_rules = refl

abbrev exists_none : String → Bool
exists_none path = false

abbrev name_of : PlaybookV1 → String
name_of p = p.name

-- A domain without playbooks gets the generic one.
writes_generic : compile_playbooks name_of whole exists_none [] (some "development-agent") 400 ≡ (
  ("knowledge/playbooks/general-task.v1.yaml", "General Task Execution") ∷ [],
  "playbooks/general-task.v1.yaml" ∷ [],
)
unfolding compile_playbooks write_playbooks all_playbooks resolve_domain_playbooks by_domain
    generic_playbook
writes_generic = refl

all_playbooks-IsWellFormed_example : All IsWellFormed (all_playbooks whole (some "sales-agent") 400)
all_playbooks-IsWellFormed_example = all_playbooks-IsWellFormed whole (some "sales-agent") 400

compile_playbooks-IsWritten_example :
    let ps = all_playbooks whole (some "sales-agent") 400 in
    let (files', artifacts) =
      compile_playbooks name_of whole exists_none [] (some "sales-agent") 400 in
    IsWritten name_of "knowledge/playbooks" ps [] files'
    × (artifacts ≡ map (λ p. concat "playbooks/" (filename p)) ps)
compile_playbooks-IsWritten_example =
    compile_playbooks-IsWritten name_of whole exists_none [] (some "sales-agent") 400
