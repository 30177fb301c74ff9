-- ===== src/Tests/Skills.antt =====
-- A manifest of four skills: a chain of three that returns to its second, and one apart.
use oss_agent_tools.AutoManage.Text.{Text}
use oss_agent_tools.AutoManage.Status.{codes}
use oss_agent_tools.SkillGraph.Linter.{Entry, directory, other, lint_entries, lint_skills}
use oss_agent_tools.SkillGraph.Linter.Complete.{IsCompleteDirectory, lint_skills-IsComplete}
use oss_agent_tools.Prelude.{
  String, ◌≡◌, ◌↔◌, true, map, Option, refl, none, some, List, [], ◌∷◌, ◌||◌, string_key, contains,
  filter, All, Distinct, or_else, arith,
}
use oss_agent_tools.SkillGraph.{SkillMetadata, low}
use oss_agent_tools.SkillGraph.Walk.{walk}
use oss_agent_tools.SkillGraph.Paths.{
  skill_ids, get_pipeline_path, recommend_next_skill, contains-recommend_next_skill,
}
use oss_agent_tools.SkillGraph.Follows.{FollowsFeeds, get_pipeline_path-FollowsFeeds}
use oss_agent_tools.SkillGraph.Edges.{
  build_graph, add_skills, add_skill, feed_all, require_all, check_alternatives, all_absent_refs,
  build_graph-missing,
}
use oss_agent_tools.SkillGraph.Cycles.{
  detect_cycles, search_from, start_at, dfs, visit_all, meet, report, unsearched,
}
use oss_agent_tools.SkillGraph.Cycles.Sound.{IsCycle, detect_cycles-IsCycle}
use oss_agent_tools.SkillGraph.Cycles.Enough.{detect_cycles-enough}
use oss_agent_tools.SkillGraph.Reports.{Reports, detect_pipelines-Reports}
use oss_agent_tools.SkillGraph.Analysis.{
  analyze_skill_graph, detect_pipelines, pipelines_from, follow_chain,
}

abbrev skill : String → List String → List String → SkillMetadata
skill id fed required = record {
  skill_id = id;
  name = id;
  description = "";
  tags = [];
  risk_level = low;
  required_tools = [];
  compatible_runtimes = [];
  playbook_ref = none;
  prerequisites = some required;
  feeds_into = some fed;
  alternatives = none;
  pipeline_phase = none;
  context_model = none;
  model_hint = none;
}

abbrev skills : List SkillMetadata
skills =
    skill "capture" ("process" ∷ []) []
    ∷ skill "process" ("verify" ∷ []) []
    ∷ skill "verify" ("process" ∷ []) ("absent" ∷ [])
    ∷ skill "apart" [] []
    ∷ []

cycles_test : (analyze_skill_graph skills).cycles ≡ ("process" ∷ "verify" ∷ []) ∷ []
unfolding analyze_skill_graph build_graph add_skills add_skill feed_all require_all
    check_alternatives detect_cycles search_from start_at dfs visit_all meet report
cycles_test = refl

pipelines_test :
    (analyze_skill_graph skills).pipelines ≡ ("capture" ∷ "process" ∷ "verify" ∷ []) ∷ []
unfolding analyze_skill_graph build_graph add_skills add_skill feed_all require_all
    check_alternatives detect_pipelines pipelines_from follow_chain walk
pipelines_test = refl

counts_test :
    let a = analyze_skill_graph skills in
    (a.edge_count ≡ 3) × (a.orphans ≡ "apart" ∷ []) × (a.hubs ≡ "process" ∷ [])
unfolding analyze_skill_graph build_graph add_skills add_skill feed_all require_all
    check_alternatives
counts_test = (refl, refl, refl)

get_pipeline_path-FollowsFeeds_example :
    (rest : List String) × (get_pipeline_path skills "capture" ≡ "capture" ∷ rest)
    × FollowsFeeds skills ("capture" ∷ []) "capture" rest
    × Distinct ("capture" ∷ rest)
get_pipeline_path-FollowsFeeds_example = get_pipeline_path-FollowsFeeds skills "capture"

contains-recommend_next_skill_example :
    contains {K = String} "verify" (recommend_next_skill skills "process") ≡ (
      contains {K = String} "verify" ("verify" ∷ [])
      || contains {K = String} "verify" (
          skill_ids
            (filter (λ s. contains {K = String} "process" (or_else s.prerequisites [])) skills)))
contains-recommend_next_skill_example =
    contains-recommend_next_skill skills "process" "verify" (skill "process" ("verify" ∷ []) [])
      refl

build_graph-missing_example :
    (build_graph skills).missing_refs ≡ all_absent_refs (skill_ids skills) skills
build_graph-missing_example = build_graph-missing skills

detect_cycles-IsCycle_example :
    All
      (IsCycle (build_graph skills).out_edges)
      (detect_cycles skills (build_graph skills).out_edges)
detect_cycles-IsCycle_example = detect_cycles-IsCycle skills (build_graph skills).out_edges

detect_cycles-enough_example :
    (search_from (build_graph skills).out_edges 9 skills (unsearched skills)).cycles
    ≡ detect_cycles skills (build_graph skills).out_edges
detect_cycles-enough_example =
    detect_cycles-enough skills (build_graph skills).out_edges 9 (omega arith)

detect_pipelines-Reports_example :
    let g = build_graph skills in
    Reports g.out_edges [] skills (detect_pipelines skills g.out_edges g.in_edges)
detect_pipelines-Reports_example = detect_pipelines-Reports skills

abbrev complete_skill : Text
complete_skill =
    codes
      "## Purpose\n## When to use\n## When not to use\n## Inputs\n## Outputs\n## Procedure\n## Quality checks\n## Guardrail notes\n## Progressive disclosure\n"

abbrev linted : Option (List Entry)
linted = some (directory "a" (some complete_skill) ∷ other "README.md" ∷ [])

-- Without a file for one skill the errors name it.
lints_missing :
    map (λ e. e.message) (lint_skills (some (directory "b" none ∷ []))).errors
    ≡ "SKILL.md not found" ∷ []
unfolding lint_skills lint_entries
lints_missing = refl

lint_skills-IsComplete_example : ((lint_skills linted).valid ≡ true) ↔ IsCompleteDirectory linted
lint_skills-IsComplete_example = lint_skills-IsComplete linted
