-- ===== src/Artifacts/Playbooks/Compiler.antt =====
-- `compilePlaybooks` of TasteKit/tastekit/packages/core/compiler/playbook-compiler.ts. `exists` tells
-- which of the workspace's directories exist, `yaml` is the serialiser.
use oss_agent_tools.Prelude.{
  String, concat, Bool, true, false, Option, none, some, List, [], ◌∷◌, ◌++◌, ◌==◌, string_key,
  insert, or_else, if◌then◌else◌,
}
use oss_agent_tools.Numbers.{Arithmetic}
use oss_agent_tools.Compile.Derivation.{Files}
use oss_agent_tools.Artifacts.Playbooks.{
  PlaybookV1, PlaybookStep, manual, think, tool, write, approval_gate, text, taste, safety,
}
use oss_agent_tools.Artifacts.Playbooks.Content.{content_agent_playbooks}
use oss_agent_tools.Artifacts.Playbooks.Research.{research_agent_playbooks}
use oss_agent_tools.Artifacts.Playbooks.Sales.{sales_agent_playbooks}
use oss_agent_tools.Artifacts.Playbooks.Support.{support_agent_playbooks}
use oss_agent_tools.Artifacts.Playbooks.General.{general_agent_playbooks}

unfoldable pub by_domain : String → List PlaybookV1
unfolding content_agent_playbooks research_agent_playbooks sales_agent_playbooks
    support_agent_playbooks general_agent_playbooks
by_domain id =
    if id == "content-agent"
    then content_agent_playbooks
    else if id == "research-agent"
    then research_agent_playbooks
    else if id == "sales-agent"
    then sales_agent_playbooks
    else if id == "support-agent"
    then support_agent_playbooks
    else if id == "general-agent"
    then general_agent_playbooks
    else []

-- A missing domain is as an unknown one.
unfoldable pub resolve_domain_playbooks : Option String → List PlaybookV1
unfolding by_domain
resolve_domain_playbooks domain_id = by_domain (or_else domain_id "")

-- With little autonomy the result is reviewed before the end.
abbrev review : Bool → List PlaybookStep
review false = []
review true =
    record {
      step_id = "review-result";
      type = approval_gate;
      tool_ref = none;
      params_template = some (("message", text "Review the result before finalizing.") ∷ []);
      outputs = some ("approved_result" ∷ []);
    }
    ∷ []

abbrev pub generic_steps : Bool → List PlaybookStep
generic_steps approval_step =
    record {
      step_id = "understand-task";
      type = think;
      tool_ref = none;
      params_template = none;
      outputs = some ("task_analysis" ∷ []);
    }
    ∷ record {
      step_id = "execute-task";
      type = tool;
      tool_ref = none;
      params_template = some (("instruction", text "Execute the task based on analysis") ∷ []);
      outputs = some ("task_result" ∷ []);
    }
    ∷ (review approval_step
        ++ record {
          step_id = "finalize";
          type = write;
          tool_ref = none;
          params_template = some (
              ("content", text (if approval_step then "{{approved_result}}" else "{{task_result}}"))
              ∷ []);
          outputs = some ("final_output" ∷ []);
        }
          ∷ [])

unfoldable pub generic_playbook : Bool → PlaybookV1
generic_playbook approval_step = record {
  schema_version = "playbook.v1";
  id = "general-task";
  name = "General Task Execution";
  description = "Generic task workflow that follows user principles and tone preferences.";
  triggers = record { type = manual; schedule = none; event_pattern = none } ∷ [];
  inputs =
      record {
        name = "task";
        type = "string";
        required = true;
        description = some "The task to perform";
      }
      ∷ record {
        name = "context";
        type = "string";
        required = false;
        description = some "Additional context";
      }
      ∷ [];
  steps = generic_steps approval_step;
  checks =
      record {
        check_id = "principles-check";
        type = taste;
        rubric_ref = none;
        condition = "Output follows user constitution principles";
      }
      ∷ record {
        check_id = "safety-check";
        type = safety;
        rubric_ref = none;
        condition = "No taboo actions taken, escalation rules respected";
      }
      ∷ [];
  stop_conditions =
      record {
        condition = "Task cannot be completed with available tools";
        reason = "Required capabilities not available";
      }
      ∷ [];
  escalations =
      record {
        escalation_id = "irreversible-action";
        trigger = "Task involves irreversible actions (delete, publish, send)";
        approval_ref = "guardrails.approval_rules.irreversible";
      }
      ∷ [];
}

-- The autonomy level is the constitution's.
abbrev pub generate_generic_playbook : {N : Type 0} → Arithmetic N → N → PlaybookV1
unfolding generic_playbook
generate_generic_playbook a autonomy_level =
    generic_playbook (a.lt autonomy_level (a.thousandths 500))

abbrev pub or_generic : PlaybookV1 → List PlaybookV1 → List PlaybookV1
or_generic generic [] = generic ∷ []
or_generic generic (p ∷ ps) = p ∷ ps

unfoldable pub all_playbooks : {N : Type 0} → Arithmetic N → Option String → N → List PlaybookV1
unfolding generate_generic_playbook
all_playbooks a domain_id autonomy_level =
    or_generic (generate_generic_playbook a autonomy_level) (resolve_domain_playbooks domain_id)

abbrev pub resolve_playbooks_path : (String → Bool) → String
resolve_playbooks_path exists =
    if exists "knowledge/playbooks"
    then "knowledge/playbooks"
    else if exists "artifacts/playbooks"
    then "artifacts/playbooks"
    else "knowledge/playbooks"

abbrev pub filename : PlaybookV1 → String
filename p = concat p.id ".v1.yaml"

abbrev pub file_path : String → PlaybookV1 → String
file_path path p = concat path (concat "/" (filename p))

module _ {F : Type 0} (yaml : PlaybookV1 → F) where
  unfoldable pub write_playbooks : String → List PlaybookV1 → Files F → Files F × List String
  write_playbooks path [] files = (files, [])
  write_playbooks path (p ∷ ps) files =
      let (files', artifacts) =
        write_playbooks path ps (insert (file_path path p) (yaml p) files) in
      (files', concat "playbooks/" (filename p) ∷ artifacts)

  unfoldable pub compile_playbooks :
      {N : Type 0}
      → Arithmetic N
      → (String → Bool)
      → Files F
      → Option String
      → N
      → Files F × List String
  unfolding write_playbooks all_playbooks
  compile_playbooks a exists files domain_id autonomy_level =
      write_playbooks (resolve_playbooks_path exists) (all_playbooks a domain_id autonomy_level)
        files
