-- ===== src/SkillGraph/Linter.antt =====
-- `lintSkills` of TasteKit/tastekit/packages/core/skills/linter.ts. The skills' directory is the list
-- of its entries, none where it does not exist; a directory in it comes with the text of its
-- SKILL.md, none where that does not exist.
pub mod Complete
use oss_agent_tools.Prelude.{
  ℕ, String, concat, Bool, true, false, not, ◌&&◌, Option, none, some, List, [], ◌∷◌, ◌++◌, length,
  ltb, nat_eq, if◌then◌else◌,
}
use oss_agent_tools.AutoManage.Text.{Text, includes}
use oss_agent_tools.AutoManage.Status.{codes}
use oss_agent_tools.Details.{decimal}

pub record LintError : Type 0 where
  pub skill_id : String
  pub message : String
  pub severity : String

pub record LintWarning : Type 0 where
  pub skill_id : String
  pub message : String
  pub severity : String

pub record LintResult : Type 0 where
  pub valid : Bool
  pub errors : List LintError
  pub warnings : List LintWarning

pub data Entry : Type 0 where
  directory : String → Option Text → Entry
  other : String → Entry

abbrev pub required_sections : List String
required_sections =
    "Purpose" ∷ "When to use" ∷ "When not to use" ∷ "Inputs" ∷ "Outputs" ∷ "Procedure"
    ∷ "Quality checks" ∷ "Guardrail notes" ∷ "Progressive disclosure" ∷ []

abbrev max_skill_size : ℕ
max_skill_size = 51200

-- `## ` and the section.
abbrev pub heading : String → Text
heading section = codes (concat "## " section)

abbrev pub missing_section : String → String → LintError
missing_section id section = record {
  skill_id = id;
  message = concat "Missing required section: " section;
  severity = "error";
}

abbrev pub check_sections : String → Text → List String → List LintError
check_sections id content [] = []
check_sections id content (section ∷ sections) =
    let rest = check_sections id content sections in
    if not (includes (heading section) content) then missing_section id section ∷ rest else rest

abbrev check_size : String → Text → List LintWarning
unfolding decimal
check_size id content =
    if ltb max_skill_size (length content)
    then record {
      skill_id = id;
      message = concat "SKILL.md exceeds recommended size (" (
          concat (decimal (length content))
            (concat " > " (concat (decimal max_skill_size) " bytes)")));
      severity = "warning";
    }
      ∷ []
    else []

abbrev check_disclosure : String → Text → List LintWarning
check_disclosure id content =
    if includes (codes "### Minimal context") content
      && includes (codes "### On invoke") content
      && includes (codes "### On demand") content
    then []
    else record {
      skill_id = id;
      message = "Progressive disclosure sections incomplete";
      severity = "warning";
    }
      ∷ []

abbrev pub lint_errors : String → Option Text → List LintError
lint_errors id none =
    record { skill_id = id; message = "SKILL.md not found"; severity = "error" } ∷ []
lint_errors id (some content) = check_sections id content required_sections

abbrev lint_warnings : String → Option Text → List LintWarning
unfolding check_size
lint_warnings id none = []
lint_warnings id (some content) = check_size id content ++ check_disclosure id content

-- The errors and the warnings, skill by skill.
unfoldable pub lint_entries : List Entry → List LintError × List LintWarning
unfolding lint_warnings
lint_entries [] = ([], [])
lint_entries (other name ∷ entries) = lint_entries entries
lint_entries (directory id content ∷ entries) =
    let (errors, warnings) = lint_entries entries in
    (lint_errors id content ++ errors, lint_warnings id content ++ warnings)

abbrev pub result_of : List LintError × List LintWarning → LintResult
result_of (errors, warnings) = record {
  valid = nat_eq (length errors) 0;
  errors = errors;
  warnings = warnings;
}

unfoldable pub lint_skills : Option (List Entry) → LintResult
unfolding lint_entries
lint_skills none = record {
  valid = false;
  errors =
      record {
        skill_id = "_global";
        message = "Skills directory does not exist";
        severity = "error";
      }
      ∷ [];
  warnings = [];
}
lint_skills (some entries) = result_of (lint_entries entries)
