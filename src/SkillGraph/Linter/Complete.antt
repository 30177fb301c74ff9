-- ===== src/SkillGraph/Linter/Complete.antt =====
-- What is valid to the linter of skills.
use oss_agent_tools.Prelude.{
  String, concat, ◌≡◌, refl, ◌↔◌, true, Option, none, some, List, [], ◌∷◌, ◌++◌, length,
  length-append, All, Bool-cases, inl, inr, arith,
}
use oss_agent_tools.AutoManage.Text.{Text, includes, includes_iff}
use oss_agent_tools.AutoManage.Status.{codes}
use oss_agent_tools.SkillGraph.Linter.{
  Entry, directory, other, required_sections, heading, check_sections, lint_errors, lint_entries,
  lint_skills,
}

-- The text contains `## ` and the name of the section, on a line of its own or not.
abbrev pub Mentions : Text → String → Type 0
Mentions content section =
    (before : Text) × (after : Text) × (content ≡ before ++ (codes (concat "## " section) ++ after))

abbrev pub IsComplete : Entry → Type 0
IsComplete (other name) = Unit
IsComplete (directory id none) = ⊥
IsComplete (directory id (some content)) = All (Mentions content) (
    "Purpose" ∷ "When to use" ∷ "When not to use" ∷ "Inputs" ∷ "Outputs" ∷ "Procedure"
    ∷ "Quality checks" ∷ "Guardrail notes" ∷ "Progressive disclosure" ∷ [])

abbrev pub IsCompleteDirectory : Option (List Entry) → Type 0
IsCompleteDirectory none = ⊥
IsCompleteDirectory (some entries) = All IsComplete entries

check_sections-Mentions :
    (id : String) (content : Text) (sections : List String)
    → (length (check_sections id content sections) ≡ 0) ↔ All (Mentions content) sections
check_sections-Mentions id content [] = (λ h. tt, λ h. refl)
check_sections-Mentions id content (section ∷ sections) =
    let (here, back) = check_sections-Mentions id content sections in
    let (has, included) = includes_iff (heading section) content in
    elim (Bool-cases (includes (heading section) content)) [
      | inl e ↦ rw e (λ h. (has e, here h), λ (h, hs). back hs)
      | inr e ↦
          rw e (λ h. absurd (ground (arith, h)), λ (h, hs). absurd (ground (arith, included h, e)))
    ]

lint_errors-IsComplete :
    (id : String) (content : Option Text)
    → (length (lint_errors id content) ≡ 0) ↔ IsComplete (directory id content)
lint_errors-IsComplete id none = (λ h. absurd (ground (arith, h)), λ h. elim h [ ])
lint_errors-IsComplete id (some content) = check_sections-Mentions id content required_sections

lint_entries-IsComplete :
    (entries : List Entry) → (length (lint_entries entries).0 ≡ 0) ↔ All IsComplete entries
unfolding lint_entries
lint_entries-IsComplete [] = (λ h. tt, λ h. refl)
lint_entries-IsComplete (other name ∷ entries) =
    let (there, back) = lint_entries-IsComplete entries in (λ h. (tt, there h), λ (h, hs). back hs)
lint_entries-IsComplete (directory id content ∷ entries) =
    let (here, from) = lint_errors-IsComplete id content in
    let (there, back) = lint_entries-IsComplete entries in
    let sum = length-append (lint_errors id content) (lint_entries entries).0 in
    (
      λ h. (here (omega (arith, sum, h)), there (omega (arith, sum, h))),
      λ (h, hs). omega (arith, sum, from h, back hs),
    )

-- The linter calls a directory of skills valid exactly where it exists and each skill in it has a
-- SKILL.md whose text contains `## ` followed by each of the names Purpose, When to use, When not to
-- use, Inputs, Outputs, Procedure, Quality checks, Guardrail notes and Progressive disclosure; these
-- may stand anywhere, also within another heading.
pub lint_skills-IsComplete :
    (skills : Option (List Entry))
    → ((lint_skills skills).valid ≡ true) ↔ IsCompleteDirectory skills
unfolding lint_skills
lint_skills-IsComplete none = (λ h. absurd (ground (arith, h)), λ h. elim h [ ])
lint_skills-IsComplete (some entries) =
    let (there, back) = lint_entries-IsComplete entries in
    (λ h. there (ground (arith, h)), λ h. ground (arith, back h))
