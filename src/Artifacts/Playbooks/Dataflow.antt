-- ===== src/Artifacts/Playbooks/Dataflow.antt =====
-- What flows through a playbook: a step's parameters name, between double braces, inputs of the
-- playbook and outputs of earlier steps.
use oss_agent_tools.Prelude.{
  ℕ, String, ◌≡◌, refl, Bool, true, false, ◌&&◌, ◌||◌, Option, List, [], ◌∷◌, ◌++◌, all, map, leb,
  nat_eq, contains, text_key, string_key, distinct, distinct-Distinct, Distinct, All, or_else,
  if◌then◌else◌, if_cases, ◌==◌,
}
use oss_agent_tools.Numbers.{Arithmetic}
use oss_agent_tools.AutoManage.Text.{Text}
use oss_agent_tools.AutoManage.Status.{codes}
use oss_agent_tools.Artifacts.Playbooks.{
  PlaybookV1, PlaybookStep, PlaybookCheck, Parameter, text, whole, texts,
}
use oss_agent_tools.Artifacts.Playbooks.Content.{
  content_agent_playbooks, simple_post, research_and_post, content_calendar,
}
use oss_agent_tools.Artifacts.Playbooks.Research.{
  research_agent_playbooks, quick_lookup, deep_dive_analysis,
}
use oss_agent_tools.Artifacts.Playbooks.Sales.{
  sales_agent_playbooks, lead_outreach, proposal_workflow,
}
use oss_agent_tools.Artifacts.Playbooks.Support.{
  support_agent_playbooks, standard_ticket, escalation_workflow,
}
use oss_agent_tools.Artifacts.Playbooks.General.{
  general_agent_playbooks, general_task_execution, research_then_act,
}
use oss_agent_tools.Artifacts.Playbooks.Compiler.{
  by_domain, resolve_domain_playbooks, generic_playbook, or_generic, all_playbooks,
  generate_generic_playbook,
}

-- What holds of every domain's playbooks, and of the generic one, holds of those compiled.
pub all_playbooks-cases :
    {N : Type 0} (Q : List PlaybookV1 → Type 0) (a : Arithmetic N) (domain_id : Option String)
    (autonomy_level : N)
    → Q content_agent_playbooks
    → Q research_agent_playbooks
    → Q sales_agent_playbooks
    → Q support_agent_playbooks
    → Q general_agent_playbooks
    → ((b : Bool) → Q (generic_playbook b ∷ []))
    → Q (all_playbooks a domain_id autonomy_level)
unfolding all_playbooks resolve_domain_playbooks by_domain content_agent_playbooks
    research_agent_playbooks sales_agent_playbooks support_agent_playbooks general_agent_playbooks
all_playbooks-cases Q a domain_id autonomy_level content research sales support general generic =
    let id = or_else domain_id "" in
    let R : List PlaybookV1 → Type 0 =
      λ ps. Q (or_generic (generate_generic_playbook a autonomy_level) ps) in
    if_cases R (id == "content-agent") _ _ (λ e. content)
      (λ e.
        if_cases R (id == "research-agent") _ _ (λ e. research)
          (λ e.
            if_cases R (id == "sales-agent") _ _ (λ e. sales)
              (λ e.
                if_cases R (id == "support-agent") _ _ (λ e. support)
                  (λ e.
                    if_cases R (id == "general-agent") _ _ (λ e. general)
                      (λ e. generic (a.lt autonomy_level (a.thousandths 500)))))))

abbrev is_name_letter : ℕ → Bool
is_name_letter c =
    (leb 97 c && leb c 122) || (leb 65 c && leb c 90) || (leb 48 c && leb c 57) || nat_eq c 95

abbrev name_at : Text → Text
name_at [] = []
name_at (c ∷ s) = let rest = name_at s in if is_name_letter c then c ∷ rest else []

abbrev opens : Text → Bool
opens (c ∷ d ∷ s) = nat_eq c 123 && nat_eq d 123
opens _ = false

-- The names that follow two braces.
abbrev names_in : Text → List Text
names_in [] = []
names_in (c ∷ []) = []
names_in (c ∷ d ∷ s) =
    let rest = names_in (d ∷ s) in if opens (c ∷ d ∷ s) then name_at s ∷ rest else rest

abbrev known_in : List Text → String → Bool
known_in known s = all (λ n. contains n known) (names_in (codes s))

abbrev parameter_flows : List Text → Parameter → Bool
parameter_flows known (text s) = known_in known s
parameter_flows known (whole n) = true
parameter_flows known (texts ss) = all (known_in known) ss

abbrev pub step_flows : List Text → PlaybookStep → Bool
step_flows known step = all (λ p. parameter_flows known p.1) (or_else step.params_template [])

abbrev pub flows : List Text → List PlaybookStep → Bool
flows known [] = true
flows known (step ∷ steps) =
    step_flows known step && flows (known ++ map codes (or_else step.outputs [])) steps

-- Every name that a step uses is an input, or an output of an earlier step, and the steps and the
-- checks have distinct ids.
abbrev pub IsWellFormed : PlaybookV1 → Type 0
IsWellFormed p =
    (flows (map (λ i. codes i.name) p.inputs) p.steps ≡ true)
    × Distinct (map (λ s. s.step_id) p.steps)
    × Distinct (map (λ c. c.check_id) p.checks)

decided :
    (p : PlaybookV1)
    → flows (map (λ i. codes i.name) p.inputs) p.steps ≡ true
    → distinct (map (λ s. s.step_id) p.steps) ≡ true
    → distinct (map (λ c. c.check_id) p.checks) ≡ true
    → IsWellFormed p
decided p f s c = (
  f,
  distinct-Distinct (map (λ (x : PlaybookStep). x.step_id) p.steps) s,
  distinct-Distinct (map (λ (x : PlaybookCheck). x.check_id) p.checks) c,
)

generic-IsWellFormed : (b : Bool) → All IsWellFormed (generic_playbook b ∷ [])
unfolding generic_playbook
generic-IsWellFormed false = (decided (generic_playbook false) refl refl refl, tt)
generic-IsWellFormed true = (decided (generic_playbook true) refl refl refl, tt)

-- Every playbook that is compiled uses in a step's parameters only its inputs and the outputs of
-- earlier steps, and has distinct steps and checks, whatever the domain and the autonomy level.
pub all_playbooks-IsWellFormed :
    {N : Type 0} (a : Arithmetic N) (domain_id : Option String) (autonomy_level : N)
    → All IsWellFormed (all_playbooks a domain_id autonomy_level)
unfolding content_agent_playbooks research_agent_playbooks sales_agent_playbooks
    support_agent_playbooks general_agent_playbooks
all_playbooks-IsWellFormed a domain_id autonomy_level =
    all_playbooks-cases (All IsWellFormed) a domain_id autonomy_level
      (
        decided simple_post refl refl refl,
        (decided research_and_post refl refl refl, (decided content_calendar refl refl refl, tt)),
      )
      (decided quick_lookup refl refl refl, (decided deep_dive_analysis refl refl refl, tt))
      (decided lead_outreach refl refl refl, (decided proposal_workflow refl refl refl, tt))
      (decided standard_ticket refl refl refl, (decided escalation_workflow refl refl refl, tt))
      (
        decided general_task_execution refl refl refl,
        (decided research_then_act refl refl refl, tt),
      )
      generic-IsWellFormed
