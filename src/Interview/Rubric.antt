-- ===== src/Interview/Rubric.antt =====
-- `getDimensionsForDepth` of TasteKit/tastekit/packages/core/interview/universal-rubric.ts, and the
-- rubrics that TasteKit/tastekit/packages/core/domains/index.ts registers.
pub mod Universal
pub mod Content
pub mod Development
pub mod General
pub mod Research
pub mod Sales
pub mod Support
pub mod Registered
use oss_agent_tools.Prelude.{
  ℕ, String, Bool, false, ◌||◌, Option, none, some, List, [], ◌∷◌, ◌++◌, string_key, lookup, filter,
  nat_eq, nat_eq_iff, if◌then◌else◌,
}
use oss_agent_tools.Numbers.{Arithmetic}
use oss_agent_tools.Interview.{Depth, quick, guided, operator, RubricDimension, DomainRubric}
use oss_agent_tools.Interview.Rubric.Universal.{universal_dimensions}
use oss_agent_tools.Interview.Rubric.Content.{rubric as content_rubric}
use oss_agent_tools.Interview.Rubric.Development.{rubric as development_rubric}
use oss_agent_tools.Interview.Rubric.General.{rubric as general_rubric}
use oss_agent_tools.Interview.Rubric.Research.{rubric as research_rubric}
use oss_agent_tools.Interview.Rubric.Sales.{rubric as sales_rubric}
use oss_agent_tools.Interview.Rubric.Support.{rubric as support_rubric}

abbrev depth_index : Depth → ℕ
depth_index quick = 0
depth_index guided = 1
depth_index operator = 2

abbrev includes : Depth → List Depth → Bool
includes d [] = false
includes d (e ∷ es) = nat_eq (depth_index e) (depth_index d) || includes d es

module _ {N : Type 0} (a : Arithmetic N) where
  abbrev pub for_depth : Depth → List (RubricDimension N) → List (RubricDimension N)
  for_depth depth dimensions = filter (λ d. includes depth d.depth_tiers) dimensions

  unfoldable pub get_dimensions_for_depth :
      DomainRubric N → Depth → List (RubricDimension N) → List (RubricDimension N)
  get_dimensions_for_depth rubric depth universal =
      (if rubric.includes_universal then for_depth depth universal else [])
      ++ for_depth depth rubric.dimensions

  unfoldable pub domain_rubrics : List (String × DomainRubric N)
  unfolding content_rubric development_rubric general_rubric research_rubric sales_rubric
      support_rubric
  domain_rubrics =
      ("content-agent", content_rubric a)
      ∷ ("development-agent", development_rubric a)
      ∷ ("general-agent", general_rubric a)
      ∷ ("research-agent", research_rubric a)
      ∷ ("sales-agent", sales_rubric a)
      ∷ ("support-agent", support_rubric a)
      ∷ []

  abbrev pub get_domain_rubric : String → Option (DomainRubric N)
  get_domain_rubric id = lookup id domain_rubrics
