-- ===== src/Interview/Rubric/Registered.antt =====
-- The registered rubrics, depth by depth.
use oss_agent_tools.Prelude.{
  String, ◌≡◌, refl, Bool, true, false, some, List, [], all, map, contains, string_key, Distinct,
  distinct, distinct-Distinct, lookup-All, All, ◌==◌, arith, or_else,
}
use oss_agent_tools.Numbers.{Arithmetic}
use oss_agent_tools.Interview.{Depth, quick, guided, operator, RubricDimension, DomainRubric}
use oss_agent_tools.Interview.Rubric.{get_dimensions_for_depth, domain_rubrics, get_domain_rubric}
use oss_agent_tools.Interview.Rubric.Content.{rubric as content_rubric}
use oss_agent_tools.Interview.Rubric.Development.{rubric as development_rubric}
use oss_agent_tools.Interview.Rubric.Research.{rubric as research_rubric}
use oss_agent_tools.Interview.Rubric.Sales.{rubric as sales_rubric}
use oss_agent_tools.Interview.Rubric.Support.{rubric as support_rubric}
use oss_agent_tools.Interview.Rubric.Universal.{universal_dimensions}

module _ {N : Type 0} (a : Arithmetic N) where
  abbrev dimension_ids : List (RubricDimension N) → List String
  dimension_ids dimensions = map (λ d. d.id) dimensions

  -- Every cascade of the dimensions goes to one of the listed ids.
  abbrev pub cascades_to : List String → List (RubricDimension N) → Bool
  cascades_to ids dimensions =
      all (λ d. all (λ k. contains k.dimension_id ids) (or_else d.cascade_to [])) dimensions

  abbrev dimensions_at : DomainRubric N → Depth → List (RubricDimension N)
  dimensions_at r d = get_dimensions_for_depth a r d (universal_dimensions a)

  abbrev pub ids_at : DomainRubric N → Depth → List String
  ids_at r d = dimension_ids (dimensions_at r d)

  abbrev pub IsWellFormed : DomainRubric N → Type 0
  IsWellFormed r =
      Distinct (ids_at r quick)
      × Distinct (ids_at r guided)
      × Distinct (ids_at r operator)
      × (cascades_to (ids_at r operator) (dimensions_at r operator) ≡ true)

  -- The tests that decide it.
  decided :
      (r : DomainRubric N)
      → distinct (ids_at r quick) ≡ true
      → distinct (ids_at r guided) ≡ true
      → distinct (ids_at r operator) ≡ true
      → cascades_to (ids_at r operator) (dimensions_at r operator) ≡ true
      → IsWellFormed r
  decided r q g o c = (
    distinct-Distinct (ids_at r quick) q,
    distinct-Distinct (ids_at r guided) g,
    distinct-Distinct (ids_at r operator) o,
    c,
  )

  rubrics-IsWellFormed :
      All (λ e. (e.0 == "general-agent") ≡ false → IsWellFormed e.1) (domain_rubrics a)
  unfolding domain_rubrics get_dimensions_for_depth
  rubrics-IsWellFormed = (
    λ e. decided (content_rubric a) refl refl refl refl,
    (
      λ e. decided (development_rubric a) refl refl refl refl,
      (
        λ e. absurd (ground arith),
        (
          λ e. decided (research_rubric a) refl refl refl refl,
          (
            λ e. decided (sales_rubric a) refl refl refl refl,
            (λ e. decided (support_rubric a) refl refl refl refl, tt),
          ),
        ),
      ),
    ),
  )

  -- The ids of a registered rubric's dimensions, the universal ones included, are distinct at every
  -- depth, and every cascade goes to one of the ids at the last depth, except in the rubric of the
  -- general agent.
  pub get_domain_rubric-IsWellFormed :
      (id : String) (r : DomainRubric N)
      → get_domain_rubric a id ≡ some r
      → (id == "general-agent") ≡ false
      → IsWellFormed r
  get_domain_rubric-IsWellFormed id r h n =
      lookup-All (λ i s. (i == "general-agent") ≡ false → IsWellFormed s) id r (domain_rubrics a)
        rubrics-IsWellFormed h n
