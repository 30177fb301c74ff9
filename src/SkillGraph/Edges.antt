-- ===== src/SkillGraph/Edges.antt =====
-- The adjacency lists of `analyzeSkillGraph` of graph.ts, which its first loop builds from the
-- relationships of the skills, and the references to skills that do not exist.
use oss_agent_tools.Prelude.{
  ℕ, ◌+◌, String, ◌≡◌, refl, ap, sym, ◌∙◌, not, List, [], ◌∷◌, ◌++◌, append_assoc, append-nil,
  string_key, contains, add, lookup, insert, filter, map, or_else, is_some, if◌then◌else◌,
  Bool-cases, inl, inr,
}
use oss_agent_tools.SkillGraph.{SkillMetadata}
use oss_agent_tools.SkillGraph.Paths.{skill_ids}

pub record MissingRef : Type 0 where
  pub skill_id : String
  pub missing_ref : String
  pub relationship : String

abbrev pub Edges : Type 0
Edges = List (String × List String)

pub record Graph : Type 0 where
  pub out_edges : Edges
  pub in_edges : Edges
  pub connections : List (String × ℕ)
  pub missing_refs : List MissingRef

abbrev pub targets_of : String → Edges → List String
targets_of k m = or_else (lookup k m) []

-- `if (!m.has(k)) m.set(k, new Set())`.
abbrev pub ensure : String → Edges → Edges
ensure k m = if is_some (lookup k m) then m else insert k [] m

-- `m.get(k)!.add(v)`.
abbrev pub add_edge : String → String → Edges → Edges
add_edge k v m = insert k (add v (targets_of k m)) m

abbrev connections_of : String → List (String × ℕ) → ℕ
connections_of k m = or_else (lookup k m) 0

abbrev connect : String → List (String × ℕ) → List (String × ℕ)
connect k m = insert k (connections_of k m + 1) m

abbrev pub missing : String → String → String → Graph → Graph
missing id ref relationship g = record g {
  missing_refs =
      g.missing_refs
      ++ record { skill_id = id; missing_ref = ref; relationship = relationship } ∷ [];
}

module _ (ids : List String) (id : String) where
  unfoldable pub feed_all : List String → Graph → Graph
  feed_all [] g = g
  feed_all (target ∷ targets) g = feed_all targets (
      if contains target ids
      then record g {
        out_edges = add_edge id target g.out_edges;
        in_edges = add_edge target id (ensure target g.in_edges);
        connections = connect target (connect id g.connections);
      }
      else missing id target "feeds_into" g)

  unfoldable pub require_all : List String → Graph → Graph
  require_all [] g = g
  require_all (prereq ∷ prereqs) g = require_all prereqs (
      if contains prereq ids
      then record g {
        out_edges = add_edge prereq id (ensure prereq g.out_edges);
        in_edges = add_edge id prereq g.in_edges;
        connections = connect prereq (connect id g.connections);
      }
      else missing id prereq "prerequisites" g)

  unfoldable pub check_alternatives : List String → Graph → Graph
  check_alternatives [] g = g
  check_alternatives (alt ∷ alts) g =
      check_alternatives alts (if contains alt ids then g else missing id alt "alternatives" g)

abbrev pub feeds : SkillMetadata → List String
feeds s = or_else s.feeds_into []

abbrev pub prereqs : SkillMetadata → List String
prereqs s = or_else s.prerequisites []

abbrev pub alts : SkillMetadata → List String
alts s = or_else s.alternatives []

-- The entries of the skill, empty where it is new.
abbrev pub enter : String → Graph → Graph
enter id g = record g {
  out_edges = ensure id g.out_edges;
  in_edges = ensure id g.in_edges;
  connections =
      if is_some (lookup id g.connections) then g.connections else insert id 0 g.connections;
}

unfoldable pub add_skill : List String → SkillMetadata → Graph → Graph
unfolding feed_all require_all check_alternatives
add_skill ids s g = check_alternatives ids s.skill_id (alts s) (
    require_all ids s.skill_id (prereqs s) (feed_all ids s.skill_id (feeds s) (enter s.skill_id g)))

unfoldable pub add_skills : List String → List SkillMetadata → Graph → Graph
unfolding add_skill
add_skills ids [] g = g
add_skills ids (s ∷ ss) g = add_skills ids ss (add_skill ids s g)

abbrev pub empty_graph : Graph
empty_graph = record { out_edges = []; in_edges = []; connections = []; missing_refs = [] }

unfoldable pub build_graph : List SkillMetadata → Graph
unfolding add_skills
build_graph skills = add_skills (skill_ids skills) skills empty_graph

-- The references of one kind that are not among the ids.
abbrev pub absent_refs : List String → String → String → List String → List MissingRef
absent_refs ids id relationship refs =
    map (λ r. record { skill_id = id; missing_ref = r; relationship = relationship })
      (filter (λ r. not (contains r ids)) refs)

abbrev pub absent_refs_of : List String → SkillMetadata → List MissingRef
absent_refs_of ids s =
    absent_refs ids s.skill_id "feeds_into" (feeds s)
    ++ (absent_refs ids s.skill_id "prerequisites" (prereqs s)
        ++ absent_refs ids s.skill_id "alternatives" (alts s))

abbrev pub all_absent_refs : List String → List SkillMetadata → List MissingRef
all_absent_refs ids [] = []
all_absent_refs ids (s ∷ ss) = absent_refs_of ids s ++ all_absent_refs ids ss

branch-missing :
    (ids : List String) (id relationship t : String) (ts : List String) (g there : Graph)
    → there.missing_refs ≡ g.missing_refs
    → (if contains t ids then there else missing id t relationship g).missing_refs
        ++ absent_refs ids id relationship ts
      ≡ g.missing_refs ++ absent_refs ids id relationship (t ∷ ts)
branch-missing ids id relationship t ts g there h = elim (Bool-cases (contains t ids)) [
  | inl e ↦ rw e (ap (λ x. x ++ absent_refs ids id relationship ts) h)
  | inr e ↦ rw e (append_assoc g.missing_refs _ _)
]

feed_all-missing :
    (ids : List String) (id : String) (targets : List String) (g : Graph)
    → (feed_all ids id targets g).missing_refs
      ≡ g.missing_refs ++ absent_refs ids id "feeds_into" targets
unfolding feed_all
feed_all-missing ids id [] g = sym (append-nil g.missing_refs)
feed_all-missing ids id (t ∷ ts) g =
    feed_all-missing ids id ts _ ∙ branch-missing ids id "feeds_into" t ts g _ refl

require_all-missing :
    (ids : List String) (id : String) (prereqs : List String) (g : Graph)
    → (require_all ids id prereqs g).missing_refs
      ≡ g.missing_refs ++ absent_refs ids id "prerequisites" prereqs
unfolding require_all
require_all-missing ids id [] g = sym (append-nil g.missing_refs)
require_all-missing ids id (t ∷ ts) g =
    require_all-missing ids id ts _ ∙ branch-missing ids id "prerequisites" t ts g _ refl

check_alternatives-missing :
    (ids : List String) (id : String) (alts : List String) (g : Graph)
    → (check_alternatives ids id alts g).missing_refs
      ≡ g.missing_refs ++ absent_refs ids id "alternatives" alts
unfolding check_alternatives
check_alternatives-missing ids id [] g = sym (append-nil g.missing_refs)
check_alternatives-missing ids id (t ∷ ts) g =
    check_alternatives-missing ids id ts _ ∙ branch-missing ids id "alternatives" t ts g _ refl

add_skill-missing :
    (ids : List String) (s : SkillMetadata) (g : Graph)
    → (add_skill ids s g).missing_refs ≡ g.missing_refs ++ absent_refs_of ids s
unfolding add_skill
add_skill-missing ids s g =
    let fed = absent_refs ids s.skill_id "feeds_into" (feeds s) in
    let required = absent_refs ids s.skill_id "prerequisites" (prereqs s) in
    let others = absent_refs ids s.skill_id "alternatives" (alts s) in
    check_alternatives-missing ids s.skill_id (alts s) _
    ∙ ap (λ x. x ++ others)
        (require_all-missing ids s.skill_id (prereqs s) _
          ∙ ap (λ x. x ++ required) (feed_all-missing ids s.skill_id (feeds s) _))
    ∙ append_assoc (g.missing_refs ++ fed) required others
    ∙ append_assoc g.missing_refs fed (required ++ others)

add_skills-missing :
    (ids : List String) (skills : List SkillMetadata) (g : Graph)
    → (add_skills ids skills g).missing_refs ≡ g.missing_refs ++ all_absent_refs ids skills
unfolding add_skills
add_skills-missing ids [] g = sym (append-nil g.missing_refs)
add_skills-missing ids (s ∷ ss) g =
    add_skills-missing ids ss _
    ∙ ap (λ x. x ++ all_absent_refs ids ss) (add_skill-missing ids s g)
    ∙ append_assoc g.missing_refs (absent_refs_of ids s) (all_absent_refs ids ss)

-- The missing references are, skill by skill and in the order of its fields, those that name no
-- skill of the manifest.
pub build_graph-missing :
    (skills : List SkillMetadata)
    → (build_graph skills).missing_refs ≡ all_absent_refs (skill_ids skills) skills
unfolding build_graph
build_graph-missing skills = add_skills-missing (skill_ids skills) skills empty_graph
