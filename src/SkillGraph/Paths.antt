-- ===== src/SkillGraph/Paths.antt =====
-- `getPipelinePath` and `recommendNextSkill` of graph.ts. The loop of the first runs on fuel, one
-- more than the number of skills.
use oss_agent_tools.Prelude.{
  ◌+◌, String, ◌≡◌, ap, ◌∙◌, true, false, not, ◌&&◌, ◌||◌, Option, none, some, List, [], ◌∷◌, ◌++◌,
  ◌==◌, string_key, contains, contains-append, lookup, lookup-insert, insert, find, map, length,
  filter, or_else, is_some, if◌then◌else◌, arith, Bool-cases, inl, inr, subst,
}
use oss_agent_tools.SkillGraph.{SkillMetadata}
use oss_agent_tools.SkillGraph.Walk.{walk, IsFresh}

abbrev pub skill_ids : List SkillMetadata → List String
skill_ids skills = map (λ s. s.skill_id) skills

-- `new Map(skills.map(s => [s.skill_id, s]))`: a later skill of the same id replaces an earlier.
abbrev pub map_skills :
    List SkillMetadata → List (String × SkillMetadata) → List (String × SkillMetadata)
map_skills [] m = m
map_skills (s ∷ ss) m = map_skills ss (insert s.skill_id s m)

abbrev pub feeds_of : Option SkillMetadata → List String
feeds_of none = []
feeds_of (some s) = or_else s.feeds_into []

-- The first skill that is fed, unless it was visited or is missing.
abbrev pub follow_feed : List (String × SkillMetadata) → List String → List String → Option String
follow_feed skill_map visited [] = none
follow_feed skill_map visited (n ∷ ns) =
    if contains n visited then none else if is_some (lookup n skill_map) then some n else none

abbrev pub next_in_pipeline : List SkillMetadata → List String → String → Option String
next_in_pipeline skills visited current =
    follow_feed (map_skills skills []) visited (feeds_of (lookup current (map_skills skills [])))

unfoldable pub get_pipeline_path : List SkillMetadata → String → List String
get_pipeline_path skills start_skill =
    start_skill
    ∷ (walk (next_in_pipeline skills) (length skills + 1) (start_skill ∷ []) start_skill).0

-- The ids of the skills that name the completed one as a prerequisite, unless they are there.
abbrev pub add_dependents : String → List SkillMetadata → List String → List String
add_dependents completed [] next_skills = next_skills
add_dependents completed (s ∷ ss) next_skills = add_dependents completed ss (
    if contains completed (or_else s.prerequisites []) && not (contains s.skill_id next_skills)
    then next_skills ++ s.skill_id ∷ []
    else next_skills)

abbrev pub recommend_after : String → List SkillMetadata → Option SkillMetadata → List String
recommend_after completed skills none = []
recommend_after completed skills (some skill) =
    add_dependents completed skills (or_else skill.feeds_into [])

unfoldable pub recommend_next_skill : List SkillMetadata → String → List String
recommend_next_skill skills completed =
    recommend_after completed skills (find (λ s. s.skill_id == completed) skills)

pub map_skills-lookup :
    (skills : List SkillMetadata) (m : List (String × SkillMetadata)) (id : String)
    → is_some (lookup id (map_skills skills m))
      ≡ (is_some (lookup id m) || contains id (skill_ids skills))
map_skills-lookup [] m id = ground arith
map_skills-lookup (s ∷ ss) m id =
    map_skills-lookup ss _ id ∙ ground (arith, lookup-insert s.skill_id id s m)

follow_feed-new :
    (m : List (String × SkillMetadata)) (visited feeds : List String) (n : String)
    → follow_feed m visited feeds ≡ some n
    → (is_some (lookup n m) ≡ true) × (contains n visited ≡ false)
follow_feed-new m visited [] n h = absurd (ground arith)
follow_feed-new m visited (k ∷ ks) n h = elim (Bool-cases (contains k visited)) [
  | inl e ↦ absurd (ground (arith, e))
  | inr e ↦ elim (Bool-cases (is_some (lookup k m))) [
    | inl g ↦
        subst (λ x. (is_some (lookup x m) ≡ true) × (contains x visited ≡ false))
          (ground (arith, e, g)) (g, e)
    | inr g ↦ absurd (ground (arith, e, g))
  ]
]

pub next_in_pipeline-IsFresh :
    (skills : List SkillMetadata) → IsFresh (next_in_pipeline skills) (skill_ids skills)
next_in_pipeline-IsFresh skills visited current n h =
    let (there, new) = follow_feed-new _ visited _ n h in
    (ground (arith, map_skills-lookup skills [] n), new)

contains-add_dependents :
    (completed id : String) (skills : List SkillMetadata) (xs : List String)
    → contains id (add_dependents completed skills xs) ≡ (
        contains id xs
        || contains id
            (skill_ids (filter (λ s. contains completed (or_else s.prerequisites [])) skills)))
contains-add_dependents completed id [] xs = ground arith
contains-add_dependents completed id (s ∷ ss) xs =
    contains-add_dependents completed id ss _
    ∙ ground (arith, contains-append id xs (s.skill_id ∷ []), string_key.same_iff s.skill_id id)

-- What is recommended after a skill of the manifest is what it feeds into, and the skills that name
-- it as a prerequisite.
pub contains-recommend_next_skill :
    (skills : List SkillMetadata) (completed id : String) (skill : SkillMetadata)
    → find (λ s. s.skill_id == completed) skills ≡ some skill
    → contains id (recommend_next_skill skills completed) ≡ (
        contains id (or_else skill.feeds_into [])
        || contains id
            (skill_ids (filter (λ s. contains completed (or_else s.prerequisites [])) skills)))
unfolding recommend_next_skill
contains-recommend_next_skill skills completed id skill h =
    ap (λ o. contains id (recommend_after completed skills o)) h
    ∙ contains-add_dependents completed id skills (or_else skill.feeds_into [])
