-- ===== src/SkillGraph/Follows.antt =====
-- The path of `getPipelinePath` of graph.ts in terms of the skills' own `feeds_into`.
use oss_agent_tools.Prelude.{
  ◌+◌, String, ◌≡◌, refl, ap, ◌∙◌, true, false, not, ◌||◌, Option, none, some, List, [], ◌∷◌, ◌++◌,
  ◌==◌, string_key, contains, lookup, lookup-insert, length, Distinct, length-filter-le, length-map,
  if◌then◌else◌, arith, Option-cases, inl, inr,
}
use oss_agent_tools.SkillGraph.{SkillMetadata}
use oss_agent_tools.SkillGraph.Walk.{IsWalk, walk-IsWalk, walk-Distinct, New-not_last}
use oss_agent_tools.SkillGraph.Paths.{
  skill_ids, map_skills, feeds_of, follow_feed, next_in_pipeline, get_pipeline_path,
  map_skills-lookup, next_in_pipeline-IsFresh,
}

-- The last skill with the id.
abbrev last_skill_of : String → List SkillMetadata → Option SkillMetadata
last_skill_of id [] = none
last_skill_of id (s ∷ ss) = elim (last_skill_of id ss) [
  | none ↦ if s.skill_id == id then some s else none
  | some t ↦ some t
]

abbrev first_of : Option (List String) → Option String
first_of none = none
first_of (some []) = none
first_of (some (n ∷ others)) = some n

abbrev first_feed_of : Option SkillMetadata → Option String
first_feed_of none = none
first_feed_of (some s) = first_of s.feeds_into

-- What the skill with the id feeds into first.
abbrev pub first_feed : List SkillMetadata → String → Option String
first_feed skills id = first_feed_of (last_skill_of id skills)

-- The first feed, where there is one, is visited or no skill of the manifest.
abbrev EndsAt : List SkillMetadata → List String → Option String → Type 0
EndsAt skills visited none = Unit
EndsAt skills visited (some n) = (contains n visited || not (contains n (skill_ids skills))) ≡ true

-- Each skill is the first feed of the one before, new, and in the manifest; after the last there
-- is no such skill.
abbrev pub FollowsFeeds : List SkillMetadata → List String → String → List String → Type 0
FollowsFeeds skills visited current [] = EndsAt skills visited (first_feed skills current)
FollowsFeeds skills visited current (n ∷ rest) =
    (first_feed skills current ≡ some n)
    × (contains n visited ≡ false)
    × (contains n (skill_ids skills) ≡ true)
    × FollowsFeeds skills (visited ++ n ∷ []) n rest

lookup-map_skills :
    (id : String) (skills : List SkillMetadata) (m : List (String × SkillMetadata))
    → lookup id (map_skills skills m)
      ≡ elim (last_skill_of id skills) [ none ↦ lookup id m | some t ↦ some t ]
lookup-map_skills id [] m = refl
lookup-map_skills id (s ∷ ss) m =
    lookup-map_skills id ss _ ∙ ground (arith, lookup-insert s.skill_id id s m)

module _ (skills : List SkillMetadata) where
  lookup-last_skill_of : (id : String) → lookup id (map_skills skills []) ≡ last_skill_of id skills
  lookup-last_skill_of id = ground (arith, lookup-map_skills id skills [])

  next-found :
      (visited : List String) (current : String)
      → next_in_pipeline skills visited current
        ≡ follow_feed (map_skills skills []) visited (feeds_of (last_skill_of current skills))
  next-found visited current =
      ap (λ s. follow_feed (map_skills skills []) visited (feeds_of s))
        (lookup-last_skill_of current)

  follow-EndsAt :
      (visited : List String) (s : Option SkillMetadata)
      → follow_feed (map_skills skills []) visited (feeds_of s) ≡ none
      → EndsAt skills visited (first_feed_of s)
  follow-EndsAt visited none h = tt
  follow-EndsAt visited (some s) h = elim (Option-cases s.feeds_into) [
    | inl e ↦ rw e tt
    | inr ([], e) ↦ rw e tt
    | inr (n ∷ others, e) ↦ rw e (ground (arith, e, h, map_skills-lookup skills [] n))
  ]

  follow-first :
      (visited : List String) (s : Option SkillMetadata) (n : String)
      → follow_feed (map_skills skills []) visited (feeds_of s) ≡ some n
      → first_feed_of s ≡ some n
  follow-first visited none n h = absurd (ground (arith, h))
  follow-first visited (some s) n h = elim (Option-cases s.feeds_into) [
    | inl e ↦ ground (arith, e, h)
    | inr ([], e) ↦ ground (arith, e, h)
    | inr (k ∷ others, e) ↦ rw e (ground (arith, e, h))
  ]

  IsWalk-FollowsFeeds :
      (visited : List String) (current : String) (rest : List String)
      → IsWalk (next_in_pipeline skills) visited current rest
      → FollowsFeeds skills visited current rest
  IsWalk-FollowsFeeds visited current [] h =
      follow-EndsAt visited (last_skill_of current skills)
        (ground (arith, next-found visited current, h))
  IsWalk-FollowsFeeds visited current (n ∷ rest) (h, hs) =
      let (there, new) = next_in_pipeline-IsFresh skills visited current n h in
      (
        follow-first visited (last_skill_of current skills) n
            (ground (arith, next-found visited current, h)),
        new,
        there,
        IsWalk-FollowsFeeds (visited ++ n ∷ []) n rest hs,
      )

  -- The pipeline path starts with the given skill and goes from each skill to the first entry of
  -- its `feeds_into`, the last of several skills with one id counting. It ends only where there is
  -- no such entry, or it names no skill of the manifest, or is already on the path. No skill is on
  -- it twice.
  pub get_pipeline_path-FollowsFeeds :
      (start_skill : String)
      → (rest : List String) × (get_pipeline_path skills start_skill ≡ start_skill ∷ rest)
        × FollowsFeeds skills (start_skill ∷ []) start_skill rest
        × Distinct (start_skill ∷ rest)
  unfolding get_pipeline_path
  get_pipeline_path-FollowsFeeds start =
      let next = next_in_pipeline skills in
      let fresh = next_in_pipeline-IsFresh skills in
      let (new, distinct) =
        walk-Distinct next (skill_ids skills) fresh (length skills + 1) (start ∷ []) start in
      (
        _,
        refl,
        IsWalk-FollowsFeeds (start ∷ []) start _ (
            walk-IsWalk next (skill_ids skills) fresh _ _ _ (
              omega (
                arith,
                length-filter-le (λ i. not (contains i (start ∷ []))) (skill_ids skills),
                length-map skills (λ s. s.skill_id),
              ))),
        (New-not_last start [] _ new, distinct),
      )
