-- ===== src/SkillGraph/Reports.antt =====
-- The pipelines that `detectPipelines` of graph.ts finds, in terms of the edges that leave a skill.
use oss_agent_tools.Prelude.{
  ℕ, ◌+◌, ◌<◌, String, ◌≡◌, refl, ap, sym, ◌∙◌, ◌⊎◌, true, false, not, Option, none, some, List, [],
  ◌∷◌, ◌++◌, append_assoc, ◌==◌, string_key, contains, contains-append, contains-add, add, find,
  length, length-filter-le, length-map, leb, if◌then◌else◌, All, arith, Bool-cases, inl, inr,
  beq_refl, subst,
}
use oss_agent_tools.SkillGraph.{SkillMetadata}
use oss_agent_tools.SkillGraph.Walk.{walk, IsWalk, walk-IsWalk, walk-visited}
use oss_agent_tools.SkillGraph.Paths.{skill_ids}
use oss_agent_tools.SkillGraph.Edges.{Edges, targets_of, build_graph}
use oss_agent_tools.SkillGraph.Analysis.{
  first_unvisited, non_empty, is_start, follow_chain, pipelines_from, detect_pipelines,
}
use oss_agent_tools.SkillGraph.Within.{Within, first_unvisited-IsFresh, build_graph-Within}
use oss_agent_tools.SkillGraph.Mirror.{Mirrored, build_graph-AreMirrored}

-- The first of the targets that was not taken.
abbrev FirstNew : List String → List String → String → Type 0
FirstNew taken targets n =
    (before : List String) × (after : List String) × (targets ≡ before ++ n ∷ after)
    × All (λ t. contains t taken ≡ true) before
    × (contains n taken ≡ false)

-- Each skill is the first target of the one before that was not taken, and has not the empty id.
-- Every target of the last is taken, or the first that is not has the empty id.
abbrev pub FollowsEdges : Edges → List String → String → List String → Type 0
FollowsEdges edges taken current [] =
    All (λ t. contains t taken ≡ true) (targets_of current edges)
    ⊎ FirstNew taken (targets_of current edges) ""
FollowsEdges edges taken current (n ∷ rest) =
    FirstNew taken (targets_of current edges) n
    × ((n == "") ≡ false)
    × FollowsEdges edges (taken ++ n ∷ []) n rest

-- No edge enters the skill, and some edge leaves it.
abbrev pub IsSource : Edges → String → Type 0
IsSource edges id =
    ((k : String) → contains id (targets_of k edges) ≡ false)
    × ((n : String) × (others : List String) × (targets_of id edges ≡ n ∷ others))

-- Some edge enters the skill, or none leaves it.
abbrev pub IsInner : Edges → String → Type 0
IsInner edges id =
    ((k : String) × (contains id (targets_of k edges) ≡ true)) ⊎ (targets_of id edges ≡ [])

-- A chain counts where it has more than its start.
abbrev with_chain : String → List String → List (List String) → List (List String)
with_chain start [] later = later
with_chain start (n ∷ rest) later = (start ∷ n ∷ rest) ∷ later

-- What is found for the skills, one after the other, given the skills that earlier chains took.
abbrev pub Reports : Edges → List String → List SkillMetadata → List (List String) → Type 0
Reports edges taken [] found = found ≡ []
Reports edges taken (s ∷ ss) found =
    (IsInner edges s.skill_id × Reports edges taken ss found)
    ⊎ (IsSource edges s.skill_id
        × ((rest : List String) × (later : List (List String)) × (found
              ≡ with_chain s.skill_id rest later)
            × FollowsEdges edges (taken ++ s.skill_id ∷ []) s.skill_id rest
            × Reports edges (taken ++ s.skill_id ∷ rest) ss later))

-- The same elements.
abbrev Agree : List String → List String → Type 0
Agree visited taken = (t : String) → contains t visited ≡ contains t taken

Agree-append :
    (visited taken more : List String)
    → Agree visited taken
    → Agree (visited ++ more) (taken ++ more)
Agree-append visited taken more h t =
    ground (arith, contains-append t visited more, contains-append t taken more, h t)

Agree-add :
    (id : String) (visited taken : List String)
    → Agree visited taken
    → Agree (add id visited) (taken ++ id ∷ [])
Agree-add id visited taken h t =
    ground (arith, contains-add id t visited, contains-append t taken (id ∷ []), h t)

module _ (visited taken : List String) (agree : Agree visited taken) where
  find-none :
      (targets : List String)
      → find (λ t. not (contains t visited)) targets ≡ none
      → All (λ t. contains t taken ≡ true) targets
  find-none [] h = tt
  find-none (t ∷ ts) h = elim (Bool-cases (contains t visited)) [
    | inl e ↦ (sym (agree t) ∙ e, find-none ts (ground (arith, e, h)))
    | inr e ↦ absurd (ground (arith, e, h))
  ]

  find-FirstNew :
      (targets : List String) (n : String)
      → find (λ t. not (contains t visited)) targets ≡ some n
      → FirstNew taken targets n
  find-FirstNew [] n h = absurd (ground (arith, h))
  find-FirstNew (t ∷ ts) n h = elim (Bool-cases (contains t visited)) [
    | inl e ↦
        let (before, after, split, all_taken, new) = find-FirstNew ts n (ground (arith, e, h)) in
        (t ∷ before, after, ap (◌∷◌ t) split, (sym (agree t) ∙ e, all_taken), new)
    | inr e ↦
        subst (FirstNew taken (t ∷ ts)) (ground (arith, e, h)) ([], ts, refl, tt, sym (agree t) ∙ e)
  ]

  found-none :
      (targets : List String) (o : Option String)
      → find (λ t. not (contains t visited)) targets ≡ o
      → non_empty o ≡ none
      → All (λ t. contains t taken ≡ true) targets ⊎ FirstNew taken targets ""
  found-none targets none e h = inl (find-none targets e)
  found-none targets (some n) e h = inr (
      subst (FirstNew taken targets) (ground (arith, h, string_key.same_iff n ""))
        (find-FirstNew targets n e))

  found-some :
      (targets : List String) (o : Option String) (n : String)
      → find (λ t. not (contains t visited)) targets ≡ o
      → non_empty o ≡ some n
      → FirstNew taken targets n × ((n == "") ≡ false)
  found-some targets none n e h = absurd (ground (arith, h))
  found-some targets (some k) n e h = elim (Bool-cases (k == "")) [
    | inl g ↦ absurd (ground (arith, g, h))
    | inr g ↦
        subst (λ x. FirstNew taken targets x × ((x == "") ≡ false)) (ground (arith, g, h))
          (find-FirstNew targets k e, g)
  ]

IsWalk-FollowsEdges :
    (edges : Edges) (visited taken : List String) (current : String) (rest : List String)
    → Agree visited taken
    → IsWalk (first_unvisited edges) visited current rest
    → FollowsEdges edges taken current rest
IsWalk-FollowsEdges edges visited taken current [] agree h =
    found-none visited taken agree (targets_of current edges) _ refl h
IsWalk-FollowsEdges edges visited taken current (n ∷ rest) agree (h, hs) =
    let (new, named) = found-some visited taken agree (targets_of current edges) _ n refl h in
    (
      new,
      named,
      IsWalk-FollowsEdges edges (visited ++ n ∷ []) (taken ++ n ∷ []) n rest
          (Agree-append visited taken (n ∷ []) agree) hs,
    )

with_chain_iff :
    (start : String) (rest : List String) (later : List (List String))
    → (if leb 2 (length (start ∷ rest)) then (start ∷ rest) ∷ later else later)
      ≡ with_chain start rest later
with_chain_iff start [] later = refl
with_chain_iff start (n ∷ rest) later = ground arith

start-cases :
    (out_edges in_edges : Edges) (id : String) (entering leaving : List String)
    → Mirrored out_edges in_edges
    → targets_of id in_edges ≡ entering
    → targets_of id out_edges ≡ leaving
    → (IsSource out_edges id × (is_start out_edges in_edges id ≡ true))
      ⊎ (IsInner out_edges id × (is_start out_edges in_edges id ≡ false))
start-cases o i id [] [] m e f = inr (inr f, rw (e, f) refl)
start-cases o i id [] (n ∷ others) m e f =
    inl (((λ k. m k id ∙ rw e refl), (n, others, f)), rw (e, f) (ground arith))
start-cases o i id (k ∷ ks) leaving m e f =
    inr (inl (k, m k id ∙ rw (e, beq_refl k) refl), rw e (ground arith))

module _ (ids : List String) (out_edges in_edges : Edges) (within : Within ids out_edges)
    (mirrored : Mirrored out_edges in_edges) (fuel : ℕ) (enough : length ids < fuel) where
  pipelines_from-Reports :
      (skills : List SkillMetadata) (visited taken : List String)
      → Agree visited taken
      → Reports out_edges taken skills (pipelines_from fuel out_edges in_edges skills visited)
  unfolding pipelines_from follow_chain
  pipelines_from-Reports [] visited taken agree = refl
  pipelines_from-Reports (s ∷ ss) visited taken agree =
      let id = s.skill_id in
      let next = first_unvisited out_edges in
      let seen = add id visited in
      let rest = (walk next fuel seen id).0 in
      let seen_agree = Agree-add id visited taken agree in
      elim (start-cases out_edges in_edges id _ _ mirrored refl refl) [
        | inl (source, e) ↦ rw e (
            inr (
              source,
              (
                rest,
                pipelines_from fuel out_edges in_edges ss (walk next fuel seen id).1,
                with_chain_iff id rest _,
                IsWalk-FollowsEdges out_edges seen (taken ++ id ∷ []) id rest seen_agree (
                    walk-IsWalk next ids (first_unvisited-IsFresh ids out_edges within) fuel seen id
                      (omega (arith, enough, length-filter-le (λ i. not (contains i seen)) ids))),
                pipelines_from-Reports ss (walk next fuel seen id).1 (taken ++ id ∷ rest) (λ t.
                    ap (contains t) (walk-visited next fuel seen id)
                    ∙ Agree-append seen (taken ++ id ∷ []) rest seen_agree t
                    ∙ ap (contains t) (append_assoc taken (id ∷ []) rest)),
              ),
            ))
        | inr (inner, e) ↦ rw e (inl (inner, pipelines_from-Reports ss visited taken agree))
      ]

-- The analysis reports, skill by skill, one pipeline for each skill that no edge enters and some
-- edge leaves, unless nothing follows that skill. The pipeline goes from each skill to its first
-- target that is in no earlier chain and not in this one, until there is none or it has the empty
-- id.
pub detect_pipelines-Reports :
    (skills : List SkillMetadata)
    → let g = build_graph skills in
      Reports g.out_edges [] skills (detect_pipelines skills g.out_edges g.in_edges)
unfolding detect_pipelines
detect_pipelines-Reports skills =
    let g = build_graph skills in
    pipelines_from-Reports (skill_ids skills) g.out_edges g.in_edges (build_graph-Within skills)
      (build_graph-AreMirrored skills) (length skills + 1)
      (omega (arith, length-map skills (λ s. s.skill_id))) skills [] [] (λ t. refl)
