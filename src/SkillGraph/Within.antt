-- ===== src/SkillGraph/Within.antt =====
-- Every edge of the graph of `analyzeSkillGraph` of graph.ts leads to a skill of the manifest, so
-- that a chain of `detectPipelines` ends by itself.
use oss_agent_tools.Prelude.{
  String, ◌≡◌, refl, sym, ◌∙◌, Bool, true, not, Option, none, some, List, [], ◌∷◌, ◌==◌, string_key,
  contains, contains-add, add, lookup-insert, find, All, All-map, arith, Bool-cases, inl, inr,
  subst, beq_refl,
}
use oss_agent_tools.SkillGraph.{SkillMetadata}
use oss_agent_tools.SkillGraph.Walk.{IsFresh}
use oss_agent_tools.SkillGraph.Paths.{skill_ids}
use oss_agent_tools.SkillGraph.Edges.{
  Edges, Graph, targets_of, ensure, add_edge, feeds, prereqs, alts, enter, feed_all, require_all,
  check_alternatives, add_skill, add_skills, build_graph, empty_graph,
}
use oss_agent_tools.SkillGraph.Analysis.{first_unvisited, non_empty}

-- Every edge leads to one of the ids.
abbrev pub Within : List String → Edges → Type 0
Within ids e = (k t : String) → contains t (targets_of k e) ≡ true → contains t ids ≡ true

add_edge-Within :
    (ids : List String) (k v : String) (e : Edges)
    → contains v ids ≡ true
    → Within ids e
    → Within ids (add_edge k v e)
add_edge-Within ids k v e h w j t c = ground (
  arith,
  lookup-insert k j (add v (targets_of k e)) e,
  contains-add v t (targets_of k e),
  string_key.same_iff v t,
  w k t,
  w j t,
  h,
)

ensure-Within :
    (ids : List String) (k : String) (e : Edges) → Within ids e → Within ids (ensure k e)
ensure-Within ids k e w j t c = ground (arith, lookup-insert k j [] e, w j t)

feed_all-Within :
    (ids : List String) (id : String) (targets : List String) (g : Graph)
    → Within ids g.out_edges
    → Within ids (feed_all ids id targets g).out_edges
unfolding feed_all
feed_all-Within ids id [] g w = w
feed_all-Within ids id (t ∷ ts) g w =
    feed_all-Within ids id ts _ (elim (Bool-cases (contains t ids)) [
      | inl e ↦ rw e (add_edge-Within ids id t g.out_edges e w)
      | inr e ↦ rw e w
    ])

require_all-Within :
    (ids : List String) (id : String) (required : List String) (g : Graph)
    → contains id ids ≡ true
    → Within ids g.out_edges
    → Within ids (require_all ids id required g).out_edges
unfolding require_all
require_all-Within ids id [] g h w = w
require_all-Within ids id (t ∷ ts) g h w =
    require_all-Within ids id ts _ h (elim (Bool-cases (contains t ids)) [
      | inl e ↦
          rw e
            (add_edge-Within ids t id (ensure t g.out_edges) h (ensure-Within ids t g.out_edges w))
      | inr e ↦ rw e w
    ])

check_alternatives-out :
    (ids : List String) (id : String) (others : List String) (g : Graph)
    → (check_alternatives ids id others g).out_edges ≡ g.out_edges
unfolding check_alternatives
check_alternatives-out ids id [] g = refl
check_alternatives-out ids id (t ∷ ts) g =
    check_alternatives-out ids id ts _
    ∙ elim (Bool-cases (contains t ids)) [ inl e ↦ rw e refl | inr e ↦ rw e refl ]

add_skills-Within :
    (ids : List String) (skills : List SkillMetadata) (g : Graph)
    → All (λ s. contains s.skill_id ids ≡ true) skills
    → Within ids g.out_edges
    → Within ids (add_skills ids skills g).out_edges
unfolding add_skills add_skill
add_skills-Within ids [] g h w = w
add_skills-Within ids (s ∷ ss) g (h, hs) w = add_skills-Within ids ss _ hs (
    subst (Within ids) (sym (check_alternatives-out ids s.skill_id (alts s) _)) (
      require_all-Within ids s.skill_id (prereqs s) _ h (
        feed_all-Within ids s.skill_id (feeds s) (enter s.skill_id g)
          (ensure-Within ids s.skill_id g.out_edges w))))

find-contains :
    (p : String → Bool) (xs : List String) (n : String)
    → find p xs ≡ some n
    → (p n ≡ true) × (contains n xs ≡ true)
find-contains p [] n h = absurd (ground arith)
find-contains p (x ∷ xs) n h = elim (Bool-cases (p x)) [
  | inl e ↦
      subst (λ y. (p y ≡ true) × (contains y (x ∷ xs) ≡ true)) (ground (arith, e))
        (e, rw (beq_refl x) refl)
  | inr e ↦ let (a, b) = find-contains p xs n (ground (arith, e)) in (a, ground (arith, b))
]

non_empty-some : (o : Option String) (n : String) → non_empty o ≡ some n → o ≡ some n
non_empty-some none n h = absurd (ground arith)
non_empty-some (some t) n h = elim (Bool-cases (t == "")) [
  | inl e ↦ absurd (ground (arith, e))
  | inr e ↦ ground (arith, e)
]

pub first_unvisited-IsFresh :
    (ids : List String) (e : Edges) → Within ids e → IsFresh (first_unvisited e) ids
first_unvisited-IsFresh ids e w visited current n h =
    let (new, there) =
      find-contains (λ t. not (contains t visited)) (targets_of current e) n
        (non_empty-some (find (λ t. not (contains t visited)) (targets_of current e)) n h) in
    (w current n there, ground arith)

skill_ids-contains :
    (skills : List SkillMetadata) → All (λ s. contains s.skill_id (skill_ids skills) ≡ true) skills
skill_ids-contains [] = tt
skill_ids-contains (s ∷ ss) = (
  rw (beq_refl s.skill_id) refl,
  All-map _ _ ss (λ t h. ground (arith, h)) (skill_ids-contains ss),
)

pub build_graph-Within :
    (skills : List SkillMetadata) → Within (skill_ids skills) (build_graph skills).out_edges
unfolding build_graph
build_graph-Within skills =
    add_skills-Within (skill_ids skills) skills empty_graph (skill_ids-contains skills)
      (λ k t h. absurd (ground arith))
