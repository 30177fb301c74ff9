-- ===== src/SkillGraph/Mirror.antt =====
-- The two adjacency lists of `analyzeSkillGraph` of graph.ts hold the same edges.
use oss_agent_tools.Prelude.{
  String, ◌≡◌, refl, true, if_cases, sym, ◌∙◌, List, [], ◌∷◌, ◌==◌, string_key, contains,
  contains-add, add, lookup-insert, if◌then◌else◌, arith,
}
use oss_agent_tools.SkillGraph.{SkillMetadata}
use oss_agent_tools.SkillGraph.Paths.{skill_ids}
use oss_agent_tools.SkillGraph.Edges.{
  Edges, Graph, targets_of, ensure, add_edge, feeds, prereqs, alts, enter, feed_all, require_all,
  check_alternatives, add_skill, add_skills, build_graph, empty_graph,
}

-- An edge is in the first exactly where it is in the second the other way round.
abbrev pub Mirrored : Edges → Edges → Type 0
Mirrored out_edges in_edges =
    (k t : String) → contains t (targets_of k out_edges) ≡ contains k (targets_of t in_edges)

targets_of-ensure : (k j : String) (e : Edges) → targets_of j (ensure k e) ≡ targets_of j e
targets_of-ensure k j e = ground (arith, lookup-insert k j [] e, string_key.same_iff k j)

contains-add_edge :
    (k v j t : String) (e : Edges)
    → contains t (targets_of j (add_edge k v e)) ≡ (
        if k == j
        then (if v == t then true else contains t (targets_of j e))
        else contains t (targets_of j e))
contains-add_edge k v j t e = ground (
  arith,
  lookup-insert k j (add v (targets_of k e)) e,
  contains-add v t (targets_of k e),
  string_key.same_iff k j,
)

add_edge-Mirrored :
    (a b : String) (out_edges in_edges : Edges)
    → Mirrored out_edges in_edges
    → Mirrored (add_edge a b out_edges) (add_edge b a in_edges)
add_edge-Mirrored a b o i m k t =
    contains-add_edge a b k t o ∙ ground (arith, m k t) ∙ sym (contains-add_edge b a t k i)

ensure-Mirrored_out :
    (k : String) (out_edges in_edges : Edges)
    → Mirrored out_edges in_edges
    → Mirrored (ensure k out_edges) in_edges
ensure-Mirrored_out a o i m k t = ground (arith, targets_of-ensure a k o, m k t)

ensure-Mirrored_in :
    (k : String) (out_edges in_edges : Edges)
    → Mirrored out_edges in_edges
    → Mirrored out_edges (ensure k in_edges)
ensure-Mirrored_in a o i m k t = ground (arith, targets_of-ensure a t i, m k t)

abbrev AreMirrored : Graph → Type 0
AreMirrored g = Mirrored g.out_edges g.in_edges

feed_all-AreMirrored :
    (ids : List String) (id : String) (targets : List String) (g : Graph)
    → AreMirrored g
    → AreMirrored (feed_all ids id targets g)
unfolding feed_all
feed_all-AreMirrored ids id [] g m = m
feed_all-AreMirrored ids id (t ∷ ts) g m = feed_all-AreMirrored ids id ts _ (
    if_cases AreMirrored (contains t ids) _ _
      (λ e.
        add_edge-Mirrored id t g.out_edges (ensure t g.in_edges)
          (ensure-Mirrored_in t g.out_edges g.in_edges m))
      (λ e. m))

require_all-AreMirrored :
    (ids : List String) (id : String) (required : List String) (g : Graph)
    → AreMirrored g
    → AreMirrored (require_all ids id required g)
unfolding require_all
require_all-AreMirrored ids id [] g m = m
require_all-AreMirrored ids id (t ∷ ts) g m = require_all-AreMirrored ids id ts _ (
    if_cases AreMirrored (contains t ids) _ _
      (λ e.
        add_edge-Mirrored t id (ensure t g.out_edges) g.in_edges
          (ensure-Mirrored_out t g.out_edges g.in_edges m))
      (λ e. m))

check_alternatives-AreMirrored :
    (ids : List String) (id : String) (others : List String) (g : Graph)
    → AreMirrored g
    → AreMirrored (check_alternatives ids id others g)
unfolding check_alternatives
check_alternatives-AreMirrored ids id [] g m = m
check_alternatives-AreMirrored ids id (t ∷ ts) g m =
    check_alternatives-AreMirrored ids id ts _
      (if_cases AreMirrored (contains t ids) _ _ (λ e. m) (λ e. m))

add_skills-AreMirrored :
    (ids : List String) (skills : List SkillMetadata) (g : Graph)
    → AreMirrored g
    → AreMirrored (add_skills ids skills g)
unfolding add_skills add_skill
add_skills-AreMirrored ids [] g m = m
add_skills-AreMirrored ids (s ∷ ss) g m = add_skills-AreMirrored ids ss _ (
    check_alternatives-AreMirrored ids s.skill_id (alts s) _ (
      require_all-AreMirrored ids s.skill_id (prereqs s) _ (
        feed_all-AreMirrored ids s.skill_id (feeds s) (enter s.skill_id g) (
          ensure-Mirrored_in s.skill_id (ensure s.skill_id g.out_edges) g.in_edges
            (ensure-Mirrored_out s.skill_id g.out_edges g.in_edges m)))))

pub build_graph-AreMirrored :
    (skills : List SkillMetadata)
    → Mirrored (build_graph skills).out_edges (build_graph skills).in_edges
unfolding build_graph
build_graph-AreMirrored skills =
    add_skills-AreMirrored (skill_ids skills) skills empty_graph (λ k t. refl)
