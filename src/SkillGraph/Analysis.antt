-- ===== src/SkillGraph/Analysis.antt =====
-- `analyzeSkillGraph` of graph.ts, with the pipelines that it finds.
use oss_agent_tools.Prelude.{
  ℕ, ◌+◌, ◌-◌, ◌*◌, String, Bool, not, ◌&&◌, Option, none, some, List, [], ◌∷◌, ◌==◌, string_key,
  nat_eq, contains, add, lookup, filter, find, map, length, ltb, leb, or_else, if◌then◌else◌,
  concat,
}
use oss_agent_tools.SkillGraph.{SkillMetadata}
use oss_agent_tools.SkillGraph.Walk.{walk}
use oss_agent_tools.SkillGraph.Edges.{Edges, MissingRef, targets_of, build_graph}
use oss_agent_tools.SkillGraph.Cycles.{detect_cycles}

-- A quotient of two numbers.
pub record Density : Type 0 where
  pub numerator : ℕ
  pub denominator : ℕ

pub record SkillGraphAnalysis : Type 0 where
  pub node_count : ℕ
  pub edge_count : ℕ
  pub density : Density
  pub orphans : List String
  pub hubs : List String
  pub pipelines : List (List String)
  pub cycles : List (List String)
  pub missing_refs : List MissingRef

-- `seenEdges` after the targets of one source.
abbrev pub see_targets : String → List String → List String → List String
see_targets source [] seen = seen
see_targets source (t ∷ ts) seen = see_targets source ts (add (concat source (concat "→" t)) seen)

abbrev pub see_edges : Edges → List String → List String
see_edges [] seen = seen
see_edges ((source, targets) ∷ rest) seen = see_edges rest (see_targets source targets seen)

abbrev pub density_of : ℕ → ℕ → Density
density_of nodes edges =
    if ltb 1 nodes
    then record { numerator = edges; denominator = nodes * (nodes - 1) }
    else record { numerator = 0; denominator = 1 }

abbrev pub orphans_in : List SkillMetadata → List (String × ℕ) → List String
orphans_in skills connections =
    map (λ s. s.skill_id)
      (filter (λ s. nat_eq (or_else (lookup s.skill_id connections) 0) 0) skills)

abbrev pub hubs_in : List (String × ℕ) → List String
hubs_in connections = map (λ c. c.0) (filter (λ c. leb 3 c.1) connections)

-- `if (!next) break`: the empty id stops the chain too.
abbrev pub non_empty : Option String → Option String
non_empty none = none
non_empty (some t) = if t == "" then none else some t

abbrev pub first_unvisited : Edges → List String → String → Option String
first_unvisited out_edges visited current =
    non_empty (find (λ t. not (contains t visited)) (targets_of current out_edges))

-- No edge enters the skill, and some edge leaves it.
abbrev pub is_start : Edges → Edges → String → Bool
is_start out_edges in_edges id =
    nat_eq (length (targets_of id in_edges)) 0 && ltb 0 (length (targets_of id out_edges))

module _ (fuel : ℕ) (out_edges in_edges : Edges) where
  -- The chain and the visited skills.
  unfoldable pub follow_chain : String → List String → List String × List String
  follow_chain start visited =
      let (rest, visited') = walk (first_unvisited out_edges) fuel (add start visited) start in
      (start ∷ rest, visited')

  unfoldable pub pipelines_from : List SkillMetadata → List String → List (List String)
  unfolding follow_chain
  pipelines_from [] visited = []
  pipelines_from (s ∷ ss) visited =
      let (chain, visited') = follow_chain s.skill_id visited in
      let skipped = pipelines_from ss visited in
      let later = pipelines_from ss visited' in
      if is_start out_edges in_edges s.skill_id
      then (if leb 2 (length chain) then chain ∷ later else later)
      else skipped

unfoldable pub detect_pipelines : List SkillMetadata → Edges → Edges → List (List String)
unfolding pipelines_from
detect_pipelines skills out_edges in_edges =
    pipelines_from (length skills + 1) out_edges in_edges skills []

unfoldable pub analyze_skill_graph : List SkillMetadata → SkillGraphAnalysis
unfolding detect_pipelines
analyze_skill_graph skills =
    let g = build_graph skills in
    let edges = length (see_edges g.out_edges []) in
    record {
      node_count = length skills;
      edge_count = edges;
      density = density_of (length skills) edges;
      orphans = orphans_in skills g.connections;
      hubs = hubs_in g.connections;
      pipelines = detect_pipelines skills g.out_edges g.in_edges;
      cycles = detect_cycles skills g.out_edges;
      missing_refs = g.missing_refs;
    }
