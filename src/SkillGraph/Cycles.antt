-- ===== src/SkillGraph/Cycles.antt =====
-- `detectCycles` of graph.ts: a depth-first search with three colours, on fuel, one more than the
-- number of skills.
pub mod Sound
pub mod Enough
use oss_agent_tools.Prelude.{
  ℕ, ◌+◌, zero, suc, String, Bool, true, false, Option, none, some, List, [], ◌∷◌, ◌++◌, ◌==◌,
  string_key, contains, lookup, insert, length, if◌then◌else◌,
}
use oss_agent_tools.SkillGraph.{SkillMetadata}
use oss_agent_tools.SkillGraph.Edges.{Edges, targets_of}

pub data Color : Type 0 where
  white gray black : Color

pub record Search : Type 0 where
  pub color : List (String × Color)
  pub cycles : List (List String)

abbrev pub paint : String → Color → Search → Search
paint node c st = record st { color = insert node c st.color }

-- `path.slice(path.indexOf(node))`.
abbrev pub slice_from : String → List String → List String
slice_from node [] = []
slice_from node (x ∷ xs) = if x == node then x ∷ xs else slice_from node xs

unfoldable pub report : List String → String → Search → Search
report path neighbor st =
    if contains neighbor path
    then record st { cycles = st.cycles ++ slice_from neighbor path ∷ [] }
    else st

-- What is done about a neighbor, by its colour.
unfoldable pub meet :
    (String → Search → Search) → List String → String → Option Color → Search → Search
unfolding report
meet descend path neighbor (some gray) st = report path neighbor st
meet descend path neighbor (some white) st = descend neighbor st
meet descend path neighbor (some black) st = st
meet descend path neighbor none st = st

unfoldable pub visit_all : (String → Search → Search) → List String → List String → Search → Search
unfolding meet
visit_all descend path [] st = st
visit_all descend path (n ∷ ns) st =
    visit_all descend path ns (meet descend path n (lookup n st.color) st)

module _ (out_edges : Edges) where
  unfoldable pub dfs : ℕ → List String → String → Search → Search
  unfolding visit_all
  dfs zero path node st = st
  dfs (suc fuel) path node st = paint node black (
      visit_all (dfs fuel (path ++ node ∷ [])) (path ++ node ∷ []) (targets_of node out_edges)
        (paint node gray st))

  unfoldable pub start_at : ℕ → String → Option Color → Search → Search
  unfolding dfs
  start_at fuel node (some white) st = dfs fuel [] node st
  start_at fuel node (some gray) st = st
  start_at fuel node (some black) st = st
  start_at fuel node none st = st

  unfoldable pub search_from : ℕ → List SkillMetadata → Search → Search
  unfolding start_at
  search_from fuel [] st = st
  search_from fuel (s ∷ ss) st =
      search_from fuel ss (start_at fuel s.skill_id (lookup s.skill_id st.color) st)

abbrev pub paint_white : List SkillMetadata → Search → Search
paint_white [] st = st
paint_white (s ∷ ss) st = paint_white ss (paint s.skill_id white st)

abbrev pub unsearched : List SkillMetadata → Search
unsearched skills = paint_white skills (record { color = []; cycles = [] })

unfoldable pub detect_cycles : List SkillMetadata → Edges → List (List String)
unfolding search_from
detect_cycles skills out_edges =
    (search_from out_edges (length skills + 1) skills (unsearched skills)).cycles
