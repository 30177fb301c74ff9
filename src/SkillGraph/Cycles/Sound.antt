-- ===== src/SkillGraph/Cycles/Sound.antt =====
-- What the search reports are cycles of the graph.
use oss_agent_tools.Prelude.{
  ℕ, zero, suc, ◌+◌, length, String, ◌≡◌, refl, sym, true, Option, none, some, List, [], ◌∷◌, ◌++◌,
  ◌==◌, string_key, beq_refl, contains, All, All-append, All-map, Never, subst, arith, Bool-cases,
  inl, inr,
}
use oss_agent_tools.SkillGraph.{SkillMetadata}
use oss_agent_tools.SkillGraph.Edges.{Edges, targets_of}
use oss_agent_tools.SkillGraph.Cycles.{
  Color, white, gray, black, Search, paint, slice_from, report, meet, visit_all, dfs, start_at,
  search_from, paint_white, unsearched, detect_cycles,
}

module _ (out_edges : Edges) where
  -- Each element has an edge to the one after it.
  abbrev pub Chain : List String → Type 0
  Chain [] = Unit
  Chain (x ∷ rest) = elim rest [
    | [] ↦ Unit
    | y ∷ ys ↦ (contains y (targets_of x out_edges) ≡ true) × Chain rest
  ]

  -- A list whose elements follow each other by edges, and the last of which has an edge to the
  -- first.
  abbrev pub IsCycle : List String → Type 0
  IsCycle [] = Never
  IsCycle (x ∷ rest) = Chain ((x ∷ rest) ++ x ∷ [])

  Chain-snoc :
      (p : List String) (a b : String)
      → Chain (p ++ a ∷ [])
      → contains b (targets_of a out_edges) ≡ true
      → Chain ((p ++ a ∷ []) ++ b ∷ [])
  Chain-snoc [] a b h e = (e, tt)
  Chain-snoc (x ∷ []) a b h e = (h.0, (e, tt))
  Chain-snoc (x ∷ y ∷ ys) a b h e = (h.0, Chain-snoc (y ∷ ys) a b h.1 e)

  Chain-tail : (x : String) (xs : List String) → Chain (x ∷ xs) → Chain xs
  Chain-tail x [] h = tt
  Chain-tail x (y ∷ ys) h = h.1

  slice_from-IsCycle :
      (p : List String) (n : String)
      → Chain (p ++ n ∷ [])
      → contains n p ≡ true
      → IsCycle (slice_from n p)
  slice_from-IsCycle [] n h c = absurd (ground arith)
  slice_from-IsCycle (x ∷ xs) n h c = elim (Bool-cases (x == n)) [
    | inl e ↦ rw e (subst (λ y. Chain ((x ∷ xs) ++ y ∷ [])) (sym ((string_key.same_iff x n).0 e)) h)
    | inr e ↦ rw e (slice_from-IsCycle xs n (Chain-tail x (xs ++ n ∷ []) h) (ground (arith, e)))
  ]

  abbrev pub IsSound : Search → Type 0
  IsSound st = All IsCycle st.cycles

  report-IsSound :
      (p : List String) (n : String) (st : Search)
      → Chain (p ++ n ∷ [])
      → IsSound st
      → IsSound (report p n st)
  unfolding report
  report-IsSound p n st h s = elim (Bool-cases (contains n p)) [
    | inl e ↦
        rw e (All-append IsCycle st.cycles (slice_from n p ∷ []) s (slice_from-IsCycle p n h e, tt))
    | inr e ↦ rw e s
  ]

  -- The descent keeps soundness from every neighbor of the path's last node.
  abbrev KeepsSound : (String → Search → Search) → List String → Type 0
  KeepsSound descend p =
      (n : String) (st : Search) → Chain (p ++ n ∷ []) → IsSound st → IsSound (descend n st)

  meet-IsSound :
      (descend : String → Search → Search) (p : List String) (n : String) (c : Option Color)
      (st : Search)
      → KeepsSound descend p
      → Chain (p ++ n ∷ [])
      → IsSound st
      → IsSound (meet descend p n c st)
  unfolding meet
  meet-IsSound descend p n (some gray) st k h s = report-IsSound p n st h s
  meet-IsSound descend p n (some white) st k h s = k n st h s
  meet-IsSound descend p n (some black) st k h s = s
  meet-IsSound descend p n none st k h s = s

  visit_all-IsSound :
      (descend : String → Search → Search) (p ns : List String) (st : Search)
      → KeepsSound descend p
      → All (λ n. Chain (p ++ n ∷ [])) ns
      → IsSound st
      → IsSound (visit_all descend p ns st)
  unfolding visit_all
  visit_all-IsSound descend p [] st k h s = s
  visit_all-IsSound descend p (n ∷ ns) st k (h, hs) s =
      visit_all-IsSound descend p ns _ k hs (meet-IsSound descend p n _ st k h s)

  All-contains : (xs : List String) → All (λ x. contains x xs ≡ true) xs
  All-contains [] = tt
  All-contains (x ∷ xs) =
      (rw (beq_refl x) refl, All-map _ _ xs (λ y h. ground (arith, h)) (All-contains xs))

  dfs-IsSound :
      (fuel : ℕ) (p : List String) (node : String) (st : Search)
      → Chain (p ++ node ∷ [])
      → IsSound st
      → IsSound (dfs out_edges fuel p node st)
  unfolding dfs
  dfs-IsSound zero p node st h s = s
  dfs-IsSound (suc fuel) p node st h s =
      visit_all-IsSound (dfs out_edges fuel (p ++ node ∷ [])) (p ++ node ∷ [])
        (targets_of node out_edges) (paint node gray st)
        (λ n st' h' s'. dfs-IsSound fuel (p ++ node ∷ []) n st' h' s')
        (All-map _ _ (targets_of node out_edges) (λ n e. Chain-snoc p node n h e)
          (All-contains (targets_of node out_edges)))
        s

  start_at-IsSound :
      (fuel : ℕ) (node : String) (c : Option Color) (st : Search)
      → IsSound st
      → IsSound (start_at out_edges fuel node c st)
  unfolding start_at
  start_at-IsSound fuel node (some white) st s = dfs-IsSound fuel [] node st tt s
  start_at-IsSound fuel node (some gray) st s = s
  start_at-IsSound fuel node (some black) st s = s
  start_at-IsSound fuel node none st s = s

  search_from-IsSound :
      (fuel : ℕ) (skills : List SkillMetadata) (st : Search)
      → IsSound st
      → IsSound (search_from out_edges fuel skills st)
  unfolding search_from
  search_from-IsSound fuel [] st s = s
  search_from-IsSound fuel (k ∷ ks) st s =
      search_from-IsSound fuel ks _ (start_at-IsSound fuel k.skill_id _ st s)

paint_white-cycles :
    (skills : List SkillMetadata) (st : Search) → (paint_white skills st).cycles ≡ st.cycles
paint_white-cycles [] st = refl
paint_white-cycles (s ∷ ss) st = paint_white-cycles ss _

-- Every reported cycle is one: its elements follow each other by edges of the graph, and the last
-- has an edge to the first.
pub detect_cycles-IsCycle :
    (skills : List SkillMetadata) (out_edges : Edges)
    → All (IsCycle out_edges) (detect_cycles skills out_edges)
unfolding detect_cycles
detect_cycles-IsCycle skills out_edges =
    search_from-IsSound out_edges (length skills + 1) skills (unsearched skills)
      (subst (All (IsCycle out_edges)) (sym (paint_white-cycles skills _)) tt)
