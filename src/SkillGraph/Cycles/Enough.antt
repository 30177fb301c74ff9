-- ===== src/SkillGraph/Cycles/Enough.antt =====
-- The search does not run out of fuel: every descent takes a white node and paints it gray, and no
-- node becomes white again.
use oss_agent_tools.Prelude.{
  ℕ, zero, suc, ◌+◌, ◌≤◌, ◌<◌, String, ◌≡◌, refl, ap, ◌∙◌, Option, none, some, List, [], ◌∷◌, ◌++◌,
  ◌==◌, string_key, contains, lookup, insert, length, leb, arith, Bool-cases, inl, inr,
}
use oss_agent_tools.SkillGraph.{SkillMetadata}
use oss_agent_tools.SkillGraph.Edges.{Edges, targets_of}
use oss_agent_tools.SkillGraph.Cycles.{
  Color, white, gray, black, Search, paint, report, meet, visit_all, dfs, start_at, search_from,
  paint_white, unsearched, detect_cycles,
}

abbrev is_white : Color → ℕ
is_white white = 1
is_white gray = 0
is_white black = 0

abbrev whites : List (String × Color) → ℕ
whites [] = 0
whites ((k, c) ∷ m) = is_white c + whites m

whites-insert-le :
    (k : String) (c : Color) (m : List (String × Color))
    → whites (insert k c m) ≤ whites m + is_white c
whites-insert-le k c [] = omega arith
whites-insert-le k c ((j, d) ∷ m) = ground (arith, whites-insert-le k c m)

whites-insert-lt :
    (k : String) (c : Color) (m : List (String × Color))
    → lookup k m ≡ some white
    → whites (insert k c m) + 1 ≤ whites m + is_white c
whites-insert-lt k c [] h = absurd (ground arith)
whites-insert-lt k c ((j, d) ∷ m) h = elim (Bool-cases (j == k)) [
  | inl e ↦ rw e (ground (arith, e))
  | inr e ↦ rw e (omega (arith, whites-insert-lt k c m (ground (arith, e))))
]

abbrev left : Search → ℕ
left st = whites st.color

-- The descent makes no node white.
Shrinks : (String → Search → Search) → Type 0
Shrinks descend = (n : String) (st : Search) → left (descend n st) ≤ left st

meet-le :
    (descend : String → Search → Search) (p : List String) (n : String) (c : Option Color)
    (st : Search)
    → Shrinks descend
    → left (meet descend p n c st) ≤ left st
unfolding meet report Shrinks
meet-le descend p n (some gray) st k = elim (Bool-cases (contains n p)) [
  | inl e ↦ rw e (omega arith)
  | inr e ↦ rw e (omega arith)
]
meet-le descend p n (some white) st k = k n st
meet-le descend p n (some black) st k = omega arith
meet-le descend p n none st k = omega arith

visit_all-le :
    (descend : String → Search → Search) (p ns : List String) (st : Search)
    → Shrinks descend
    → left (visit_all descend p ns st) ≤ left st
unfolding visit_all
visit_all-le descend p [] st k = omega arith
visit_all-le descend p (n ∷ ns) st k = omega (
  arith,
  visit_all-le descend p ns (meet descend p n (lookup n st.color) st) k,
  meet-le descend p n (lookup n st.color) st k,
)

module _ (out_edges : Edges) where
  dfs-le :
      (fuel : ℕ) (p : List String) (node : String) (st : Search)
      → left (dfs out_edges fuel p node st) ≤ left st
  unfolding dfs Shrinks
  dfs-le zero p node st = omega arith
  dfs-le (suc fuel) p node st =
      let p' = p ++ node ∷ [] in
      let st' =
        visit_all (dfs out_edges fuel p') p' (targets_of node out_edges) (paint node gray st) in
      omega (
        arith,
        whites-insert-le node black st'.color,
        visit_all-le (dfs out_edges fuel p') p' (targets_of node out_edges) (paint node gray st)
            (λ n s. dfs-le fuel p' n s),
        whites-insert-le node gray st.color,
      )

-- The two descents agree at white nodes where no more than so many nodes are white.
Agree : ℕ → (String → Search → Search) → (String → Search → Search) → Type 0
Agree w d e =
    (n : String) (st : Search) → lookup n st.color ≡ some white → left st ≤ w → d n st ≡ e n st

meet-Agree :
    (w : ℕ) (d e : String → Search → Search) (p : List String) (n : String) (c : Option Color)
    (st : Search)
    → Agree w d e
    → left st ≤ w
    → lookup n st.color ≡ c
    → meet d p n c st ≡ meet e p n c st
unfolding meet Agree
meet-Agree w d e p n (some gray) st a h k = refl
meet-Agree w d e p n (some white) st a h k = a n st k h
meet-Agree w d e p n (some black) st a h k = refl
meet-Agree w d e p n none st a h k = refl

visit_all-Agree :
    (w : ℕ) (d e : String → Search → Search) (p ns : List String) (st : Search)
    → Agree w d e
    → Shrinks e
    → left st ≤ w
    → visit_all d p ns st ≡ visit_all e p ns st
unfolding visit_all
visit_all-Agree w d e p [] st a k h = refl
visit_all-Agree w d e p (n ∷ ns) st a k h =
    ap (visit_all d p ns) (meet-Agree w d e p n (lookup n st.color) st a h refl)
    ∙ visit_all-Agree w d e p ns _ a k (omega (arith, meet-le e p n (lookup n st.color) st k))

module _ (out_edges : Edges) where
  dfs-suc :
      (fuel : ℕ) (p : List String) (node : String) (st : Search)
      → lookup node st.color ≡ some white
      → left st ≤ fuel
      → dfs out_edges (suc fuel) p node st ≡ dfs out_edges fuel p node st
  unfolding dfs Agree Shrinks
  dfs-suc zero p node st l h = absurd (omega (arith, whites-insert-lt node gray st.color l))
  dfs-suc (suc fuel) p node st l h =
      let p' = p ++ node ∷ [] in
      ap (paint node black) (
        visit_all-Agree fuel (dfs out_edges (suc fuel) p') (dfs out_edges fuel p') p'
          (targets_of node out_edges) (paint node gray st) (λ n s k g. dfs-suc fuel p' n s k g)
          (λ n s. dfs-le out_edges fuel p' n s)
          (omega (arith, whites-insert-lt node gray st.color l)))

  dfs-more :
      (fuel more : ℕ) (node : String) (st : Search)
      → lookup node st.color ≡ some white
      → left st ≤ fuel
      → fuel ≤ more
      → dfs out_edges more [] node st ≡ dfs out_edges fuel [] node st
  dfs-more fuel zero node st l h g = ap (λ k. dfs out_edges k [] node st) (omega arith)
  dfs-more fuel (suc more) node st l h g = elim (Bool-cases (leb fuel more)) [
    | inl e ↦
        dfs-suc more [] node st l (ground arith) ∙ dfs-more fuel more node st l h (ground arith)
    | inr e ↦ ap (λ k. dfs out_edges k [] node st) (ground arith)
  ]

  start_at-more :
      (fuel more : ℕ) (node : String) (c : Option Color) (st : Search)
      → lookup node st.color ≡ c
      → left st ≤ fuel
      → fuel ≤ more
      → start_at out_edges more node c st ≡ start_at out_edges fuel node c st
  unfolding start_at
  start_at-more fuel more node (some white) st l h g = dfs-more fuel more node st l h g
  start_at-more fuel more node (some gray) st l h g = refl
  start_at-more fuel more node (some black) st l h g = refl
  start_at-more fuel more node none st l h g = refl

  start_at-le :
      (fuel : ℕ) (node : String) (c : Option Color) (st : Search)
      → left (start_at out_edges fuel node c st) ≤ left st
  unfolding start_at
  start_at-le fuel node (some white) st = dfs-le out_edges fuel [] node st
  start_at-le fuel node (some gray) st = omega arith
  start_at-le fuel node (some black) st = omega arith
  start_at-le fuel node none st = omega arith

  search_from-more :
      (fuel more : ℕ) (skills : List SkillMetadata) (st : Search)
      → left st ≤ fuel
      → fuel ≤ more
      → search_from out_edges more skills st ≡ search_from out_edges fuel skills st
  unfolding search_from
  search_from-more fuel more [] st h g = refl
  search_from-more fuel more (s ∷ ss) st h g =
      ap (search_from out_edges more ss)
        (start_at-more fuel more s.skill_id (lookup s.skill_id st.color) st refl h g)
      ∙ search_from-more fuel more ss _
          (omega (arith, start_at-le fuel s.skill_id (lookup s.skill_id st.color) st)) g

paint_white-le :
    (skills : List SkillMetadata) (st : Search)
    → left (paint_white skills st) ≤ left st + length skills
paint_white-le [] st = omega arith
paint_white-le (s ∷ ss) st = omega (
  arith,
  paint_white-le ss (paint s.skill_id white st),
  whites-insert-le s.skill_id white st.color,
)

-- With more fuel the search finds the same cycles: one more than the number of skills is enough.
pub detect_cycles-enough :
    (skills : List SkillMetadata) (out_edges : Edges) (fuel : ℕ)
    → length skills < fuel
    → (search_from out_edges fuel skills (unsearched skills)).cycles
      ≡ detect_cycles skills out_edges
unfolding detect_cycles
detect_cycles-enough skills out_edges fuel h =
    ap (λ st. st.cycles)
      (search_from-more out_edges (length skills + 1) fuel skills (unsearched skills)
        (omega (arith, paint_white-le skills (record { color = []; cycles = [] }))) (omega arith))
