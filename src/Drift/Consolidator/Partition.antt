-- ===== src/Drift/Consolidator/Partition.antt =====
-- A consolidation plan disposes of every memory once.
use oss_agent_tools.Prelude.{
  ℕ, String, ◌≡◌, refl, sym, ap, subst, ◌∙◌, true, false, not, Option, List, [], ◌∷◌, ◌++◌, filter,
  string_key, contains, append_assoc, contains-append, Distinct, Distinct-append, arith,
}
use oss_agent_tools.Numbers.{Arithmetic}
use oss_agent_tools.AutoManage.Text.{Text}
use oss_agent_tools.Drift.Consolidator.{
  MemoryEntry, Merge, ConsolidationPlan, round, detect_merges, is_kept, sources,
  generate_consolidation_plan,
}
use oss_agent_tools.Drift.Consolidator.Groups.{round-RoundOf}
use oss_agent_tools.Drift.Consolidator.Sorting.{
  ids, filter-Distinct, filter-apart, filter-cover, contains-unmerged,
}

module _ {N : Type 0} (a : Arithmetic N) (lower : Text → Text) where
  sources-append :
      (gs hs : List Merge) → sources lower a (gs ++ hs) ≡ sources lower a gs ++ sources lower a hs
  sources-append [] hs = refl
  sources-append (g ∷ gs) hs =
      ap (λ s. g.source_ids ++ s) (sources-append gs hs)
      ∙ sym (append_assoc g.source_ids (sources lower a gs) (sources lower a hs))

  -- What the loop merges is of the list and was not merged, and is distinct.
  detect_merges-new :
      (k : String) (merged : List String) (ms : List (MemoryEntry N))
      → Distinct (ids ms)
      → contains k (sources lower a (detect_merges lower a merged ms)) ≡ true
      → (contains k (ids ms) ≡ true) × (contains k merged ≡ false)
  unfolding detect_merges
  detect_merges-new k merged [] d h = absurd (ground (arith, h))
  detect_merges-new k merged (m ∷ ms) (n, d) h =
      let r = round-RoundOf a lower merged m ms n in
      let (found, merged') = round lower a merged m ms in
      ground (
        arith,
        h,
        ap (contains k) (sources-append found (detect_merges lower a merged' ms)),
        contains-append k (sources lower a found)
            (sources lower a (detect_merges lower a merged' ms)),
        r.new k,
        r.grown k,
        detect_merges-new k merged' ms d,
      )

  detect_merges-Distinct :
      (merged : List String) (ms : List (MemoryEntry N))
      → Distinct (ids ms)
      → Distinct (sources lower a (detect_merges lower a merged ms))
  unfolding detect_merges
  detect_merges-Distinct merged [] d = tt
  detect_merges-Distinct merged (m ∷ ms) (n, d) =
      let r = round-RoundOf a lower merged m ms n in
      let (found, merged') = round lower a merged m ms in
      subst Distinct (sym (sources-append found (detect_merges lower a merged' ms))) (
        Distinct-append (sources lower a found) (sources lower a (detect_merges lower a merged' ms))
          r.once (detect_merges-Distinct merged' ms d)
          (λ k h. ground (arith, r.marked k h, detect_merges-new k merged' ms d)))

  -- The ids that a plan keeps, prunes and merges, one after the other.
  abbrev pub disposed : ConsolidationPlan → List String
  disposed plan =
      plan.memories_to_keep ++ (plan.memories_to_prune ++ sources lower a plan.memories_to_merge)

  -- A consolidation plan for memories of distinct ids keeps, prunes or merges each of them, each in
  -- one way and once, and nothing else.
  pub generate_consolidation_plan-partition :
      (date : String → Option ℕ) (iso : ℕ → String) (now : ℕ) (memories : List (MemoryEntry N))
      (days : ℕ)
      → Distinct (ids memories)
      → let all_of = disposed (generate_consolidation_plan lower a date iso now memories days) in
        Distinct all_of × ((k : String) → contains k all_of ≡ contains k (ids memories))
  unfolding generate_consolidation_plan
  generate_consolidation_plan-partition date iso now memories days d =
      let p = is_kept lower a date now days in
      let kept = filter p memories in
      let merged = sources lower a (detect_merges lower a [] kept) in
      let prune = ids (filter (λ m. not (p m)) memories) in
      let keep = ids (filter (λ m. not (contains m.id merged)) kept) in
      let d' = filter-Distinct p memories d in
      let new = λ (k : String). detect_merges-new k [] kept d' in
      let apart = λ (k : String). filter-apart k p memories d in
      let unmerged = λ (k : String). contains-unmerged k merged kept in
      (
        Distinct-append keep (prune ++ merged) (filter-Distinct _ kept d')
            (Distinct-append prune merged (filter-Distinct _ memories d)
              (detect_merges-Distinct [] kept d') (λ k h. ground (arith, h, new k, apart k)))
            (λ k h. ground (arith, h, new k, apart k, unmerged k, contains-append k prune merged)),
        λ k. ground (
          arith,
          new k,
          unmerged k,
          contains-append k keep (prune ++ merged),
          contains-append k prune merged,
          filter-cover k p memories,
        ),
      )
