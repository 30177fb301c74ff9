-- ===== src/Tests/Memories.antt =====
-- Three memories, of which two are alike, and one is old.
use oss_agent_tools.Prelude.{
  ℕ, String, ◌≡◌, refl, Option, some, List, [], ◌∷◌, string_key, contains, Distinct, ◌==◌,
  if◌then◌else◌,
}
use oss_agent_tools.AutoManage.Status.{codes}
use oss_agent_tools.Drift.Consolidator.{
  MemoryEntry, ConsolidationPlan, generate_consolidation_plan, gather, detect_merges,
}
use oss_agent_tools.Drift.Consolidator.Sorting.{ids}
use oss_agent_tools.Drift.Consolidator.Partition.{disposed, generate_consolidation_plan-partition}
use oss_agent_tools.Tests.Interviews.{whole}

abbrev memory : String → String → ℕ → String → MemoryEntry ℕ
memory id content salience timestamp = record {
  id = id;
  content = codes content;
  salience = salience;
  timestamp = timestamp;
}

abbrev memories : List (MemoryEntry ℕ)
memories =
    memory "m1" "the user likes short plain answers" 500 "new"
    ∷ memory "m2" "an old note" 100 "old"
    ∷ memory "m3" "the user likes plain answers" 800 "new"
    ∷ []

abbrev date_of : String → Option ℕ
date_of t = if t == "old" then some 0 else some 1000000000

abbrev plan : ConsolidationPlan
unfolding generate_consolidation_plan
plan = generate_consolidation_plan (λ t. t) whole date_of (λ n. "now") 1000000000 memories 2

-- The two alike are merged, the more salient one first.
merges_alike : disposed whole (λ t. t) plan ≡ "m2" ∷ "m3" ∷ "m1" ∷ []
unfolding plan generate_consolidation_plan detect_merges gather
merges_alike = refl

generate_consolidation_plan-partition_example :
    Distinct (disposed whole (λ t. t) plan)
    × ((k : String) → contains k (disposed whole (λ t. t) plan) ≡ contains k (ids memories))
unfolding plan
generate_consolidation_plan-partition_example =
    generate_consolidation_plan-partition whole (λ t. t) date_of (λ n. "now") 1000000000 memories 2
      (refl, (refl, (refl, tt)))
