-- ===== src/Drift/Consolidator.antt =====
-- `MemoryConsolidator` of TasteKit/tastekit/packages/core/drift/consolidator.ts. `lower` is
-- `toLowerCase`, `date` the time of a timestamp, none where it is invalid.
pub mod Sorting
pub mod Groups
pub mod Partition
use oss_agent_tools.Prelude.{
  ℕ, ◌+◌, ◌-◌, ◌*◌, String, Bool, true, false, not, ◌&&◌, ◌||◌, Option, none, some, List, [], ◌∷◌,
  ◌++◌, map, filter, length, leb, ltb, nat_eq, text_key, string_key, contains, add, if◌then◌else◌,
}
use oss_agent_tools.Numbers.{Arithmetic}
use oss_agent_tools.AutoManage.Text.{Text, is_space, is_empty, push_first}
use oss_agent_tools.AutoManage.Status.{codes}

pub record MemoryEntry (N : Type 0) : Type 0 where
  pub id : String
  pub content : Text
  pub salience : N
  pub timestamp : String

pub record Merge : Type 0 where
  pub source_ids : List String
  pub merged_content : Text

pub record ConsolidationPlan : Type 0 where
  pub timestamp : String
  pub memories_to_keep : List String
  pub memories_to_prune : List String
  pub memories_to_merge : List Merge

-- `split(/\s+/)`, with empty words also within a run of blanks, which the filter of `tokenize`
-- drops as it does the others.
abbrev split_words : Text → List Text
split_words [] = [] ∷ []
split_words (c ∷ s) =
    let rest = split_words s in if is_space c then [] ∷ rest else push_first c rest

-- `new Set(words)`.
abbrev as_set : List Text → List Text → List Text
as_set seen [] = seen
as_set seen (w ∷ ws) = as_set (add w seen) ws

-- `join`.
abbrev join_texts : Text → List Text → Text
join_texts between [] = []
join_texts between (t ∷ []) = t
join_texts between (t ∷ u ∷ ts) = t ++ (between ++ join_texts between (u ∷ ts))

module _ (lower : Text → Text) where
  abbrev tokenize : Text → List Text
  unfolding is_space
  tokenize text = filter (λ w. ltb 2 (length w)) (split_words (lower text))

  -- `jaccardSimilarity(a, b) >= 0.6`: the quotient of the counts, rounded, is at least the literal
  -- where three fifths of the union are in the intersection.
  abbrev similar_sets : List Text → List Text → Bool
  similar_sets xs ys =
      let common = length (filter (λ w. contains w ys) xs) in
      let union = (length xs + length ys) - common in
      if nat_eq (length xs) 0 && nat_eq (length ys) 0
      then true
      else if nat_eq (length xs) 0 || nat_eq (length ys) 0
      then false
      else leb (3 * union) (5 * common)

  abbrev pub similar : Text → Text → Bool
  unfolding tokenize
  similar a b = similar_sets (as_set [] (tokenize a)) (as_set [] (tokenize b))

  abbrev extract_unique_content : Text → Text → Text
  unfolding tokenize
  extract_unique_content source primary =
      join_texts (codes " ")
        (filter (λ w. not (contains w (as_set [] (tokenize primary)))) (tokenize source))

  module _ {N : Type 0} (a : Arithmetic N) where
    -- The stable sort by falling salience.
    abbrev pub insert_by_salience : MemoryEntry N → List (MemoryEntry N) → List (MemoryEntry N)
    insert_by_salience m [] = m ∷ []
    insert_by_salience m (n ∷ ns) =
        let rest = insert_by_salience m ns in
        if a.lt m.salience n.salience then n ∷ rest else m ∷ n ∷ ns

    abbrev pub sort_by_salience : List (MemoryEntry N) → List (MemoryEntry N)
    sort_by_salience [] = []
    sort_by_salience (m ∷ ms) = insert_by_salience m (sort_by_salience ms)

    abbrev with_details : Text → List Text → Text
    with_details content [] = content
    with_details content (d ∷ ds) =
        content ++ (codes "\n\nAdditional context: " ++ join_texts (codes "; ") (d ∷ ds))

    abbrev merged_of : List (MemoryEntry N) → Text
    unfolding extract_unique_content
    merged_of [] = []
    merged_of (primary ∷ others) = with_details primary.content (
        filter (λ d. not (is_empty d))
          (map (λ m. extract_unique_content m.content primary.content) others))

    abbrev pub merge_group : List (MemoryEntry N) → Merge
    unfolding merged_of
    merge_group group = record {
      source_ids = map (λ m. m.id) (sort_by_salience group);
      merged_content = merged_of (sort_by_salience group);
    }

    -- The inner loop: the memories like the first one that are not merged yet, and the merged ids.
    unfoldable pub gather :
        List String → Text → List (MemoryEntry N) → List (MemoryEntry N) × List String
    unfolding similar
    gather merged content [] = ([], merged)
    gather merged content (m ∷ ms) =
        let joins = not (contains m.id merged) && similar content m.content in
        let (group, merged') = gather (if joins then add m.id merged else merged) content ms in
        (if joins then m ∷ group else group, merged')

    -- What a group adds to the merges, and to the merged ids.
    abbrev pub merges_of : MemoryEntry N → List (MemoryEntry N) → List Merge
    unfolding merge_group
    merges_of m [] = []
    merges_of m (n ∷ group) = merge_group (m ∷ n ∷ group) ∷ []

    abbrev pub merged_with : MemoryEntry N → List (MemoryEntry N) → List String → List String
    merged_with m [] merged = merged
    merged_with m (n ∷ group) merged = add m.id merged

    -- One round of the outer loop.
    abbrev pub round : List String → MemoryEntry N → List (MemoryEntry N) → List Merge × List String
    unfolding gather merges_of
    round merged m ms =
        let (group, merged') = gather merged m.content ms in
        if contains m.id merged
        then ([], merged)
        else (merges_of m group, merged_with m group merged')

    unfoldable pub detect_merges : List String → List (MemoryEntry N) → List Merge
    unfolding round
    detect_merges merged [] = []
    detect_merges merged (m ∷ ms) =
        let (found, merged') = round merged m ms in found ++ detect_merges merged' ms

    abbrev pub is_kept : (String → Option ℕ) → ℕ → ℕ → MemoryEntry N → Bool
    is_kept date now days m = is_recent (date m.timestamp) || a.lt (a.thousandths 700) m.salience
      where
        is_recent : Option ℕ → Bool
        is_recent none = false
        is_recent (some t) = leb now (t + days * 86400000)

    abbrev pub sources : List Merge → List String
    sources [] = []
    sources (g ∷ gs) = g.source_ids ++ sources gs

    unfoldable pub generate_consolidation_plan :
        (String → Option ℕ) → (ℕ → String) → ℕ → List (MemoryEntry N) → ℕ → ConsolidationPlan
    unfolding detect_merges
    generate_consolidation_plan date iso now memories days =
        let to_keep = filter (is_kept date now days) memories in
        let merges = detect_merges [] to_keep in
        record {
          timestamp = iso now;
          memories_to_keep =
              map (λ m. m.id) (filter (λ m. not (contains m.id (sources merges))) to_keep);
          memories_to_prune =
              map (λ m. m.id) (filter (λ m. not (is_kept date now days m)) memories);
          memories_to_merge = merges;
        }
