-- ===== src/Drift/Consolidator/Groups.antt =====
-- What one round of `detectMerges` merges.
use oss_agent_tools.Prelude.{
  String, ◌≡◌, refl, sym, ap, subst, ◌⊎◌, true, false, not, ◌&&◌, ◌||◌, List, [], ◌∷◌, string_key,
  contains, add, append-nil, contains-append, contains-add, beq_refl, Distinct, ◌==◌, Bool-cases,
  inl, inr, arith,
}
use oss_agent_tools.Numbers.{Arithmetic}
use oss_agent_tools.AutoManage.Text.{Text}
use oss_agent_tools.Drift.Consolidator.{
  MemoryEntry, Merge, similar, sort_by_salience, gather, merges_of, merged_with, round, sources,
}
use oss_agent_tools.Drift.Consolidator.Sorting.{ids, contains-sort, sort-Distinct}

module _ {N : Type 0} (a : Arithmetic N) (lower : Text → Text) where
  -- What the inner loop returns: the merged ids grow by those of the group, which are of the list,
  -- were not merged, and are distinct.
  gather-merged :
      (k : String) (merged : List String) (content : Text) (ms : List (MemoryEntry N))
      → contains k (gather lower a merged content ms).1
        ≡ (contains k merged || contains k (ids (gather lower a merged content ms).0))
  unfolding gather
  gather-merged k merged content [] = ground arith
  gather-merged k merged content (m ∷ ms) =
      elim (Bool-cases (not (contains m.id merged) && similar lower content m.content)) [
        | inl e ↦ rw e (
            ground
              (arith, gather-merged k (add m.id merged) content ms, contains-add m.id k merged))
        | inr e ↦ rw e (gather-merged k merged content ms)
      ]

  -- The group with the memory, where it joins.
  gather-ids :
      (merged : List String) (content : Text) (m : MemoryEntry N) (ms : List (MemoryEntry N))
      → ((not (contains m.id merged) && similar lower content m.content ≡ true)
          × (ids (gather lower a merged content (m ∷ ms)).0
              ≡ m.id ∷ ids (gather lower a (add m.id merged) content ms).0))
        ⊎ (ids (gather lower a merged content (m ∷ ms)).0
            ≡ ids (gather lower a merged content ms).0)
  unfolding gather
  gather-ids merged content m ms =
      elim (Bool-cases (not (contains m.id merged) && similar lower content m.content)) [
        | inl e ↦ rw e (inl (refl, refl))
        | inr e ↦ rw e (inr refl)
      ]

  gather-new :
      (k : String) (merged : List String) (content : Text) (ms : List (MemoryEntry N))
      → contains k (ids (gather lower a merged content ms).0) ≡ true
      → (contains k (ids ms) ≡ true) × (contains k merged ≡ false)
  unfolding gather
  gather-new k merged content [] h = absurd (ground (arith, h))
  gather-new k merged content (m ∷ ms) h = elim (gather-ids merged content m ms) [
    | inl (j, e) ↦ ground (
      arith,
      j,
      ap (contains k) e,
      h,
      gather-new k (add m.id merged) content ms,
      contains-add m.id k merged,
      string_key.same_iff m.id k,
    )
    | inr e ↦ ground (arith, ap (contains k) e, h, gather-new k merged content ms)
  ]

  gather-Distinct :
      (merged : List String) (content : Text) (ms : List (MemoryEntry N))
      → Distinct (ids (gather lower a merged content ms).0)
  unfolding gather
  gather-Distinct merged content [] = tt
  gather-Distinct merged content (m ∷ ms) = elim (gather-ids merged content m ms) [
    | inl (j, e) ↦ subst Distinct (sym e) (
      ground (
        arith,
        gather-new m.id (add m.id merged) content ms,
        contains-add m.id m.id merged,
        beq_refl m.id,
      ),
      gather-Distinct (add m.id merged) content ms,
    )
    | inr e ↦ subst Distinct (sym e) (gather-Distinct merged content ms)
  ]

  -- The merge of a memory with its group.
  contains-merges_of :
      (k : String) (m : MemoryEntry N) (group : List (MemoryEntry N))
      → contains k (sources lower a (merges_of lower a m group)) ≡ true
      → (m.id == k || contains k (ids group)) ≡ true
  unfolding merges_of
  contains-merges_of k m [] h = absurd (ground (arith, h))
  contains-merges_of k m (n ∷ group) h = ground (
    arith,
    h,
    contains-sort a lower k (m ∷ n ∷ group),
    contains-append k (ids (sort_by_salience lower a (m ∷ n ∷ group))) [],
  )

  merges_of-Distinct :
      (m : MemoryEntry N) (group : List (MemoryEntry N))
      → contains m.id (ids group) ≡ false
      → Distinct (ids group)
      → Distinct (sources lower a (merges_of lower a m group))
  unfolding merges_of
  merges_of-Distinct m [] h d = tt
  merges_of-Distinct m (n ∷ group) h d =
      subst Distinct (sym (append-nil (ids (sort_by_salience lower a (m ∷ n ∷ group)))))
        (sort-Distinct a lower (m ∷ n ∷ group) (h, d))

  contains-merged_with :
      (k : String) (m : MemoryEntry N) (group : List (MemoryEntry N)) (merged : List String)
      → (contains k (ids group) ≡ true → contains k merged ≡ true)
      → (contains k merged ≡ true → contains k (merged_with lower a m group merged) ≡ true)
        × (contains k (sources lower a (merges_of lower a m group)) ≡ true
            → contains k (merged_with lower a m group merged) ≡ true)
  unfolding merges_of
  contains-merged_with k m [] merged h = (λ c. c, λ c. absurd (ground (arith, c)))
  contains-merged_with k m (n ∷ group) merged h = (
    λ c. ground (arith, c, contains-add m.id k merged),
    λ c. ground (arith, h, contains-merges_of k m (n ∷ group) c, contains-add m.id k merged),
  )

  -- What one round merges is of the list and was not merged, is distinct, and is merged after it.
  pub record RoundOf (merged : List String) (m : MemoryEntry N) (ms : List (MemoryEntry N))
      (found : List Merge) (merged' : List String) : Type 0 where
    pub new :
        (k : String)
        → contains k (sources lower a found) ≡ true
        → (contains k (ids (m ∷ ms)) ≡ true) × (contains k merged ≡ false)
    pub once : Distinct (sources lower a found)
    pub marked :
        (k : String) → contains k (sources lower a found) ≡ true → contains k merged' ≡ true
    pub grown : (k : String) → contains k merged ≡ true → contains k merged' ≡ true

  pub round-RoundOf :
      (merged : List String) (m : MemoryEntry N) (ms : List (MemoryEntry N))
      → contains m.id (ids ms) ≡ false
      → RoundOf merged m ms (round lower a merged m ms).0 (round lower a merged m ms).1
  unfolding round
  round-RoundOf merged m ms n = elim (Bool-cases (contains m.id merged)) [
    | inl e ↦ rw e (record {
      new = λ k h. absurd (ground (arith, h));
      once = tt;
      marked = λ k h. absurd (ground (arith, h));
      grown = λ k h. h;
    })
    | inr e ↦ rw e (record {
      new = λ k h. ground (
        arith,
        contains-merges_of k m (gather lower a merged m.content ms).0 h,
        new k,
        e,
        string_key.same_iff m.id k,
      );
      once =
          merges_of-Distinct m (gather lower a merged m.content ms).0 (ground (arith, new m.id, n))
            (gather-Distinct merged m.content ms);
      marked = λ k h.
          (contains-merged_with k m (gather lower a merged m.content ms).0
              (gather lower a merged m.content ms).1 (gathered k)).1
            h;
      grown = λ k h.
          (contains-merged_with k m (gather lower a merged m.content ms).0
              (gather lower a merged m.content ms).1 (gathered k)).0
            (ground (arith, gather-merged k merged m.content ms, h));
    })
  ]
    where
      new :
          (k : String)
          → contains k (ids (gather lower a merged m.content ms).0) ≡ true
          → (contains k (ids ms) ≡ true) × (contains k merged ≡ false)
      new k = gather-new k merged m.content ms

      gathered :
          (k : String)
          → contains k (ids (gather lower a merged m.content ms).0) ≡ true
          → contains k (gather lower a merged m.content ms).1 ≡ true
      gathered k h = ground (arith, gather-merged k merged m.content ms, h)
