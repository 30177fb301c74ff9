-- ===== src/Drift/Consolidator/Sorting.antt =====
-- What sorting and filtering memories keep of their ids.
use oss_agent_tools.Prelude.{
  String, ◌≡◌, refl, ap, ◌∙◌, Bool, true, false, not, ◌&&◌, ◌||◌, List, [], ◌∷◌, map, filter,
  string_key, contains, Distinct, ◌==◌, if_cases, Bool-cases, inl, inr, arith,
}
use oss_agent_tools.Numbers.{Arithmetic}
use oss_agent_tools.AutoManage.Text.{Text}
use oss_agent_tools.Drift.Consolidator.{MemoryEntry, insert_by_salience, sort_by_salience}

module _ {N : Type 0} where
  abbrev pub ids : List (MemoryEntry N) → List String
  ids ms = map (λ m. m.id) ms

  contains-filter :
      (k : String) (p : MemoryEntry N → Bool) (ms : List (MemoryEntry N))
      → contains k (ids (filter p ms)) ≡ true
      → contains k (ids ms) ≡ true
  contains-filter k p [] h = h
  contains-filter k p (m ∷ ms) h = elim (Bool-cases (p m)) [
    | inl e ↦ ground (arith, e, h, contains-filter k p ms)
    | inr e ↦ ground (arith, e, h, contains-filter k p ms)
  ]

  pub filter-Distinct :
      (p : MemoryEntry N → Bool) (ms : List (MemoryEntry N))
      → Distinct (ids ms)
      → Distinct (ids (filter p ms))
  filter-Distinct p [] d = d
  filter-Distinct p (m ∷ ms) (n, d) =
      if_cases (λ xs. Distinct (ids xs)) (p m) _ _
        (λ e. (ground (arith, n, contains-filter m.id p ms), filter-Distinct p ms d))
        (λ e. filter-Distinct p ms d)

  -- The memories of a test and the others have no id in common, and all the ids.
  pub filter-apart :
      (k : String) (p : MemoryEntry N → Bool) (ms : List (MemoryEntry N))
      → Distinct (ids ms)
      → contains k (ids (filter p ms)) ≡ true
      → contains k (ids (filter (λ m. not (p m)) ms)) ≡ false
  filter-apart k p [] d h = absurd (ground (arith, h))
  filter-apart k p (m ∷ ms) (n, d) h = elim (Bool-cases (p m)) [
    | inl e ↦ ground (
      arith,
      e,
      h,
      n,
      filter-apart k p ms d,
      string_key.same_iff m.id k,
      contains-filter k (λ m. not (p m)) ms,
    )
    | inr e ↦
        ground (
          arith,
          e,
          h,
          n,
          filter-apart k p ms d,
          string_key.same_iff m.id k,
          contains-filter k p ms,
        )
  ]

  pub filter-cover :
      (k : String) (p : MemoryEntry N → Bool) (ms : List (MemoryEntry N))
      → contains k (ids ms)
        ≡ (contains k (ids (filter p ms)) || contains k (ids (filter (λ m. not (p m)) ms)))
  filter-cover k p [] = refl
  filter-cover k p (m ∷ ms) = elim (Bool-cases (p m)) [
    | inl e ↦ rw e (ground (arith, filter-cover k p ms))
    | inr e ↦ rw e (ground (arith, filter-cover k p ms))
  ]

  pub contains-unmerged :
      (k : String) (merged : List String) (ms : List (MemoryEntry N))
      → contains k (ids (filter (λ m. not (contains m.id merged)) ms))
        ≡ (contains k (ids ms) && not (contains k merged))
  contains-unmerged k merged [] = refl
  contains-unmerged k merged (m ∷ ms) = elim (Bool-cases (contains m.id merged)) [
    | inl e ↦ rw e (ground (arith, e, contains-unmerged k merged ms, string_key.same_iff m.id k))
    | inr e ↦ rw e (ground (arith, e, contains-unmerged k merged ms, string_key.same_iff m.id k))
  ]

module _ {N : Type 0} (a : Arithmetic N) (lower : Text → Text) where
  contains-insert :
      (k : String) (m : MemoryEntry N) (ms : List (MemoryEntry N))
      → contains k (ids (insert_by_salience lower a m ms)) ≡ (m.id == k || contains k (ids ms))
  contains-insert k m [] = refl
  contains-insert k m (n ∷ ns) = elim (Bool-cases (a.lt m.salience n.salience)) [
    | inl e ↦ rw e (ground (arith, contains-insert k m ns))
    | inr e ↦ rw e refl
  ]

  insert-Distinct :
      (m : MemoryEntry N) (ms : List (MemoryEntry N))
      → contains m.id (ids ms) ≡ false
      → Distinct (ids ms)
      → Distinct (ids (insert_by_salience lower a m ms))
  insert-Distinct m [] h d = (refl, tt)
  insert-Distinct m (n ∷ ns) h (f, d) =
      if_cases (λ xs. Distinct (ids xs)) (a.lt m.salience n.salience) _ _
        (λ e. (
          ground (
            arith,
            contains-insert n.id m ns,
            h,
            f,
            string_key.same_iff m.id n.id,
            string_key.same_iff n.id m.id,
          ),
          insert-Distinct m ns (ground (arith, h)) d,
        ))
        (λ e. (h, (f, d)))

  pub contains-sort :
      (k : String) (ms : List (MemoryEntry N))
      → contains k (ids (sort_by_salience lower a ms)) ≡ contains k (ids ms)
  contains-sort k [] = refl
  contains-sort k (m ∷ ms) =
      contains-insert k m (sort_by_salience lower a ms)
      ∙ ap (λ b. m.id == k || b) (contains-sort k ms)

  pub sort-Distinct :
      (ms : List (MemoryEntry N)) → Distinct (ids ms) → Distinct (ids (sort_by_salience lower a ms))
  sort-Distinct [] d = d
  sort-Distinct (m ∷ ms) (n, d) =
      insert-Distinct m (sort_by_salience lower a ms) (contains-sort m.id ms ∙ n)
        (sort-Distinct ms d)
