-- ===== src/Interview/Coverage/Justified.antt =====
-- A dimension is covered only where its confidence has reached the threshold, and its entry keeps
-- its place: the updates and the cascades keep both.
use oss_agent_tools.Prelude.{
  ℕ, String, ◌≡◌, refl, ap, sym, ◌∙◌, Bool, true, false, not, ◌&&◌, Option, none, some, List, [],
  ◌∷◌, ◌==◌, string_key, map, find, All, or_else, concat, arith, Bool-cases, Option-cases, inl, inr,
}
use oss_agent_tools.Numbers.{Arithmetic, IsOrdered}
use oss_agent_tools.Interview.{
  Cascade, RubricDimension, CoverageStatus, not_started, in_progress, covered, skipped,
  DimensionCoverage,
}
use oss_agent_tools.Interview.Coverage.{
  CoverageUpdate, change_first, is_settled, is_source, reaches, threshold_of, is_resolved,
  add_signal, add_weight, status_from, with_signals, update_entry, apply_updates, cascaded_status,
  cascade_into, cascade_all, cascades_of, apply_cascades, apply_coverage_updates,
}

abbrev is_covered : CoverageStatus → Bool
is_covered covered = true
is_covered skipped = false
is_covered in_progress = false
is_covered not_started = false

abbrev pub dimension_ids : {N : Type 0} → List (DimensionCoverage N) → List String
dimension_ids cs = map (λ c. c.dimension_id) cs

module _ {N : Type 0} (a : Arithmetic N) where
  -- A covered dimension is resolved.
  abbrev pub IsJustified : DimensionCoverage N → Type 0
  IsJustified c = is_covered c.status ≡ true → is_resolved a c ≡ true

  abbrev Keeps : (DimensionCoverage N → DimensionCoverage N) → Type 0
  Keeps f =
      (c : DimensionCoverage N)
      → IsJustified c
      → IsJustified (f c) × ((f c).dimension_id ≡ c.dimension_id)

  change_first-Keeps :
      (id : String) (f : DimensionCoverage N → DimensionCoverage N)
      (cs : List (DimensionCoverage N))
      → Keeps f
      → All IsJustified cs
      → All IsJustified (change_first id f cs)
        × (dimension_ids (change_first id f cs) ≡ dimension_ids cs)
  unfolding change_first
  change_first-Keeps id f [] k h = (tt, refl)
  change_first-Keeps id f (c ∷ cs) k (h, hs) = elim (Bool-cases (c.dimension_id == id)) [
    | inl e ↦ rw e (((k c h).0, hs), ap (λ i. i ∷ dimension_ids cs) (k c h).1)
    | inr e ↦
        let (js, ids) = change_first-Keeps id f cs k hs in
        rw e ((h, js), ap (◌∷◌ c.dimension_id) ids)
  ]

  -- A status that becomes covered does so for a reason.
  cascaded_status-covered :
      (c : DimensionCoverage N)
      → is_covered c.status ≡ false
      → is_covered (cascaded_status a c) ≡ true
      → is_resolved a c ≡ true
  cascaded_status-covered c n h = elim (Bool-cases (is_resolved a c)) [
    | inl e ↦ e
    | inr e ↦ absurd (ground (arith, e))
  ]

  status_from-covered :
      (c : DimensionCoverage N)
      → IsJustified c
      → is_covered (status_from a c) ≡ true
      → is_resolved a c ≡ true
  status_from-covered c j h = elim (Bool-cases (is_resolved a c)) [
    | inl e ↦ e
    | inr e ↦ ground (arith, e)
  ]

  settled-covered : (s : CoverageStatus) → is_settled s ≡ false → is_covered s ≡ false
  settled-covered s h = ground arith

  cascade_into-Keeps :
      (turn : ℕ) (from : String) (weight : N) → Keeps (cascade_into a turn from weight)
  cascade_into-Keeps turn from weight c h = elim (Bool-cases (is_settled c.status)) [
    | inl e ↦ rw e (h, refl)
    | inr e ↦ rw e (
      cascaded_status-covered
          (add_weight a weight "inferred" turn (some (concat "Cascaded from " from)) c)
          (settled-covered c.status e),
      refl,
    )
  ]

  cascade_all-Keeps :
      (turn : ℕ) (from : String) (ks : List (Cascade N)) (cs : List (DimensionCoverage N))
      → All IsJustified cs
      → All IsJustified (cascade_all a turn from ks cs)
        × (dimension_ids (cascade_all a turn from ks cs) ≡ dimension_ids cs)
  unfolding cascade_all
  cascade_all-Keeps turn from [] cs h = (h, refl)
  cascade_all-Keeps turn from (k ∷ ks) cs h =
      let (j, ids) =
        change_first-Keeps k.dimension_id _ cs (cascade_into-Keeps turn from k.weight) h in
      let (j', ids') = cascade_all-Keeps turn from ks _ j in (j', ids' ∙ ids)

  apply_cascades-Keeps :
      (turn : ℕ) (dimensions : List (RubricDimension N)) (resolved : List String)
      (cs : List (DimensionCoverage N))
      → All IsJustified cs
      → All IsJustified (apply_cascades a turn dimensions resolved cs)
        × (dimension_ids (apply_cascades a turn dimensions resolved cs) ≡ dimension_ids cs)
  unfolding apply_cascades
  apply_cascades-Keeps turn dimensions [] cs h = (h, refl)
  apply_cascades-Keeps turn dimensions (id ∷ resolved) cs h =
      let (j, ids) =
        cascade_all-Keeps turn id (cascades_of a (find (λ d. d.id == id) dimensions)) cs h in
      let (j', ids') = apply_cascades-Keeps turn dimensions resolved _ j in (j', ids' ∙ ids)

  pub add_signal-id :
      (delta : Option N) (source : Option String) (turn : ℕ) (summary : Option String)
      (c : DimensionCoverage N)
      → let d = add_signal a delta source turn summary c in
        (d.dimension_id ≡ c.dimension_id) × (d.status ≡ c.status)
  add_signal-id none source turn summary c = (refl, refl)
  add_signal-id (some d) source turn summary c =
      elim (Bool-cases (a.lt (a.thousandths 0) d && not (is_source "anti" source))) [
        | inl e ↦ rw e (refl, refl)
        | inr e ↦ rw e (refl, refl)
      ]

  module _ (laws : IsOrdered a) where
    add_weight-resolved :
        (d : N) (source : String) (turn : ℕ) (excerpt : Option String) (c : DimensionCoverage N)
        → a.lt (a.thousandths 0) d ≡ true
        → is_resolved a c ≡ true
        → is_resolved a (add_weight a d source turn excerpt c) ≡ true
    add_weight-resolved d source turn excerpt c p h = elim (Option-cases c.confidence) [
      | inl e ↦ absurd (ground (arith, ap (λ o. reaches a o (threshold_of a c)) e, h))
      | inr (x, e) ↦ rw e (
          laws.ge_trans (a.plus x d) x (threshold_of a c) (laws.plus_grows x d p)
            (ap (λ o. reaches a o (threshold_of a c)) (sym e) ∙ h))
    ]

    add_signal-resolved :
        (delta : Option N) (source : Option String) (turn : ℕ) (summary : Option String)
        (c : DimensionCoverage N)
        → is_resolved a c ≡ true
        → is_resolved a (add_signal a delta source turn summary c) ≡ true
    add_signal-resolved none source turn summary c h = h
    add_signal-resolved (some d) source turn summary c h =
        elim (Bool-cases (a.lt (a.thousandths 0) d && not (is_source "anti" source))) [
          | inl e ↦ rw e (
              add_weight-resolved d (or_else source "explicit") turn summary c (ground (arith, e))
                h)
          | inr e ↦ rw e h
        ]

    update_entry-Keeps : (turn : ℕ) (u : CoverageUpdate N) → Keeps (update_entry a turn u)
    update_entry-Keeps turn u c j =
        let (id, same) = add_signal-id u.confidence_delta u.signal_source turn u.summary c in
        (
          λ h.
              status_from-covered (with_signals a turn u c)
                (λ k.
                  add_signal-resolved u.confidence_delta u.signal_source turn u.summary c
                    (j (ap is_covered (sym same) ∙ k)))
                (ground (arith, h)),
          id,
        )

    apply_updates-Keeps :
        (turn : ℕ) (us : List (String × CoverageUpdate N)) (cs : List (DimensionCoverage N))
        → All IsJustified cs
        → All IsJustified (apply_updates a turn us cs).0
          × (dimension_ids (apply_updates a turn us cs).0 ≡ dimension_ids cs)
    unfolding apply_updates
    apply_updates-Keeps turn [] cs h = (h, refl)
    apply_updates-Keeps turn ((id, u) ∷ us) cs h =
        let (j, ids) = change_first-Keeps id _ cs (update_entry-Keeps turn u) h in
        let (j', ids') = apply_updates-Keeps turn us _ j in (j', ids' ∙ ids)

    -- The updates of a reply, with their cascades, cover a dimension only where its confidence has
    -- reached its threshold, and keep the dimensions and their order.
    pub apply_coverage_updates-Keeps :
        (turn : ℕ) (dimensions : List (RubricDimension N)) (us : List (String × CoverageUpdate N))
        (cs : List (DimensionCoverage N))
        → All IsJustified cs
        → All IsJustified (apply_coverage_updates a turn dimensions us cs)
          × (dimension_ids (apply_coverage_updates a turn dimensions us cs) ≡ dimension_ids cs)
    unfolding apply_coverage_updates
    apply_coverage_updates-Keeps turn dimensions us cs h =
        let (j, ids) = apply_updates-Keeps turn us cs h in
        let (j', ids') = apply_cascades-Keeps turn dimensions (apply_updates a turn us cs).1 _ j in
        (j', ids' ∙ ids)
