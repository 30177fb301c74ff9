-- ===== src/Interview/Session/Repeated.antt =====
-- A dimension id that stands twice: a change reaches its first entry only, so that the interview is
-- never covered.
use oss_agent_tools.Prelude.{
  ℕ, ◌+◌, String, ◌≡◌, refl, ap, sym, ◌∙◌, ◌⊎◌, inl, inr, false, List, [], ◌∷◌, ◌==◌, string_key,
  find, Any, if_cases, arith,
}
use oss_agent_tools.Numbers.{Arithmetic}
use oss_agent_tools.Interview.{Cascade, RubricDimension, DimensionCoverage, InterviewState}
use oss_agent_tools.Interview.Coverage.{
  CoverageUpdate, change_first, is_settled, cascade_into, update_entry, apply_updates, cascade_all,
  cascades_of, apply_cascades, apply_coverage_updates, is_done, all_dimensions_covered,
}
use oss_agent_tools.Interview.Coverage.Justified.{add_signal-id}
use oss_agent_tools.AutoManage.Text.{Text}
use oss_agent_tools.Interview.Response.{ParsedResponse}
use oss_agent_tools.Interview.Session.{Interviewer, Setting, run, take_response}
use oss_agent_tools.Interview.Session.Invariant.{IsKept, EndsKept, IsInvariant, run-Keeps}

module _ {N : Type 0} where
  abbrev Occurs : DimensionCoverage N → List (DimensionCoverage N) → Type 0
  Occurs c cs = Any (λ d. d ≡ c) cs

  -- The entry stands in the list, behind another of the same id.
  abbrev pub IsRepeated : DimensionCoverage N → List (DimensionCoverage N) → Type 0
  IsRepeated c [] = ⊥
  IsRepeated c (d ∷ ds) = ((d.dimension_id ≡ c.dimension_id) × Occurs c ds) ⊎ IsRepeated c ds

  abbrev KeepsId : (DimensionCoverage N → DimensionCoverage N) → Type 0
  KeepsId f = (c : DimensionCoverage N) → (f c).dimension_id ≡ c.dimension_id

  change_first-Occurs :
      (id : String) (f : DimensionCoverage N → DimensionCoverage N) (c : DimensionCoverage N)
      (cs : List (DimensionCoverage N))
      → (c.dimension_id == id) ≡ false
      → Occurs c cs
      → Occurs c (change_first id f cs)
  unfolding change_first
  change_first-Occurs id f c [] n h = elim h [ ]
  change_first-Occurs id f c (d ∷ ds) n (inl e) = rw (ap (λ x. x.dimension_id == id) e ∙ n) (inl e)
  change_first-Occurs id f c (d ∷ ds) n (inr h) =
      if_cases (Occurs c) (d.dimension_id == id) _ _ (λ e. inr h)
        (λ e. inr (change_first-Occurs id f c ds n h))

  change_first-IsRepeated :
      (id : String) (f : DimensionCoverage N → DimensionCoverage N) (c : DimensionCoverage N)
      (cs : List (DimensionCoverage N))
      → KeepsId f
      → IsRepeated c cs
      → IsRepeated c (change_first id f cs)
  unfolding change_first
  change_first-IsRepeated id f c [] k h = elim h [ ]
  change_first-IsRepeated id f c (d ∷ ds) k (inl (same, h)) =
      if_cases (IsRepeated c) (d.dimension_id == id) _ _ (λ e. inl (k d ∙ same, h))
        (λ e. inl (same, change_first-Occurs id f c ds (ap (λ i. i == id) (sym same) ∙ e) h))
  change_first-IsRepeated id f c (d ∷ ds) k (inr r) =
      if_cases (IsRepeated c) (d.dimension_id == id) _ _ (λ e. inr r)
        (λ e. inr (change_first-IsRepeated id f c ds k r))

module _ {N : Type 0} (a : Arithmetic N) where
  cascade_into-KeepsId :
      (turn : ℕ) (from : String) (weight : N) → KeepsId (cascade_into a turn from weight)
  cascade_into-KeepsId turn from weight c =
      if_cases (λ (d : DimensionCoverage N). d.dimension_id ≡ c.dimension_id) (is_settled c.status)
        _ _ (λ e. refl) (λ e. refl)

  update_entry-KeepsId : (turn : ℕ) (u : CoverageUpdate N) → KeepsId (update_entry a turn u)
  update_entry-KeepsId turn u c =
      (add_signal-id a u.confidence_delta u.signal_source turn u.summary c).0

  apply_updates-IsRepeated :
      (turn : ℕ) (us : List (String × CoverageUpdate N)) (c : DimensionCoverage N)
      (cs : List (DimensionCoverage N))
      → IsRepeated c cs
      → IsRepeated c (apply_updates a turn us cs).0
  unfolding apply_updates
  apply_updates-IsRepeated turn [] c cs r = r
  apply_updates-IsRepeated turn ((id, u) ∷ us) c cs r =
      apply_updates-IsRepeated turn us c _
        (change_first-IsRepeated id _ c cs (update_entry-KeepsId turn u) r)

  cascade_all-IsRepeated :
      (turn : ℕ) (from : String) (ks : List (Cascade N)) (c : DimensionCoverage N)
      (cs : List (DimensionCoverage N))
      → IsRepeated c cs
      → IsRepeated c (cascade_all a turn from ks cs)
  unfolding cascade_all
  cascade_all-IsRepeated turn from [] c cs r = r
  cascade_all-IsRepeated turn from (k ∷ ks) c cs r =
      cascade_all-IsRepeated turn from ks c _
        (change_first-IsRepeated k.dimension_id _ c cs (cascade_into-KeepsId turn from k.weight) r)

  apply_cascades-IsRepeated :
      (turn : ℕ) (dimensions : List (RubricDimension N)) (resolved : List String)
      (c : DimensionCoverage N) (cs : List (DimensionCoverage N))
      → IsRepeated c cs
      → IsRepeated c (apply_cascades a turn dimensions resolved cs)
  unfolding apply_cascades
  apply_cascades-IsRepeated turn dimensions [] c cs r = r
  apply_cascades-IsRepeated turn dimensions (id ∷ ids) c cs r =
      apply_cascades-IsRepeated turn dimensions ids c _
        (cascade_all-IsRepeated turn id (cascades_of a (find (λ d. d.id == id) dimensions)) c cs r)

  Occurs-open :
      (c : DimensionCoverage N) (cs : List (DimensionCoverage N))
      → is_done a c ≡ false
      → Occurs c cs
      → all_dimensions_covered a cs ≡ false
  Occurs-open c [] o h = elim h [ ]
  Occurs-open c (d ∷ ds) o (inl e) = rw (ap (is_done a) e ∙ o) refl
  Occurs-open c (d ∷ ds) o (inr h) = ground (arith, Occurs-open c ds o h)

  IsRepeated-open :
      (c : DimensionCoverage N) (cs : List (DimensionCoverage N))
      → is_done a c ≡ false
      → IsRepeated c cs
      → all_dimensions_covered a cs ≡ false
  IsRepeated-open c [] o h = elim h [ ]
  IsRepeated-open c (d ∷ ds) o (inl (same, h)) = ground (arith, Occurs-open c ds o h)
  IsRepeated-open c (d ∷ ds) o (inr r) = ground (arith, IsRepeated-open c ds o r)

module _ {N S : Type 0} (o : Setting N S) (c : DimensionCoverage N) where
  -- The entry is repeated, and the dimensions are not all covered or skipped.
  abbrev pub IsBlocked : InterviewState N S → Type 0
  IsBlocked s =
      IsRepeated c s.dimension_coverage
      × (all_dimensions_covered o.arithmetic s.dimension_coverage ≡ false)

  module _ (open_entry : is_done o.arithmetic c ≡ false) where
    pub block : (s : InterviewState N S) → IsRepeated c s.dimension_coverage → IsBlocked s
    block s r = (r, IsRepeated-open o.arithmetic c s.dimension_coverage open_entry r)

    take_response-IsBlocked :
        (r : ParsedResponse N) (s : InterviewState N S)
        → IsBlocked s
        → IsBlocked (take_response o r s)
    unfolding take_response apply_coverage_updates
    take_response-IsBlocked r s (b, n) = block (take_response o r s) (
        apply_cascades-IsRepeated o.arithmetic (s.turn_count + 1) o.dimensions
          (apply_updates o.arithmetic (s.turn_count + 1) r.coverage_updates s.dimension_coverage).1
          c _
          (apply_updates-IsRepeated o.arithmetic (s.turn_count + 1) r.coverage_updates c
            s.dimension_coverage b))

    IsBlocked-IsInvariant : IsInvariant o IsBlocked
    IsBlocked-IsInvariant = record {
      keeps_input = λ text s h. h;
      keeps_response = take_response-IsBlocked;
      keeps_complete = λ s h. h;
      keeps_answers = λ answers s h. h;
    }

    -- Where an open entry stands behind another of the same id, a run neither changes it nor covers
    -- the dimensions, in any state that it saves or ends with.
    pub run-IsBlocked :
        (inputs : List Text) (i : Interviewer N S)
        → IsKept IsBlocked i
        → EndsKept IsBlocked (run o inputs i)
    run-IsBlocked inputs i k = run-Keeps o IsBlocked IsBlocked-IsInvariant inputs i k
