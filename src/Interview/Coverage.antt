-- ===== src/Interview/Coverage.antt =====
-- `applyCoverageUpdates`, `applyCascades` and `allDimensionsCovered` of interviewer.ts. A change of
-- the entry that `find` returns is a change of the first entry with that id.
pub mod Justified
use oss_agent_tools.Prelude.{
  ℕ, String, Bool, true, false, not, ◌&&◌, ◌||◌, Option, none, some, List, [], ◌∷◌, ◌++◌, ◌==◌,
  string_key, find, all, length, ltb, or_else, if◌then◌else◌, concat,
}
use oss_agent_tools.Numbers.{Arithmetic, at_least}
use oss_agent_tools.Trace.{truthy}
use oss_agent_tools.Interview.{
  Cascade, RubricDimension, CoverageStatus, not_started, in_progress, covered, skipped, Signal,
  DimensionCoverage,
}

-- What the model reports about one dimension.
pub record CoverageUpdate (N : Type 0) : Type 0 where
  pub status : Option String
  pub summary : Option String
  pub extracted_facts : Option (List String)
  pub relevant_turns : List ℕ
  pub confidence_delta : Option N
  pub signal_source : Option String
  pub anti_signals : Option (List String)

-- The first entry of the dimension is changed, where there is one.
unfoldable pub change_first :
    {N : Type 0}
    → String
    → (DimensionCoverage N → DimensionCoverage N)
    → List (DimensionCoverage N)
    → List (DimensionCoverage N)
change_first id f [] = []
change_first id f (c ∷ cs) = if c.dimension_id == id then f c ∷ cs else c ∷ change_first id f cs

abbrev pub is_settled : CoverageStatus → Bool
is_settled covered = true
is_settled skipped = true
is_settled in_progress = false
is_settled not_started = false

abbrev is_new : CoverageStatus → Bool
is_new not_started = true
is_new in_progress = false
is_new covered = false
is_new skipped = false

abbrev is_source : String → Option String → Bool
is_source s none = false
is_source s (some t) = t == s

-- `if (a && Array.isArray(a) && a.length > 0)`, and what is appended then.
abbrev append_some : Option (List String) → Option (List String) → Option (List String)
append_some known none = known
append_some known (some []) = known
append_some known (some (t ∷ ts)) = some (or_else known [] ++ t ∷ ts)

module _ {N : Type 0} (a : Arithmetic N) where
  abbrev pub threshold_of : DimensionCoverage N → N
  threshold_of c = or_else c.confidence_threshold (a.thousandths 1500)

  -- `confidence >= n`; a missing confidence is at least nothing.
  abbrev pub reaches : Option N → N → Bool
  reaches none n = false
  reaches (some x) n = at_least a x n

  abbrev pub is_resolved : DimensionCoverage N → Bool
  is_resolved c = reaches c.confidence (threshold_of c)

  abbrev pub add_weight : N → String → ℕ → Option String → DimensionCoverage N → DimensionCoverage N
  add_weight delta source turn excerpt c = record c {
    signals = some (
        or_else c.signals []
        ++ record { weight = delta; source = source; turn_number = turn; excerpt = excerpt } ∷ []);
    confidence = some (a.plus (or_else c.confidence (a.thousandths 0)) delta);
  }

  -- A positive delta, unless it is against the dimension.
  abbrev pub add_signal :
      Option N → Option String → ℕ → Option String → DimensionCoverage N → DimensionCoverage N
  add_signal none source turn summary c = c
  add_signal (some delta) source turn summary c =
      if a.lt (a.thousandths 0) delta && not (is_source "anti" source)
      then add_weight delta (or_else source "explicit") turn summary c
      else c

  abbrev pub status_from : DimensionCoverage N → CoverageStatus
  status_from c =
      if is_resolved c
      then covered
      else if reaches c.confidence (a.thousandths 300)
      then in_progress
      else c.status

  -- The entry after its signals, on which the status is decided.
  abbrev pub with_signals : ℕ → CoverageUpdate N → DimensionCoverage N → DimensionCoverage N
  with_signals turn u c =
      let s = add_signal u.confidence_delta u.signal_source turn u.summary c in
      record s { anti_signals = append_some s.anti_signals u.anti_signals }

  abbrev pub with_status : CoverageUpdate N → DimensionCoverage N → DimensionCoverage N
  with_status u c = record c {
    status = if is_source "skipped" u.status then skipped else status_from c;
    summary = if truthy u.summary then u.summary else c.summary;
    extracted_facts = elim u.extracted_facts [ none ↦ c.extracted_facts | some fs ↦ some fs ];
    relevant_turns = c.relevant_turns ++ u.relevant_turns;
  }

  abbrev pub update_entry : ℕ → CoverageUpdate N → DimensionCoverage N → DimensionCoverage N
  update_entry turn u c = with_status u (with_signals turn u c)

  abbrev find_entry : String → List (DimensionCoverage N) → Option (DimensionCoverage N)
  find_entry id cs = find (λ c. c.dimension_id == id) cs

  -- `resolvedThisTurn` gets the dimension if the entry, with its new signals, is resolved.
  abbrev resolved_by : ℕ → CoverageUpdate N → String → Option (DimensionCoverage N) → List String
  resolved_by turn u id none = []
  resolved_by turn u id (some c) = if is_resolved (with_signals turn u c) then id ∷ [] else []

  -- The entries and the dimensions resolved, after the updates.
  unfoldable pub apply_updates :
      ℕ
      → List (String × CoverageUpdate N)
      → List (DimensionCoverage N)
      → List (DimensionCoverage N) × List String
  unfolding change_first
  apply_updates turn [] cs = (cs, [])
  apply_updates turn ((id, u) ∷ us) cs =
      let (cs', resolved) = apply_updates turn us (change_first id (update_entry turn u) cs) in
      (cs', resolved_by turn u id (find_entry id cs) ++ resolved)

  abbrev pub cascaded_status : DimensionCoverage N → CoverageStatus
  cascaded_status c =
      if is_resolved c
      then covered
      else if reaches c.confidence (a.thousandths 300) && is_new c.status
      then in_progress
      else c.status

  -- A cascade leaves alone what is covered or skipped.
  abbrev pub cascade_into : ℕ → String → N → DimensionCoverage N → DimensionCoverage N
  cascade_into turn from weight c =
      if is_settled c.status
      then c
      else (let c' = add_weight weight "inferred" turn (some (concat "Cascaded from " from)) c in
          record c' { status = cascaded_status c' })

  unfoldable pub cascade_all :
      ℕ → String → List (Cascade N) → List (DimensionCoverage N) → List (DimensionCoverage N)
  unfolding change_first
  cascade_all turn from [] cs = cs
  cascade_all turn from (k ∷ ks) cs =
      cascade_all turn from ks (change_first k.dimension_id (cascade_into turn from k.weight) cs)

  abbrev pub cascades_of : Option (RubricDimension N) → List (Cascade N)
  cascades_of none = []
  cascades_of (some d) = or_else d.cascade_to []

  unfoldable pub apply_cascades :
      ℕ
      → List (RubricDimension N)
      → List String
      → List (DimensionCoverage N)
      → List (DimensionCoverage N)
  unfolding cascade_all
  apply_cascades turn dimensions [] cs = cs
  apply_cascades turn dimensions (id ∷ ids) cs =
      apply_cascades turn dimensions ids
        (cascade_all turn id (cascades_of (find (λ d. d.id == id) dimensions)) cs)

  unfoldable pub apply_coverage_updates :
      ℕ
      → List (RubricDimension N)
      → List (String × CoverageUpdate N)
      → List (DimensionCoverage N)
      → List (DimensionCoverage N)
  unfolding apply_updates apply_cascades
  apply_coverage_updates turn dimensions updates cs =
      let (cs', resolved) = apply_updates turn updates cs in
      apply_cascades turn dimensions resolved cs'

  abbrev pub is_done : DimensionCoverage N → Bool
  is_done c =
      is_settled c.status || at_least a (or_else c.confidence (a.thousandths 0)) (threshold_of c)

  abbrev pub all_dimensions_covered : List (DimensionCoverage N) → Bool
  all_dimensions_covered cs = all is_done cs
