-- ===== src/Drift/Aggregates.antt =====
-- The aggregates of observations and tensions at the end of detector.ts.
use oss_agent_tools.Prelude.{
  ℕ, ◌+◌, String, Bool, true, false, ◌||◌, Option, none, some, List, [], ◌∷◌, string_key, lookup,
  insert, filter, length, take_last, leb, or_else,
}
use oss_agent_tools.Trace.{
  TraceEvent, EventType, event_key, Tension, pending, resolved, dissolved, ObservationCategory,
  methodology, process, friction, surprise, quality, filter_by_event_type,
}

pub record Observations : Type 0 where
  pub total : ℕ
  pub by_category : List (String × ℕ)
  pub recent : List TraceEvent

pub record Tensions : Type 0 where
  pub total : ℕ
  pub pending_total : ℕ
  pub recent : List TraceEvent

abbrev category_name : Option ObservationCategory → String
category_name none = "uncategorized"
category_name (some methodology) = "methodology"
category_name (some process) = "process"
category_name (some friction) = "friction"
category_name (some surprise) = "surprise"
category_name (some quality) = "quality"

abbrev pub category_of : TraceEvent → String
category_of e = category_name e.observation_category

abbrev pub count_categories : List TraceEvent → List (String × ℕ) → List (String × ℕ)
count_categories [] counts = counts
count_categories (e ∷ es) counts =
    count_categories es
      (insert (category_of e) (or_else (lookup (category_of e) counts) 0 + 1) counts)

unfoldable pub aggregate_observations : List TraceEvent → Observations
aggregate_observations events =
    let observations = filter_by_event_type events EventType.observation in
    record {
      total = length observations;
      by_category = count_categories observations [];
      recent = take_last 10 observations;
    }

abbrev pub is_pending : Option Tension → Bool
is_pending none = false
is_pending (some t) = elim t.status [ pending ↦ true | resolved ↦ false | dissolved ↦ false ]

unfoldable pub aggregate_tensions : List TraceEvent → Tensions
aggregate_tensions events =
    let tensions = filter_by_event_type events EventType.tension in
    record {
      total = length tensions;
      pending_total = length (filter (λ e. is_pending e.tension_details) tensions);
      recent = take_last 10 tensions;
    }

unfoldable pub should_trigger_review : Observations → Tensions → Bool
should_trigger_review observations tensions =
    leb 10 observations.total || leb 5 tensions.pending_total
