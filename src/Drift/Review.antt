-- ===== src/Drift/Review.antt =====
-- The aggregates that decide about a review: they grow with the events, and the categories of the
-- observations add up.
use oss_agent_tools.Prelude.{
  ℕ, ◌+◌, ◌≤◌, String, ◌≡◌, ap, ◌∙◌, true, List, [], ◌∷◌, ◌++◌, ◌==◌, string_key, lookup, insert,
  filter, filter-append, length, length-append, or_else, arith,
}
use oss_agent_tools.Trace.{TraceEvent, EventType, event_key, filter_by_event_type}
use oss_agent_tools.Drift.Aggregates.{
  aggregate_observations, aggregate_tensions, should_trigger_review, is_pending, category_of,
  count_categories,
}

abbrev tensions_of : List TraceEvent → List TraceEvent
tensions_of events = filter_by_event_type events EventType.tension

total_add :
    (t : EventType) (events more : List TraceEvent)
    → length (filter_by_event_type events t) ≤ length (filter_by_event_type (events ++ more) t)
total_add t events more = omega (
  arith,
  ap length (filter-append (λ e. e.event_type == t) events more),
  length-append (filter_by_event_type events t) (filter_by_event_type more t),
)

pending_add :
    (events more : List TraceEvent)
    → length (filter (λ e. is_pending e.tension_details) (tensions_of events))
      ≤ length (filter (λ e. is_pending e.tension_details) (tensions_of (events ++ more)))
pending_add events more = rw (filter-append (λ e. e.event_type == EventType.tension) events more) (
    rw (filter-append (λ e. is_pending e.tension_details) (tensions_of events) (tensions_of more)) (
      omega (
        arith,
        length-append (filter (λ e. is_pending e.tension_details) (tensions_of events))
            (filter (λ e. is_pending e.tension_details) (tensions_of more)),
      )))

-- Once the events call for a review, they do with any later events added.
should_trigger_review-append :
    (events more : List TraceEvent)
    → should_trigger_review (aggregate_observations events) (aggregate_tensions events) ≡ true
    → should_trigger_review
        (aggregate_observations (events ++ more))
        (aggregate_tensions (events ++ more))
      ≡ true
unfolding should_trigger_review aggregate_observations aggregate_tensions
should_trigger_review-append events more h =
    ground (arith, total_add EventType.observation events more, pending_add events more)

-- The sum of the counts.
abbrev sum_counts : List (String × ℕ) → ℕ
sum_counts [] = 0
sum_counts ((k, n) ∷ m) = n + sum_counts m

sum-insert :
    (k : String) (m : List (String × ℕ))
    → sum_counts (insert k (or_else (lookup k m) 0 + 1) m) ≡ sum_counts m + 1
sum-insert k [] = omega arith
sum-insert k ((j, n) ∷ m) = ground (arith, sum-insert k m)

sum-count_categories :
    (events : List TraceEvent) (m : List (String × ℕ))
    → sum_counts (count_categories events m) ≡ sum_counts m + length events
sum-count_categories [] m = omega arith
sum-count_categories (e ∷ es) m =
    sum-count_categories es _ ∙ omega (arith, sum-insert (category_of e) m)

-- The counts of the categories add up to the number of observations.
aggregate_observations-sum :
    (events : List TraceEvent)
    → sum_counts (aggregate_observations events).by_category ≡ (aggregate_observations events).total
unfolding aggregate_observations
aggregate_observations-sum events =
    sum-count_categories (filter_by_event_type events EventType.observation) [] ∙ omega arith
