-- ===== src/AutoManage/Status/Laws.antt =====
-- What `deriveStatus` says of the events, whatever order they are given in.
use oss_agent_tools.Prelude.{
  ℕ, ◌+◌, ◌-◌, ◌≤◌, ◌<◌, ◌≡◌, refl, ap, ap₂, subst, sym, ◌∙◌, ◌≢◌, ◌↔◌, inl, inr, String, Bool,
  some, List, [], ◌∷◌, length, filter, All, All-map, Any, Bool-cases, leb, ◌==◌, arith,
}
use oss_agent_tools.Trace.{
  TraceEvent, EventType, tool_call, approval_requested, approval_response, session_end, event_key,
  event_eq_iff,
}
use oss_agent_tools.AutoManage.Status.{
  AgentStatus, idle, running, blocked, error, completed, DerivedStatus, count_type, last_of, at,
  insert_event, sort_events, status_of, derive_ordered, derive_status,
}

module _ (time_of : String → ℕ) where
  length-filter-insert :
      (p : TraceEvent → Bool) (e : TraceEvent) (es : List TraceEvent)
      → length (filter p (insert_event time_of e es)) ≡ length (filter p (e ∷ es))
  unfolding insert_event
  length-filter-insert p e [] = refl
  length-filter-insert p e (f ∷ fs) = ground (arith, length-filter-insert p e fs)

  length-filter-sort :
      (p : TraceEvent → Bool) (es : List TraceEvent)
      → length (filter p (sort_events time_of es)) ≡ length (filter p es)
  unfolding sort_events
  length-filter-sort p [] = refl
  length-filter-sort p (e ∷ es) =
      ground (arith, length-filter-insert p e (sort_events time_of es), length-filter-sort p es)

  All-insert :
      (P : TraceEvent → Type 0) (e : TraceEvent) (es : List TraceEvent)
      → P e
      → All P es
      → All P (insert_event time_of e es)
  unfolding insert_event
  All-insert P e [] h k = (h, tt)
  All-insert P e (f ∷ fs) h k = ground (arith, All-insert P e fs h k.1)

  All-of_insert :
      (P : TraceEvent → Type 0) (e : TraceEvent) (es : List TraceEvent)
      → All P (insert_event time_of e es)
      → P e × All P es
  unfolding insert_event
  All-of_insert P e [] h = h
  All-of_insert P e (f ∷ fs) h = ground (arith, All-of_insert P e fs)

  All-of_sort :
      (P : TraceEvent → Type 0) (es : List TraceEvent) → All P (sort_events time_of es) → All P es
  unfolding sort_events
  All-of_sort P [] h = tt
  All-of_sort P (e ∷ es) h =
      let k = All-of_insert P e (sort_events time_of es) h in (k.0, All-of_sort P es k.1)

  Any-of_insert :
      (P : TraceEvent → Type 0) (e : TraceEvent) (es : List TraceEvent)
      → Any P (insert_event time_of e es)
      → Any P (e ∷ es)
  unfolding insert_event
  Any-of_insert P e [] h = h
  Any-of_insert P e (f ∷ fs) h = ground (arith, Any-of_insert P e fs)

  Any-of_sort :
      (P : TraceEvent → Type 0) (es : List TraceEvent) → Any P (sort_events time_of es) → Any P es
  unfolding sort_events
  Any-of_sort P [] h = h
  Any-of_sort P (e ∷ es) h = elim (Any-of_insert P e (sort_events time_of es) h) [
    | inl here ↦ inl here
    | inr later ↦ inr (Any-of_sort P es later)
  ]

  -- Each event is no later than those behind it.
  abbrev Ascending : List TraceEvent → Type 0
  Ascending [] = Unit
  Ascending (e ∷ es) = All (λ f. at time_of e ≤ at time_of f) es × Ascending es

  insert-Ascending :
      (e : TraceEvent) (es : List TraceEvent) → Ascending es → Ascending (insert_event time_of e es)
  unfolding insert_event
  insert-Ascending e [] h = (tt, tt)
  insert-Ascending e (f ∷ fs) (h, k) = elim (Bool-cases (leb (at time_of e) (at time_of f))) [
    | inl le ↦ rw le (
      (ground arith, All-map _ (λ g. at time_of e ≤ at time_of g) fs (λ g l. ground arith) h),
      (h, k),
    )
    | inr gt ↦ rw gt (
      All-insert (λ g. at time_of f ≤ at time_of g) e fs (ground arith) h,
      insert-Ascending e fs k,
    )
  ]

  sort-Ascending : (es : List TraceEvent) → Ascending (sort_events time_of es)
  unfolding sort_events
  sort-Ascending [] = tt
  sort-Ascending (e ∷ es) = insert-Ascending e (sort_events time_of es) (sort-Ascending es)

  last-max :
      (e : TraceEvent) (es : List TraceEvent)
      → Ascending (e ∷ es)
      → All (λ f. at time_of f ≤ at time_of (last_of e es)) (e ∷ es)
  last-max e [] h = (omega arith, tt)
  last-max e (f ∷ fs) ((le, _), k) = let ih = last-max f fs k in (ground arith, ih)

  last-Any : (e : TraceEvent) (es : List TraceEvent) → Any (λ f. f ≡ last_of e es) (e ∷ es)
  last-Any e [] = inl refl
  last-Any e (f ∷ fs) = inr (last-Any f fs)

  -- The status, read off the latest event and the numbers of requests and responses.
  pub record Decides (latest : TraceEvent) (requests responses now_ms staleness_ms : ℕ)
      (s : AgentStatus) : Type 0 where
    pub on_error : (s ≡ error) ↔ (latest.event_type ≡ EventType.error)
    pub on_blocked :
        (s ≡ blocked) ↔ ((latest.event_type ≢ EventType.error) × (responses < requests))
    pub on_completed :
        (s ≡ completed) ↔ ((latest.event_type ≡ session_end) × (requests ≤ responses))
    pub on_idle : (s ≡ idle) ↔ (
        (latest.event_type ≢ EventType.error)
        × (latest.event_type ≢ session_end)
        × (requests ≤ responses)
        × (staleness_ms + at time_of latest < now_ms))
    pub on_running : (s ≡ running) ↔ (
        (latest.event_type ≢ EventType.error)
        × (latest.event_type ≢ session_end)
        × (requests ≤ responses)
        × (now_ms ≤ staleness_ms + at time_of latest))

  status_of-Decides :
      (latest : TraceEvent) (requests responses now_ms staleness_ms : ℕ)
      → Decides latest requests responses now_ms staleness_ms
          (status_of time_of latest (requests - responses) now_ms staleness_ms)
  unfolding status_of
  status_of-Decides latest requests responses now_ms staleness_ms =
      let e = event_eq_iff latest.event_type EventType.error in
      let f = event_eq_iff latest.event_type session_end in
      record {
        on_error = (λ s. ground (arith, e, f), λ s. ground (arith, e, f));
        on_blocked = (λ s. ground (arith, e, f), λ s. ground (arith, e, f));
        on_completed = (λ s. ground (arith, e, f), λ s. ground (arith, e, f));
        on_idle = (λ s. ground (arith, e, f), λ s. ground (arith, e, f));
        on_running = (λ s. ground (arith, e, f), λ s. ground (arith, e, f));
      }

  -- A summary of events: the latest one is among them, and the counters are those of the events.
  pub record Summary (events : List TraceEvent) (now_ms staleness_ms : ℕ) (d : DerivedStatus)
      : Type 0 where
    pub latest : TraceEvent
    pub listed : Any (λ e. e ≡ latest) events
    pub is_latest : All (λ e. at time_of e ≤ at time_of latest) events
    pub stamped : d.last_event_at ≡ some latest.timestamp
    pub decided :
        Decides latest
          (count_type approval_requested events)
          (count_type approval_response events)
          now_ms
          staleness_ms
          d.status
    pub errors : d.error_count ≡ count_type EventType.error events
    pub calls : d.tool_calls ≡ count_type tool_call events
    pub pending :
        d.approvals_pending
        ≡ count_type approval_requested events - count_type approval_response events

  count-sort :
      (t : EventType) (es : List TraceEvent)
      → count_type t (sort_events time_of es) ≡ count_type t es
  count-sort t es = length-filter-sort (λ e. e.event_type == t) es

  ordered-Summary :
      (ordered events : List TraceEvent) (now_ms staleness_ms : ℕ)
      → ordered ≡ sort_events time_of events
      → ordered ≢ []
      → Summary events now_ms staleness_ms (derive_ordered time_of ordered now_ms staleness_ms)
  unfolding derive_ordered
  ordered-Summary [] events now_ms staleness_ms e h = absurd (h refl)
  ordered-Summary (f ∷ fs) events now_ms staleness_ms e h =
      let latest = last_of f fs in
      let same = λ (t : EventType). ap (count_type t) e ∙ count-sort t events in
      record {
        latest = latest;
        listed =
            Any-of_sort (λ g. g ≡ latest) events (subst (Any (λ g. g ≡ latest)) e (last-Any f fs));
        is_latest =
            All-of_sort (λ g. at time_of g ≤ at time_of latest) events
              (subst (All (λ g. at time_of g ≤ at time_of latest)) e
                (last-max f fs (subst Ascending (sym e) (sort-Ascending events))));
        stamped = refl;
        decided =
            subst
              (λ n. Decides latest n (count_type approval_response events) now_ms staleness_ms (
                status_of time_of latest
                  (count_type approval_requested (f ∷ fs) - count_type approval_response (f ∷ fs))
                  now_ms staleness_ms))
              (same approval_requested)
              (subst
                (λ n.
                  Decides latest (count_type approval_requested (f ∷ fs)) n now_ms staleness_ms (
                    status_of time_of latest
                      (count_type approval_requested (f ∷ fs)
                        - count_type approval_response (f ∷ fs))
                      now_ms staleness_ms))
                (same approval_response)
                (status_of-Decides latest (count_type approval_requested (f ∷ fs))
                  (count_type approval_response (f ∷ fs)) now_ms staleness_ms));
        errors = same EventType.error;
        calls = same tool_call;
        pending = ap₂ (λ m n. m - n) (same approval_requested) (same approval_response);
      }

  insert-ne : (e : TraceEvent) (es : List TraceEvent) → insert_event time_of e es ≢ []
  unfolding insert_event
  insert-ne e [] = λ h. cc
  insert-ne e (f ∷ fs) = ground arith

  sort-ne : (e : TraceEvent) (es : List TraceEvent) → sort_events time_of (e ∷ es) ≢ []
  unfolding sort_events
  sort-ne e es = insert-ne e (sort_events time_of es)

  -- Of one event or more, in any order: the status is decided by the latest event, the numbers of
  -- approval requests and responses and the staleness of the latest event; its time is reported,
  -- and errors, tool calls and pending approvals are counted over all events.
  pub derive_status-Summary :
      (e : TraceEvent) (es : List TraceEvent) (now_ms staleness_ms : ℕ)
      → Summary (e ∷ es) now_ms staleness_ms (derive_status time_of (e ∷ es) now_ms staleness_ms)
  unfolding derive_status
  derive_status-Summary e es now_ms staleness_ms =
      ordered-Summary (sort_events time_of (e ∷ es)) (e ∷ es) now_ms staleness_ms refl
        (sort-ne e es)

  duration-ordered :
      (ordered : List TraceEvent) (now_ms staleness_ms : ℕ)
      → Ascending ordered
      → All
          (λ a.
            All
              (λ b.
                at time_of b - at time_of a
                ≤ (derive_ordered time_of ordered now_ms staleness_ms).run_duration_ms)
              ordered)
          ordered
  unfolding derive_ordered
  duration-ordered [] now_ms staleness_ms h = tt
  duration-ordered (f ∷ fs) now_ms staleness_ms h =
      let later = λ (a : TraceEvent) (le : at time_of f ≤ at time_of a).
        All-map (λ b. at time_of b ≤ at time_of (last_of f fs))
          (λ b. at time_of b - at time_of a ≤ at time_of (last_of f fs) - at time_of f) (f ∷ fs)
          (λ b k. omega arith) (last-max f fs h) in
      All-map (λ a. at time_of f ≤ at time_of a) _ (f ∷ fs) later (omega arith, h.0)

  -- No two events lie further apart than the reported duration of the run.
  pub derive_status-duration :
      (events : List TraceEvent) (now_ms staleness_ms : ℕ)
      → All
          (λ a.
            All
              (λ b.
                at time_of b - at time_of a
                ≤ (derive_status time_of events now_ms staleness_ms).run_duration_ms)
              events)
          events
  unfolding derive_status
  derive_status-duration events now_ms staleness_ms = All-of_sort _ events (
      All-map _ _ (sort_events time_of events) (λ a k. All-of_sort _ events k)
        (duration-ordered (sort_events time_of events) now_ms staleness_ms (sort-Ascending events)))
