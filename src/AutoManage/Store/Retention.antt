-- ===== src/AutoManage/Store/Retention.antt =====
-- What `appendEvents` keeps: of each agent that it touches the newest rows, of the others all.
use oss_agent_tools.Prelude.{
  ℕ, ◌+◌, ◌≤◌, ◌<◌, ◌≡◌, refl, ap, sym, ◌∙◌, ◌≢◌, inl, inr, Bool, true, false, ◌||◌, List, [], ◌∷◌,
  ◌++◌, map, map-append, append_assoc, append-nil, ◌==◌, nat_key, text_key, contains, contains-add,
  add, add-Distinct, Distinct, Distinct-append_one, length, filter, filter-append, take_last,
  length-take_last-le, All, All-map, All-append, All-filter, Bool-cases, arith, if◌then◌else◌,
}
use oss_agent_tools.AutoManage.Text.{Text}
use oss_agent_tools.AutoManage.Parser.{Codec}
use oss_agent_tools.AutoManage.Store.{
  EventRow, NewEvent, SqliteStore, of_agent, ids, prune_agent, new_row, insert_event_row,
  insert_events, touched_agents, prune_agents, append_events,
}
use oss_agent_tools.AutoManage.Store.Rows.{filter-keep, filter-other, filter-newest}

-- Ids are below the counter, and none stands twice.
pub record IsFresh (rows : List EventRow) (next_id : ℕ) : Type 0 where
  pub below : All (λ r. r.id < next_id) rows
  pub distinct : Distinct (ids rows)

contains-ids-filter :
    (p : EventRow → Bool) (i : ℕ) (rows : List EventRow)
    → contains i (ids rows) ≡ false
    → contains i (ids (filter p rows)) ≡ false
contains-ids-filter p i [] h = refl
contains-ids-filter p i (r ∷ rows) h = ground (arith, contains-ids-filter p i rows)

filter-Distinct :
    (p : EventRow → Bool) (rows : List EventRow)
    → Distinct (ids rows)
    → Distinct (ids (filter p rows))
filter-Distinct p [] d = tt
filter-Distinct p (r ∷ rows) (n, d) = elim (Bool-cases (p r)) [
  | inl e ↦ rw e (contains-ids-filter p r.id rows n, filter-Distinct p rows d)
  | inr e ↦ rw e (filter-Distinct p rows d)
]

pub filter-IsFresh :
    (p : EventRow → Bool) (rows : List EventRow) (n : ℕ)
    → IsFresh rows n
    → IsFresh (filter p rows) n
filter-IsFresh p rows n f = record {
  below = All-filter (λ r. r.id < n) p rows f.below;
  distinct = filter-Distinct p rows f.distinct;
}

-- Pruning keeps the newest rows of the agent, and every row of another one.
prune_self :
    (a : Text) (k : ℕ) (rows : List EventRow)
    → Distinct (ids rows)
    → filter (of_agent a) (prune_agent a k rows) ≡ take_last k (filter (of_agent a) rows)
unfolding prune_agent
prune_self a k rows d =
    filter-keep (of_agent a) _ rows
    ∙ filter-newest k (filter (of_agent a) rows) (filter-Distinct (of_agent a) rows d)

prune_other :
    (a b : Text) (k : ℕ) (rows : List EventRow)
    → a ≢ b
    → filter (of_agent b) (prune_agent a k rows) ≡ filter (of_agent b) rows
unfolding prune_agent
prune_other a b k rows h =
    filter-other (of_agent b) _ rows
      (λ r e. ground (arith, text_key.same_iff r.agent_id a, text_key.same_iff r.agent_id b))

prune_agent-IsFresh :
    (a : Text) (k : ℕ) (rows : List EventRow) (n : ℕ)
    → IsFresh rows n
    → IsFresh (prune_agent a k rows) n
unfolding prune_agent
prune_agent-IsFresh a k rows n f = filter-IsFresh _ rows n f

module _ {Json : Type 0} (codec : Codec Json) where
  prune_agents-IsFresh :
      (k : ℕ) (touched : List Text) (rows : List EventRow) (n : ℕ)
      → IsFresh rows n
      → IsFresh (prune_agents codec k touched rows) n
  unfolding prune_agents
  prune_agents-IsFresh k [] rows n f = f
  prune_agents-IsFresh k (a ∷ rest) rows n f =
      prune_agents-IsFresh k rest _ n (prune_agent-IsFresh a k rows n f)

  prune_agents-absent :
      (k : ℕ) (b : Text) (touched : List Text) (rows : List EventRow)
      → contains b touched ≡ false
      → filter (of_agent b) (prune_agents codec k touched rows) ≡ filter (of_agent b) rows
  unfolding prune_agents
  prune_agents-absent k b [] rows h = refl
  prune_agents-absent k b (a ∷ rest) rows h =
      prune_agents-absent k b rest (prune_agent a k rows) (ground arith)
      ∙ prune_other a b k rows (λ e. ground (arith, text_key.same_iff a b))

  prune_agents-present :
      (k : ℕ) (b : Text) (touched : List Text) (rows : List EventRow) (n : ℕ)
      → IsFresh rows n
      → Distinct touched
      → contains b touched ≡ true
      → filter (of_agent b) (prune_agents codec k touched rows)
        ≡ take_last k (filter (of_agent b) rows)
  unfolding prune_agents
  prune_agents-present k b [] rows n f d h = cc
  prune_agents-present k b (a ∷ rest) rows n f (absent, d) h = elim (Bool-cases (a == b)) [
    | inl e ↦
        let same : a ≡ b = (text_key.same_iff a b).0 e in
        prune_agents-absent k b rest (prune_agent a k rows) (rw (← same) absent)
        ∙ rw (← same) (prune_self a k rows f.distinct)
    | inr e ↦
        prune_agents-present k b rest (prune_agent a k rows) n (prune_agent-IsFresh a k rows n f) d
          (ground arith)
        ∙ ap (take_last k) (prune_other a b k rows (λ s. ground (arith, text_key.same_iff a b)))
  ]

  -- The rows that are inserted, numbered from `id` on.
  abbrev pub rows_from : ℕ → ℕ → List NewEvent → List EventRow
  rows_from now id [] = []
  rows_from now id (e ∷ es) = new_row codec now id e ∷ rows_from now (id + 1) es

  pub insert_events-rows :
      (now : ℕ) (store : SqliteStore) (es : List NewEvent)
      → (insert_events codec now store es).recent_events
        ≡ store.recent_events ++ rows_from now store.next_id es
  unfolding insert_events insert_event_row
  insert_events-rows now store [] = sym (append-nil _)
  insert_events-rows now store (e ∷ es) =
      insert_events-rows now (insert_event_row codec now store e) es
      ∙ append_assoc store.recent_events (new_row codec now store.next_id e ∷ []) _

  absent_of_below :
      (n : ℕ) (rows : List EventRow) → All (λ r. r.id < n) rows → contains n (ids rows) ≡ false
  absent_of_below n [] h = refl
  absent_of_below n (r ∷ rows) (l, h) = rw (absent_of_below n rows h) (ground arith)

  insert_event_row-IsFresh :
      (now : ℕ) (store : SqliteStore) (e : NewEvent)
      → IsFresh store.recent_events store.next_id
      → let s = insert_event_row codec now store e in IsFresh s.recent_events s.next_id
  unfolding insert_event_row
  insert_event_row-IsFresh now store e f =
      let n = store.next_id in
      record {
        below =
            All-append (λ r. r.id < n + 1) store.recent_events (new_row codec now n e ∷ [])
              (All-map (λ r. r.id < n) (λ r. r.id < n + 1) store.recent_events (λ r l. omega arith)
                f.below)
              (omega arith, tt);
        distinct =
            rw
              (map-append (λ (r : EventRow). r.id) store.recent_events (new_row codec now n e ∷ []))
              (Distinct-append_one n (ids store.recent_events)
                (absent_of_below n store.recent_events f.below) f.distinct);
      }

  insert_events-IsFresh :
      (now : ℕ) (store : SqliteStore) (es : List NewEvent)
      → IsFresh store.recent_events store.next_id
      → let s = insert_events codec now store es in IsFresh s.recent_events s.next_id
  unfolding insert_events
  insert_events-IsFresh now store [] f = f
  insert_events-IsFresh now store (e ∷ es) f =
      insert_events-IsFresh now (insert_event_row codec now store e) es
        (insert_event_row-IsFresh now store e f)

  -- Appending keeps the ids below the counter and all different.
  pub append_events-IsFresh :
      (store : SqliteStore) (es : List NewEvent) (now : ℕ)
      → IsFresh store.recent_events store.next_id
      → let s = append_events codec store es now in IsFresh s.recent_events s.next_id
  unfolding append_events
  append_events-IsFresh store es now f =
      prune_agents-IsFresh store.retention_per_agent (touched_agents codec [] es) _ _
        (insert_events-IsFresh now store es f)

  touched-Distinct :
      (touched : List Text) (es : List NewEvent)
      → Distinct touched
      → Distinct (touched_agents codec touched es)
  unfolding touched_agents
  touched-Distinct touched [] d = d
  touched-Distinct touched (e ∷ es) d =
      touched-Distinct (add e.agent_id touched) es (add-Distinct e.agent_id touched d)

  abbrev pub agents_of : List NewEvent → List Text
  agents_of = map (λ e. e.agent_id)

  contains-touched :
      (b : Text) (touched : List Text) (es : List NewEvent)
      → contains b (touched_agents codec touched es)
        ≡ (contains b touched || contains b (agents_of es))
  unfolding touched_agents
  contains-touched b touched [] = ground arith
  contains-touched b touched (e ∷ es) =
      contains-touched b (add e.agent_id touched) es
      ∙ ap (λ x. x || contains b (agents_of es)) (contains-add e.agent_id b touched)
      ∙ ground arith

  rows_from-absent :
      (b : Text) (now id : ℕ) (es : List NewEvent)
      → contains b (agents_of es) ≡ false
      → filter (of_agent b) (rows_from now id es) ≡ []
  rows_from-absent b now id [] h = refl
  rows_from-absent b now id (e ∷ es) h = ground (arith, rows_from-absent b now (id + 1) es)

  -- After an append to a store whose rows have distinct ids below the counter, the rows of an agent
  -- that the events name are the newest of its old and new rows, as many as the retention allows, in
  -- their order; another agent's rows are as before.
  pub append_events-rows :
      (store : SqliteStore) (es : List NewEvent) (now : ℕ) (b : Text)
      → IsFresh store.recent_events store.next_id
      → filter (of_agent b) (append_events codec store es now).recent_events ≡ (
          if contains b (agents_of es)
          then take_last store.retention_per_agent
              (filter (of_agent b) (store.recent_events ++ rows_from now store.next_id es))
          else filter (of_agent b) store.recent_events)
  unfolding append_events
  append_events-rows store es now b f = elim (Bool-cases (contains b (agents_of es))) [
    | inl named ↦ rw named (
        prune_agents-present store.retention_per_agent b (touched_agents codec [] es) _ _
          (insert_events-IsFresh now store es f) (touched-Distinct [] es tt)
          (contains-touched b [] es ∙ named)
        ∙ ap (λ rows. take_last store.retention_per_agent (filter (of_agent b) rows))
            (insert_events-rows now store es))
    | inr other ↦ rw other (
        prune_agents-absent store.retention_per_agent b (touched_agents codec [] es) _
          (contains-touched b [] es ∙ other)
        ∙ ap (filter (of_agent b)) (insert_events-rows now store es)
        ∙ filter-append (of_agent b) store.recent_events _
        ∙ ap (◌++◌ (filter (of_agent b) store.recent_events))
            (rows_from-absent b now store.next_id es other)
        ∙ append-nil _)
  ]

  -- An agent that keeps within the retention does so after an append.
  pub append_events-bound :
      (store : SqliteStore) (es : List NewEvent) (now : ℕ) (b : Text)
      → IsFresh store.recent_events store.next_id
      → length (filter (of_agent b) store.recent_events) ≤ store.retention_per_agent
      → length (filter (of_agent b) (append_events codec store es now).recent_events)
        ≤ store.retention_per_agent
  append_events-bound store es now b f h = elim (Bool-cases (contains b (agents_of es))) [
    | inl named ↦
        rw (append_events-rows store es now b f, named)
          (length-take_last-le store.retention_per_agent _)
    | inr other ↦ rw (append_events-rows store es now b f, other) h
  ]
