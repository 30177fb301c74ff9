-- ===== src/AutoManage/Ingest/History.antt =====
-- The store as a bounded log: what a call of `ingestLines` makes of an agent's history.
use mathlib.Core.Option
use oss_agent_tools.Prelude.{
  All, All-take, All-reverse, ℕ, ◌+◌, ◌≡◌, ◌≢◌, refl, ap, ap₂, sym, ◌∙◌, String, true, false, some,
  List, [], ◌∷◌, ◌++◌, map, map-append, reverse, text_key, beq_refl, contains, filter,
  filter-append, take, take_last, map-take, map-take_last, map-reverse, reverse-take,
  cons-injective, find, arith,
}
use oss_agent_tools.Trace.{TraceEvent}
use oss_agent_tools.AutoManage.Text.{Text}
use oss_agent_tools.AutoManage.Parser.{Codec, parse_trace_lines, merge_parser_stats}
use oss_agent_tools.AutoManage.Status.{derive_status}
use oss_agent_tools.AutoManage.Store.{
  AgentSnapshot, EventRow, NewEvent, SqliteStore, of_agent, AgentRow, insert_event_row,
  insert_events, append_events, upsert_agent, list_recent_events, read_row,
}
use oss_agent_tools.AutoManage.Store.Retention.{
  IsFresh, rows_from, agents_of, append_events-rows, append_events-IsFresh,
}
use oss_agent_tools.AutoManage.Store.Agents.{has_id, upsert_agent-find}
use oss_agent_tools.AutoManage.Bus.{agent_updated}
use oss_agent_tools.AutoManage.Ingest.{
  IngestionService, Paths, valid_events, existing_raw_events, snapshot_of, to_stored_events,
  to_dashboard_event, alerts_of, ingest_events, ingest_lines, when_events,
  extract_workspace_from_trace_path,
}

-- The documented behaviour of the printer and the parsers: an event that was printed reads back.
abbrev pub ReadsBack : {Json : Type 0} → Codec Json → TraceEvent → Type 0
ReadsBack {Json} codec e =
    (j : Json) × (codec.parse (codec.stringify e) ≡ some j) × (codec.safe_parse j ≡ some e)

module _ {Json : Type 0} (codec : Codec Json) where
  -- The stored rows of an agent are a history of events, printed.
  abbrev pub Keeps : SqliteStore → Text → List TraceEvent → Type 0
  Keeps store agent_id history =
      map (λ r. r.raw_json) (filter (of_agent agent_id) store.recent_events)
      ≡ map codec.stringify history

  -- Rows that are a printed history read back as it.
  valid-rows :
      (rows : List EventRow) (history : List TraceEvent)
      → All (ReadsBack codec) history
      → map (λ r. r.raw_json) rows ≡ map codec.stringify history
      → valid_events codec (map (read_row codec) rows) ≡ history
  unfolding valid_events read_row
  valid-rows [] [] t e = refl
  valid-rows [] (h ∷ hs) t e = cc
  valid-rows (r ∷ rs) [] t e = cc
  valid-rows (r ∷ rs) (h ∷ hs) t e =
      let (same, rest) = cons-injective e in
      let (j, parses, checks) = t.0 in
      rw (same, parses, checks) (ap (◌∷◌ h) (valid-rows rs hs t.1 rest))

  -- The events that a derivation starts from are the newest thousand of the history.
  existing-Keeps :
      (store : SqliteStore) (agent_id : Text) (history : List TraceEvent)
      → All (ReadsBack codec) history
      → Keeps store agent_id history
      → reverse (valid_events codec (list_recent_events codec store agent_id 1000))
        ≡ take_last 1000 history
  unfolding list_recent_events
  existing-Keeps store agent_id history t k =
      let rows = filter (of_agent agent_id) store.recent_events in
      let raw : EventRow → Text = λ r. r.raw_json in
      let printed =
        map-take raw 1000 (reverse rows)
        ∙ ap (take 1000)
            (map-reverse raw rows ∙ ap reverse k ∙ sym (map-reverse codec.stringify history))
        ∙ sym (map-take codec.stringify 1000 (reverse history)) in
      ap reverse (
        valid-rows (take 1000 (reverse rows)) (take 1000 (reverse history))
          (All-take _ 1000 (reverse history) (All-reverse _ history t)) printed)
      ∙ reverse-take 1000 history

  agents-insert_events :
      (now : ℕ) (store : SqliteStore) (es : List NewEvent)
      → (insert_events codec now store es).agents ≡ store.agents
  unfolding insert_events insert_event_row
  agents-insert_events now store [] = refl
  agents-insert_events now store (e ∷ es) =
      agents-insert_events now (insert_event_row codec now store e) es

  agents-append_events :
      (store : SqliteStore) (es : List NewEvent) (now : ℕ)
      → (append_events codec store es now).agents ≡ store.agents
  unfolding append_events
  agents-append_events store es now = agents-insert_events now store es

  -- The new rows of the workspace's events.
  rows_from-Keeps :
      (ws : Text) (now id : ℕ) (events : List TraceEvent)
      → map
          (λ r. r.raw_json)
          (filter (of_agent ws) (rows_from codec now id (to_stored_events ws events)))
        ≡ map codec.stringify events
  rows_from-Keeps ws now id [] = refl
  rows_from-Keeps ws now id (e ∷ es) =
      rw (beq_refl ws) (ap (◌∷◌ (codec.stringify e)) (rows_from-Keeps ws now (id + 1) es))

  agents_of-stored :
      (ws other : Text) (events : List TraceEvent)
      → ws ≢ other
      → contains other (agents_of codec (to_stored_events ws events)) ≡ false
  agents_of-stored ws other [] h = refl
  agents_of-stored ws other (e ∷ es) h =
      ground (arith, agents_of-stored ws other es h, text_key.same_iff ws other)

  -- An append of a workspace's events to a kept history keeps the newest of both.
  append-Keeps :
      (store : SqliteStore) (ws : Text) (history : List TraceEvent) (e : TraceEvent)
      (es : List TraceEvent) (now : ℕ)
      → IsFresh store.recent_events store.next_id
      → Keeps store ws history
      → Keeps
          (append_events codec store (to_stored_events ws (e ∷ es)) now)
          ws
          (take_last store.retention_per_agent (history ++ e ∷ es))
  append-Keeps store ws history e es now f k =
      let raw : EventRow → Text = λ r. r.raw_json in
      let new = to_stored_events ws (e ∷ es) in
      let named : contains ws (agents_of codec new) ≡ true = rw (beq_refl ws) in
      let rows =
        filter (of_agent ws) (store.recent_events ++ rows_from codec now store.next_id new) in
      let both =
        ap (map raw) (filter-append (of_agent ws) store.recent_events _)
        ∙ map-append raw (filter (of_agent ws) store.recent_events) _
        ∙ ap₂ (◌++◌) k (rows_from-Keeps ws now store.next_id (e ∷ es))
        ∙ sym (map-append codec.stringify history (e ∷ es)) in
      ap (map raw) (append_events-rows codec store new now ws f ∙ rw named)
      ∙ map-take_last raw store.retention_per_agent rows
      ∙ ap (take_last store.retention_per_agent) both
      ∙ sym (map-take_last codec.stringify store.retention_per_agent (history ++ e ∷ es))

  append-Keeps_other :
      (store : SqliteStore) (ws other : Text) (history : List TraceEvent) (events : List TraceEvent)
      (now : ℕ)
      → ws ≢ other
      → IsFresh store.recent_events store.next_id
      → Keeps store other history
      → Keeps (append_events codec store (to_stored_events ws events) now) other history
  append-Keeps_other store ws other history events now h f k =
      let raw : EventRow → Text = λ r. r.raw_json in
      ap (map raw) (
        append_events-rows codec store (to_stored_events ws events) now other f
        ∙ rw (agents_of-stored ws other events h))
      ∙ k

module _ {Json : Type 0} (codec : Codec Json) (paths : Paths) (time_of : String → ℕ) where
  -- What a call with events makes of a service whose store keeps the workspace's history.
  pub record Ingested (s s' : IngestionService) (ws : Text) (history events : List TraceEvent)
      (now : ℕ) : Type 0 where
    pub kept : Keeps codec s'.store ws (take_last s.store.retention_per_agent (history ++ events))
    pub others :
        (other : Text) (h : List TraceEvent)
        → ws ≢ other
        → Keeps codec s.store other h
        → Keeps codec s'.store other h
    pub fresh : IsFresh s'.store.recent_events s'.store.next_id
    pub snapshot : AgentSnapshot
    pub derived :
        snapshot
        ≡ snapshot_of codec paths time_of ws
            (derive_status time_of (take_last 1000 history ++ events) now s.staleness_ms)
    pub stored : Option.map (λ r. r.snapshot) (find (has_id ws) s'.store.agents) ≡ some snapshot
    pub streamed :
        s'.published
        ≡ s.published
          ++ (agent_updated snapshot
              ∷ (map (to_dashboard_event ws) events ++ alerts_of snapshot now))

  ingest_events-Ingested :
      (s : IngestionService) (ws : Text) (history : List TraceEvent) (e : TraceEvent)
      (es : List TraceEvent) (now : ℕ)
      → All (ReadsBack codec) history
      → IsFresh s.store.recent_events s.store.next_id
      → Keeps codec s.store ws history
      → Ingested s (ingest_events codec paths time_of s ws (e ∷ es) now) ws history (e ∷ es) now
  unfolding ingest_events upsert_agent
  ingest_events-Ingested s ws history e es now t f k = record {
    kept = append-Keeps codec updated ws history e es now f k;
    others = λ other h ne kh. append-Keeps_other codec updated ws other h (e ∷ es) now ne f kh;
    fresh = append_events-IsFresh codec updated (to_stored_events ws (e ∷ es)) now f;
    snapshot = snap;
    derived =
        ap
          (λ past.
            snapshot_of codec paths time_of ws
              (derive_status time_of (past ++ e ∷ es) now s.staleness_ms))
          (existing-Keeps codec s.store ws history t k);
    stored =
        ap (λ agents. Option.map (λ (r : AgentRow). r.snapshot) (find (has_id ws) agents))
          (agents-append_events codec updated (to_stored_events ws (e ∷ es)) now)
        ∙ ap (Option.map (λ (r : AgentRow). r.snapshot)) (upsert_agent-find s.store snap now ws)
        ∙ rw (beq_refl ws);
    streamed = refl;
  }
    where
      snap : AgentSnapshot
      snap = snapshot_of codec paths time_of ws (
          derive_status time_of (existing_raw_events codec paths time_of s.store ws ++ e ∷ es) now
            s.staleness_ms)

      updated : SqliteStore
      updated = upsert_agent s.store snap now

  lines-Ingested :
      (s : IngestionService) (file_path : Text) (events : List TraceEvent)
      (history : List TraceEvent) (now : ℕ)
      → All (ReadsBack codec) history
      → IsFresh s.store.recent_events s.store.next_id
      → let ws = extract_workspace_from_trace_path paths file_path in
        Keeps codec s.store ws history
        → events ≢ []
        → Ingested s
            (when_events codec paths time_of events s
              (ingest_events codec paths time_of s ws events now))
            ws
            history
            events
            now
  lines-Ingested s file_path [] history now t f k h = absurd (h refl)
  lines-Ingested s file_path (e ∷ es) history now t f k h =
      ingest_events-Ingested s (extract_workspace_from_trace_path paths file_path) history e es now
        t f k

  -- A call of `ingestLines` whose lines hold events, on a store that keeps a history of the file's
  -- workspace whose events read back as they were printed: the store keeps the newest of the history
  -- and the new events, as many as its retention; the histories of other workspaces stay; ids stay
  -- fresh; the snapshot that is stored and streamed is derived from the newest thousand events of
  -- the history and the new ones; and the stream gets it, then every new event, then the alert.
  pub ingest_lines-Ingested :
      (s : IngestionService) (file_path : Text) (lines : List Text) (history : List TraceEvent)
      (now : ℕ)
      → All (ReadsBack codec) history
      → IsFresh s.store.recent_events s.store.next_id
      → let ws = extract_workspace_from_trace_path paths file_path in
        Keeps codec s.store ws history
        → (parse_trace_lines codec lines).events ≢ []
        → Ingested s
            (ingest_lines codec paths time_of s file_path lines now)
            ws
            history
            (parse_trace_lines codec lines).events
            now
  unfolding ingest_lines
  ingest_lines-Ingested s file_path lines history now t f k h =
      let parsed = parse_trace_lines codec lines in
      let counted = record s {
        cumulative_parser_stats = merge_parser_stats s.cumulative_parser_stats parsed.stats;
      } in
      let i = lines-Ingested counted file_path parsed.events history now t f k h in
      record {
        kept = i.kept;
        others = i.others;
        fresh = i.fresh;
        snapshot = i.snapshot;
        derived = i.derived;
        stored = i.stored;
        streamed = i.streamed;
      }
