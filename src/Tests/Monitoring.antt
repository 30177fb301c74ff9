-- ===== src/Tests/Monitoring.antt =====
-- A trace file with two events, from the tailer to the dashboard.
use oss_agent_tools.Prelude.{
  ℕ, String, not, ◌&&◌, is_some, ◌≡◌, ◌≢◌, refl, true, none, some, [], ◌∷◌, ◌++◌, ◌==◌, All,
  if◌then◌else◌, text_key, string_key, filter, find, length, arith, lookup, ◌≤◌, ◌+◌, ◌-◌,
  take_last,
}
use oss_agent_tools.Trace.{TraceEvent, EventType, Actor, tool_call}
use oss_agent_tools.AutoManage.Text.{Text, clean, split_lines, ends_with_newline, trim}
use oss_agent_tools.AutoManage.Tailer.{TraceTailer, read_appended_lines, empty_tailer}
use oss_agent_tools.AutoManage.Tailer.Appends.{
  read-append, read-rotated, read-frame, offset_of, remainder_of,
}
use oss_agent_tools.AutoManage.Parser.{Codec, no_stats, merge_parser_stats, parse_trace_lines}
use oss_agent_tools.AutoManage.Parser.Laws.{parse_trace_lines-append}
use oss_agent_tools.AutoManage.Parser.Counts.{
  filled, is_json, has_version, events_of, parse_trace_lines-counts,
}
use oss_agent_tools.AutoManage.Status.{running, derive_status, codes, at}
use oss_agent_tools.AutoManage.Status.Laws.{Summary, derive_status-Summary, derive_status-duration}
use oss_agent_tools.AutoManage.Store.{
  AgentSnapshot, EventRow, SqliteStore, of_agent, append_events, upsert_agent,
}
use oss_agent_tools.AutoManage.Store.Retention.{IsFresh, rows_from, append_events-rows}
use oss_agent_tools.AutoManage.Store.Agents.{has_id, upsert_agent-find}
use oss_agent_tools.AutoManage.Bus.{agent_updated}
use oss_agent_tools.AutoManage.Ingest.{
  IngestionService, Paths, to_stored_events, ingest_lines, extract_workspace_from_trace_path,
}
use oss_agent_tools.AutoManage.Ingest.History.{Ingested, ingest_lines-Ingested}
use oss_agent_tools.AutoManage.Ingest.Effects.{stats-ingest_twice}
use oss_agent_tools.AutoManage.Dashboard.{
  DashboardState, create_dashboard_state, apply_stream_event, apply_stream,
}
use oss_agent_tools.AutoManage.Dashboard.Laws.{
  Shown, IsWithin, apply_stream_event-Shown, apply_stream-IsWithin,
}

abbrev event : EventType → String → TraceEvent
event t time = record {
  run_id = "r1";
  timestamp = time;
  actor = Actor.agent;
  skill_id = none;
  playbook_id = none;
  step_id = none;
  event_type = t;
  tool_ref = some "files:read";
  input_hash = none;
  output_hash = none;
  risk_score = none;
  principle_refs = none;
  cost = none;
  details = none;
  error_message = some "disk full";
  observation_category = none;
  tension_details = none;
}

abbrev call : TraceEvent
call = event tool_call "t1"

abbrev failure : TraceEvent
failure = event EventType.error "t2"

abbrev time_of : String → ℕ
time_of s = if s == "t1" then 1000 else 2000

-- A line is "c" for the call and "f" for the failure.
abbrev codec : Codec TraceEvent
codec = record {
  parse = λ t. if t == codes "c" then some call else if t == codes "f" then some failure else none;
  is_object = λ j. true;
  schema_version = λ j. some "trace_event.v1";
  safe_parse = some;
  stringify = λ e. if e.timestamp == "t1" then codes "c" else codes "f";
}

abbrev paths : Paths
paths = record { dirname = λ p. p; basename = λ p. p }

abbrev file_path : Text
file_path = codes "/w/.tastekit/ops/traces/r1.jsonl"

abbrev workspace : Text
workspace = codes "/w"

tailing : Unit {0}
unfolding read_appended_lines clean split_lines ends_with_newline trim
tailing = tt

-- A line that was cut in two is given once it is whole.
cut_line :
    (read_appended_lines
      (λ b. b)
      (read_appended_lines (λ b. b) empty_tailer file_path (codes "a\nb")).0
      file_path
      (codes "a\nbc\n")).1.lines
    ≡ codes "bc" ∷ []
unfolding tailing
cut_line = refl

read-append_example :
    let first = read_appended_lines (λ b. b) empty_tailer file_path (codes "a\nb") in
    let second = read_appended_lines (λ b. b) first.0 file_path (codes "a\nb" ++ codes "c\n") in
    let whole = read_appended_lines (λ b. b) empty_tailer file_path (codes "a\nb" ++ codes "c\n") in
    (second.0 ≡ whole.0) × (first.1.lines ++ second.1.lines ≡ whole.1.lines)
read-append_example =
    read-append (λ b. b) empty_tailer file_path (codes "a\nb") (codes "c\n") (omega arith) refl

abbrev read_before : TraceTailer
read_before = record { offsets = (file_path, 9) ∷ []; remainders = (file_path, codes "x") ∷ [] }

read-rotated_example :
    let here = read_appended_lines (λ b. b) read_before file_path (codes "a\n") in
    let anew = read_appended_lines (λ b. b) empty_tailer file_path (codes "a\n") in
    (here.1.rotated ≡ true)
    × (here.1.lines ≡ anew.1.lines)
    × (offset_of here.0 file_path ≡ offset_of anew.0 file_path)
    × (remainder_of here.0 file_path ≡ remainder_of anew.0 file_path)
read-rotated_example = read-rotated (λ b. b) read_before file_path (codes "a\n") (omega arith)

read-frame_example :
    let r = read_appended_lines (λ b. b) read_before workspace (codes "a\n") in
    All (λ l. l ≢ []) r.1.lines
    × (lookup file_path r.0.offsets ≡ some 9)
    × (lookup file_path r.0.remainders ≡ some (codes "x"))
read-frame_example =
    read-frame (λ b. b) read_before workspace (codes "a\n") file_path
      (λ e. ground (arith, text_key.same_iff workspace file_path))

parse_trace_lines-counts_example :
    let r = parse_trace_lines codec (codes "c" ∷ codes "?" ∷ codes " " ∷ []) in
    let lines = filled (codes "c" ∷ codes "?" ∷ codes " " ∷ []) in
    (r.stats.total_lines ≡ length lines)
    × (r.stats.malformed_lines ≡ length (filter (λ l. not (is_json codec (λ j. true) l)) lines))
    × (r.stats.unknown_schema_version
        ≡ length (filter (is_json codec (λ j. not (has_version codec j))) lines))
    × (r.stats.invalid_events
        ≡ length (
            filter
              (is_json codec (λ j. has_version codec j && not (is_some (codec.safe_parse j))))
              lines))
    × (r.events ≡ events_of codec lines)
    × (r.stats.parsed_events ≡ length r.events)
    × (r.stats.total_lines
        ≡ r.stats.parsed_events + r.stats.malformed_lines + r.stats.invalid_events
          + r.stats.unknown_schema_version)
parse_trace_lines-counts_example =
    parse_trace_lines-counts codec (codes "c" ∷ codes "?" ∷ codes " " ∷ [])

parse_trace_lines-append_example :
    let r = parse_trace_lines codec (codes "c" ∷ []) in
    let s = parse_trace_lines codec (codes "f" ∷ []) in
    parse_trace_lines codec (codes "c" ∷ codes "f" ∷ [])
    ≡ record { events = r.events ++ s.events; stats = merge_parser_stats r.stats s.stats }
parse_trace_lines-append_example = parse_trace_lines-append codec (codes "c" ∷ []) (codes "f" ∷ [])

derive_status-Summary_example :
    Summary time_of
      (failure ∷ call ∷ [])
      5000
      60000
      (derive_status time_of (failure ∷ call ∷ []) 5000 60000)
derive_status-Summary_example = derive_status-Summary time_of failure (call ∷ []) 5000 60000

derive_status-duration_example :
    All
      (λ a.
        All
          (λ b.
            at time_of b - at time_of a
            ≤ (derive_status time_of (failure ∷ call ∷ []) 5000 60000).run_duration_ms)
          (failure ∷ call ∷ []))
      (failure ∷ call ∷ [])
derive_status-duration_example = derive_status-duration time_of (failure ∷ call ∷ []) 5000 60000

-- A store that keeps two rows of an agent and holds one.
abbrev stored_row : EventRow
stored_row = record {
  id = 4;
  agent_id = workspace;
  run_id = "r1";
  event_type = tool_call;
  timestamp = "t1";
  summary = "tool_call:files:read";
  raw_json = codes "c";
  created_at = 10;
}

abbrev agent_snapshot : AgentSnapshot
agent_snapshot = record {
  agent_id = workspace;
  workspace_path = workspace;
  display_name = workspace;
  status = running;
  current_task = some "files:read";
  last_event_at = some "t1";
  error_count = 0;
  approvals_pending = 0;
  tool_calls = 1;
  run_duration_ms = 0;
}

abbrev store : SqliteStore
store = record {
  agents = record { snapshot = agent_snapshot; created_at = 10; updated_at = 10 } ∷ [];
  recent_events = stored_row ∷ [];
  next_id = 5;
  retention_per_agent = 2;
}

store-IsFresh : IsFresh store.recent_events store.next_id
store-IsFresh = record { below = (omega arith, tt); distinct = (refl, tt) }

append_events-rows_example :
    filter
      (of_agent workspace)
      (append_events codec store
        (to_stored_events workspace (failure ∷ call ∷ []))
        20).recent_events
    ≡ take_last 2
        (stored_row ∷ rows_from codec 20 5 (to_stored_events workspace (failure ∷ call ∷ [])))
append_events-rows_example =
    append_events-rows codec store (to_stored_events workspace (failure ∷ call ∷ [])) 20 workspace
      store-IsFresh

upsert_agent-find_example :
    find (has_id workspace) (upsert_agent store agent_snapshot 30).agents
    ≡ some (record { snapshot = agent_snapshot; created_at = 10; updated_at = 30 })
upsert_agent-find_example = upsert_agent-find store agent_snapshot 30 workspace

abbrev service : IngestionService
service = record {
  store = store;
  staleness_ms = 60000;
  cumulative_parser_stats = no_stats;
  watched_directories = [];
  published = [];
}

ingesting : Unit {0}
unfolding trim parse_trace_lines extract_workspace_from_trace_path
ingesting = tt

ingest_lines-Ingested_example :
    Ingested codec paths time_of service
      (ingest_lines codec paths time_of service file_path (codes "f" ∷ []) 5000)
      workspace
      (call ∷ [])
      (failure ∷ [])
      5000
unfolding ingesting
ingest_lines-Ingested_example =
    ingest_lines-Ingested codec paths time_of service file_path (codes "f" ∷ []) (call ∷ []) 5000
      ((call, refl, refl), tt) store-IsFresh refl (λ e. cc)

stats-ingest_twice_example :
    (ingest_lines codec paths time_of
      (ingest_lines codec paths time_of service file_path (codes "f" ∷ []) 5000)
      file_path
      (codes "?" ∷ [])
      6000).cumulative_parser_stats
    ≡ (ingest_lines codec paths time_of service file_path
        (codes "f" ∷ codes "?" ∷ [])
        5000).cumulative_parser_stats
stats-ingest_twice_example =
    stats-ingest_twice codec paths time_of service file_path (codes "f" ∷ []) (codes "?" ∷ []) 5000
      6000

abbrev dashboard : DashboardState
dashboard = create_dashboard_state (agent_snapshot ∷ [])

apply_stream_event-Shown_example :
    Shown dashboard
      (agent_updated agent_snapshot)
      (apply_stream_event dashboard (agent_updated agent_snapshot))
      workspace
apply_stream_event-Shown_example =
    apply_stream_event-Shown dashboard (agent_updated agent_snapshot) workspace

apply_stream-IsWithin_example :
    IsWithin (apply_stream dashboard (agent_updated agent_snapshot ∷ []))
apply_stream-IsWithin_example =
    apply_stream-IsWithin dashboard (agent_updated agent_snapshot ∷ [])
      (record { distinct = (refl, tt); events = λ id. omega arith; alerts = omega arith })
