-- ===== src/AutoManage/Ingest.antt =====
-- autoManage/src/ingest/service.ts: parsed lines go through the status derivation into the store and
-- onto the stream. One call has one time, `now`. The functions of node's path library are the record
-- `Paths`, with the separator of POSIX.
pub mod History
pub mod Effects
use mathlib.Core.Option
use oss_agent_tools.Prelude.{
  ℕ, ◌+◌, String, concat, Bool, true, false, not, ◌&&◌, ◌||◌, Option, none, some, List, [], ◌∷◌,
  ◌++◌, map, reverse, ◌==◌, string_key, length, filter, or_else, nat_eq, if◌then◌else◌,
}
use oss_agent_tools.Trace.{
  TraceEvent, EventType, plan, think, tool_call, tool_result, approval_requested, approval_response,
  artifact_written, memory_write, evaluation, observation, tension, session_start, session_end,
  event_key, truthy,
}
use oss_agent_tools.AutoManage.Text.{Text, is_empty, split_lines}
use oss_agent_tools.AutoManage.Parser.{
  Codec, ParserStats, TraceBatchParseResult, no_stats, parse_trace_lines, parse_trace_event,
  merge_parser_stats,
}
use oss_agent_tools.AutoManage.Status.{
  AgentStatus, idle, running, blocked, error, completed, DerivedStatus, derive_status, codes,
}
use oss_agent_tools.AutoManage.Store.{
  AgentSnapshot, NewEvent, StoredEvent, SqliteStore, upsert_agent, append_events,
  list_recent_events, list_agents,
}
use oss_agent_tools.AutoManage.Bus.{
  DashboardEvent, AlertLevel, warning, Alert, StreamEvent, agent_updated, new_event, alert,
}

pub record Paths : Type 0 where
  pub dirname : Text → Text
  pub basename : Text → Text

abbrev pub event_name : EventType → String
event_name plan = "plan"
event_name think = "think"
event_name tool_call = "tool_call"
event_name tool_result = "tool_result"
event_name approval_requested = "approval_requested"
event_name approval_response = "approval_response"
event_name artifact_written = "artifact_written"
event_name memory_write = "memory_write"
event_name evaluation = "evaluation"
event_name EventType.error = "error"
event_name observation = "observation"
event_name tension = "tension"
event_name session_start = "session_start"
event_name session_end = "session_end"

unfoldable pub summarize_event : TraceEvent → String
summarize_event e =
    if e.event_type == EventType.error && truthy e.error_message
    then or_else e.error_message ""
    else if e.event_type == tool_call && truthy e.tool_ref
    then concat "tool_call:" (or_else e.tool_ref "")
    else if e.event_type == approval_requested
    then "approval requested"
    else event_name e.event_type

-- `startsWith`.
starts_with : Text → Text → Bool
starts_with [] s = true
starts_with (c ∷ p) [] = false
starts_with (c ∷ p) (d ∷ s) = nat_eq c d && starts_with p s

-- What stands before the first occurrence: `slice(0, indexOf(marker))`, none if there is none.
before_marker : Text → Text → Option Text
before_marker marker [] = if starts_with marker [] then some [] else none
before_marker marker (c ∷ s) =
    let rest = before_marker marker s in
    if starts_with marker (c ∷ s) then some [] else Option.map (◌∷◌ c) rest

unfoldable pub extract_workspace_from_trace_path : Paths → Text → Text
unfolding before_marker starts_with
extract_workspace_from_trace_path p file_path =
    or_else (before_marker (codes "/.tastekit/") file_path) (p.dirname (p.dirname file_path))

abbrev pub to_stored_event : Text → TraceEvent → NewEvent
to_stored_event agent_id e = record {
  agent_id = agent_id;
  run_id = e.run_id;
  event_type = e.event_type;
  timestamp = e.timestamp;
  summary = summarize_event e;
  raw_event = e;
}

abbrev pub to_stored_events : Text → List TraceEvent → List NewEvent
to_stored_events agent_id = map (to_stored_event agent_id)

-- The state of the service; `published` is what it has put on the stream.
pub record IngestionService : Type 0 where
  pub store : SqliteStore
  pub staleness_ms : ℕ
  pub cumulative_parser_stats : ParserStats
  pub watched_directories : List Text
  pub published : List StreamEvent

abbrev pub to_dashboard_event : Text → TraceEvent → StreamEvent
to_dashboard_event agent_id e = new_event agent_id (record {
  run_id = e.run_id;
  event_type = e.event_type;
  timestamp = e.timestamp;
  summary = summarize_event e;
})

status_alert : AgentSnapshot → ℕ → AlertLevel → Text → StreamEvent
status_alert s now level message = alert (record {
  id = record { agent = s.agent_id; time = now; status = s.status };
  level = level;
  message = message;
  agent_id = some s.agent_id;
  created_at = now;
})

-- An alert is raised for an error and for a wait for approval.
alerts_for : AgentStatus → AgentSnapshot → ℕ → List StreamEvent
unfolding status_alert
alerts_for error s now =
    status_alert s now AlertLevel.error
      (codes "Agent " ++ s.display_name ++ codes " reported an error.")
    ∷ []
alerts_for blocked s now =
    status_alert s now warning
      (codes "Agent " ++ s.display_name ++ codes " is waiting on approval.")
    ∷ []
alerts_for _ s now = []

unfoldable pub alerts_of : AgentSnapshot → ℕ → List StreamEvent
unfolding alerts_for
alerts_of s now = alerts_for s.status s now

module _ {Json : Type 0} (codec : Codec Json) where
  -- The stored events that still read as events: `map(parseTraceEvent)` and the filter on success.
  unfoldable pub valid_events : List (StoredEvent Json) → List TraceEvent
  valid_events [] = []
  valid_events (s ∷ ss) = elim s.raw_event [
    | none ↦ valid_events ss
    | some j ↦ elim (parse_trace_event codec j) [
      | none ↦ valid_events ss
      | some e ↦ e ∷ valid_events ss
    ]
  ]

module _ {Json : Type 0} (codec : Codec Json) (paths : Paths) (time_of : String → ℕ) where
  -- `store.listRecentEvents(agentId, 1000)`, oldest first.
  abbrev pub existing_raw_events : SqliteStore → Text → List TraceEvent
  existing_raw_events store agent_id =
      reverse (valid_events codec (list_recent_events codec store agent_id 1000))

  abbrev pub display_name_of : Text → Text
  display_name_of workspace_path =
      let base = paths.basename workspace_path in if is_empty base then workspace_path else base

  abbrev pub snapshot_of : Text → DerivedStatus → AgentSnapshot
  snapshot_of workspace_path d = record {
    agent_id = workspace_path;
    workspace_path = workspace_path;
    display_name = display_name_of workspace_path;
    status = d.status;
    current_task = d.current_task;
    last_event_at = d.last_event_at;
    error_count = d.error_count;
    approvals_pending = d.approvals_pending;
    tool_calls = d.tool_calls;
    run_duration_ms = d.run_duration_ms;
  }

  -- What follows the merge of the counters, where there are events.
  unfoldable pub ingest_events : IngestionService → Text → List TraceEvent → ℕ → IngestionService
  ingest_events s workspace_path events now =
      let combined = existing_raw_events s.store workspace_path ++ events in
      let snapshot =
        snapshot_of workspace_path (derive_status time_of combined now s.staleness_ms) in
      record s {
        store =
            append_events codec (upsert_agent s.store snapshot now)
              (to_stored_events workspace_path events) now;
        published =
            s.published
            ++ (agent_updated snapshot
                ∷ (map (to_dashboard_event workspace_path) events ++ alerts_of snapshot now));
      }

  abbrev pub when_events : List TraceEvent → IngestionService → IngestionService → IngestionService
  when_events [] unchanged ingested = unchanged
  when_events (e ∷ es) unchanged ingested = ingested

  unfoldable pub ingest_lines : IngestionService → Text → List Text → ℕ → IngestionService
  ingest_lines s file_path lines now =
      let parsed = parse_trace_lines codec lines in
      let s' = record s {
        cumulative_parser_stats = merge_parser_stats s.cumulative_parser_stats parsed.stats;
      } in
      when_events parsed.events s'
        (ingest_events s' (extract_workspace_from_trace_path paths file_path) parsed.events now)

  -- The trace files of a directory, in the order of their names, each with its content.
  unfoldable pub ingest_files : IngestionService → List (Text × Text) → ℕ → IngestionService
  ingest_files s [] now = s
  ingest_files s ((file_path, content) ∷ files) now =
      ingest_files (ingest_lines s file_path (split_lines content) now) files now
