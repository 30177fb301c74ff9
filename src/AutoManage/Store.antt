-- ===== src/AutoManage/Store.antt =====
-- autoManage/src/storage/sqlite.ts over the tables of migrations.ts. A table is the list of its
-- rows in the order of their keys; each SQL statement is a function on it. Times are milliseconds.
pub mod Rows
pub mod Retention
pub mod Agents
use oss_agent_tools.Prelude.{
  ℕ, ◌+◌, String, Bool, true, false, not, ◌&&◌, ◌||◌, Option, none, some, List, [], ◌∷◌, ◌++◌, map,
  reverse, ◌==◌, nat_key, text_key, string_key, contains, add, length, filter, take, leb,
  if◌then◌else◌,
}
use oss_agent_tools.Trace.{TraceEvent, EventType}
use oss_agent_tools.AutoManage.Text.{Text}
use oss_agent_tools.AutoManage.Parser.{Codec}
use oss_agent_tools.AutoManage.Status.{AgentStatus}

-- `AgentSnapshot` of ingest/types.ts.
pub record AgentSnapshot : Type 0 where
  pub agent_id : Text
  pub workspace_path : Text
  pub display_name : Text
  pub status : AgentStatus
  pub current_task : Option String
  pub last_event_at : Option String
  pub error_count : ℕ
  pub approvals_pending : ℕ
  pub tool_calls : ℕ
  pub run_duration_ms : ℕ

-- A row of `agents`.
pub record AgentRow : Type 0 where
  pub snapshot : AgentSnapshot
  pub created_at : ℕ
  pub updated_at : ℕ

-- An event before it has an id: `Omit<StoredEvent, 'id'>`.
pub record NewEvent : Type 0 where
  pub agent_id : Text
  pub run_id : String
  pub event_type : EventType
  pub timestamp : String
  pub summary : String
  pub raw_event : TraceEvent

-- A row of `recent_events`.
pub record EventRow : Type 0 where
  pub id : ℕ
  pub agent_id : Text
  pub run_id : String
  pub event_type : EventType
  pub timestamp : String
  pub summary : String
  pub raw_json : Text
  pub created_at : ℕ

-- `next_id` is the AUTOINCREMENT counter of `recent_events`.
pub record SqliteStore : Type 0 where
  pub agents : List AgentRow
  pub recent_events : List EventRow
  pub next_id : ℕ
  pub retention_per_agent : ℕ

abbrev pub of_agent : Text → EventRow → Bool
of_agent id row = row.agent_id == id

abbrev pub ids : List EventRow → List ℕ
ids = map (λ r. r.id)

-- INSERT … ON CONFLICT(agent_id) DO UPDATE: all columns but `created_at` are set anew.
unfoldable pub upsert_row : AgentSnapshot → ℕ → List AgentRow → List AgentRow
upsert_row s now [] = record { snapshot = s; created_at = now; updated_at = now } ∷ []
upsert_row s now (r ∷ rs) =
    if r.snapshot.agent_id == s.agent_id
    then record r { snapshot = s; updated_at = now } ∷ rs
    else r ∷ upsert_row s now rs

unfoldable pub upsert_agent : SqliteStore → AgentSnapshot → ℕ → SqliteStore
unfolding upsert_row
upsert_agent store snapshot now = record store { agents = upsert_row snapshot now store.agents }

-- DELETE of an agent's rows whose id is not among its `limit` highest.
unfoldable pub prune_agent : Text → ℕ → List EventRow → List EventRow
prune_agent id limit rows =
    let newest = take limit (ids (reverse (filter (of_agent id) rows))) in
    filter (λ r. not (of_agent id r) || contains r.id newest) rows

module _ {Json : Type 0} (codec : Codec Json) where
  abbrev pub new_row : ℕ → ℕ → NewEvent → EventRow
  new_row now id e = record {
    id = id;
    agent_id = e.agent_id;
    run_id = e.run_id;
    event_type = e.event_type;
    timestamp = e.timestamp;
    summary = e.summary;
    raw_json = codec.stringify e.raw_event;
    created_at = now;
  }

  -- INSERT of one row, under the next id.
  unfoldable pub insert_event_row : ℕ → SqliteStore → NewEvent → SqliteStore
  insert_event_row now store e = record store {
    recent_events = store.recent_events ++ new_row now store.next_id e ∷ [];
    next_id = store.next_id + 1;
  }

  unfoldable pub insert_events : ℕ → SqliteStore → List NewEvent → SqliteStore
  insert_events now store [] = store
  insert_events now store (e ∷ es) = insert_events now (insert_event_row now store e) es

  -- The set of the agents that the events touch.
  unfoldable pub touched_agents : List Text → List NewEvent → List Text
  touched_agents touched [] = touched
  touched_agents touched (e ∷ es) = touched_agents (add e.agent_id touched) es

  unfoldable pub prune_agents : ℕ → List Text → List EventRow → List EventRow
  prune_agents limit [] rows = rows
  prune_agents limit (id ∷ rest) rows = prune_agents limit rest (prune_agent id limit rows)

  unfoldable pub append_events : SqliteStore → List NewEvent → ℕ → SqliteStore
  append_events store events now =
      let inserted = insert_events now store events in
      record inserted {
        recent_events =
            prune_agents store.retention_per_agent (touched_agents [] events)
              inserted.recent_events;
      }

-- A stored event as it is read: its summary is null if it is empty.
pub record StoredEvent (Json : Type 0) : Type 0 where
  pub id : ℕ
  pub agent_id : Text
  pub run_id : String
  pub event_type : EventType
  pub timestamp : String
  pub summary : Option String
  pub raw_event : Option Json

abbrev non_empty : String → Option String
non_empty s = if s == "" then none else some s

module _ {Json : Type 0} (codec : Codec Json) where
  unfoldable pub read_row : EventRow → StoredEvent Json
  read_row r = record {
    id = r.id;
    agent_id = r.agent_id;
    run_id = r.run_id;
    event_type = r.event_type;
    timestamp = r.timestamp;
    summary = non_empty r.summary;
    raw_event = codec.parse r.raw_json;
  }

  -- ORDER BY id DESC LIMIT ?
  unfoldable pub list_recent_events : SqliteStore → Text → ℕ → List (StoredEvent Json)
  unfolding read_row
  list_recent_events store id limit =
      map read_row (take limit (reverse (filter (of_agent id) store.recent_events)))

-- ORDER BY updated_at DESC; rows of the same time keep their order.
insert_by_update : AgentRow → List AgentRow → List AgentRow
insert_by_update r [] = r ∷ []
insert_by_update r (s ∷ ss) =
    if leb s.updated_at r.updated_at then r ∷ s ∷ ss else s ∷ insert_by_update r ss

sort_by_update : List AgentRow → List AgentRow
unfolding insert_by_update
sort_by_update [] = []
sort_by_update (r ∷ rs) = insert_by_update r (sort_by_update rs)

abbrev non_empty_option : Option String → Option String
non_empty_option none = none
non_empty_option (some s) = non_empty s

abbrev read_snapshot : AgentRow → AgentSnapshot
read_snapshot r = record (r.snapshot) {
  current_task = non_empty_option r.snapshot.current_task;
  last_event_at = non_empty_option r.snapshot.last_event_at;
}

unfoldable pub list_agents : SqliteStore → List AgentSnapshot
unfolding sort_by_update
list_agents store = map read_snapshot (sort_by_update store.agents)
