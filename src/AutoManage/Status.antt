-- ===== src/AutoManage/Status.antt =====
-- autoManage/src/status/derive.ts: the status of an agent from its trace events. `time_of` is
-- `new Date(timestamp).getTime()` in milliseconds, for times after 1970.
pub mod Laws
use oss_agent_tools.Prelude.{
  ℕ, ◌-◌, String, Bool, true, false, not, ◌&&◌, Option, none, some, List, [], ◌∷◌, reverse, ◌==◌,
  string_key, length, filter, find, leb, ltb, or_else, if◌then◌else◌, lookup,
}
use Prim.Native.Char.{code}
use oss_agent_tools.Trace.{
  TraceEvent, EventType, tool_call, approval_requested, approval_response, session_end, plan,
  event_key, Value, null, str, truthy, detail,
}
use oss_agent_tools.AutoManage.Text.{Text, trim, is_empty}

pub data AgentStatus : Type 0 where
  idle running blocked error completed : AgentStatus

pub record DerivedStatus : Type 0 where
  pub status : AgentStatus
  pub current_task : Option String
  pub last_event_at : Option String
  pub error_count : ℕ
  pub approvals_pending : ℕ
  pub tool_calls : ℕ
  pub run_duration_ms : ℕ

abbrev pub codes : String → Text
codes String.[] = []
codes (String.◌∷◌ c s) = code c ∷ codes s

abbrev pub count_type : EventType → List TraceEvent → ℕ
count_type t events = length (filter (λ e. e.event_type == t) events)

-- The event of the last place.
abbrev pub last_of : TraceEvent → List TraceEvent → TraceEvent
last_of e [] = e
last_of e (f ∷ fs) = last_of f fs

-- `task ?? goal`: a null passes on like a missing value.
plan_task : Option Value → Option Value → Option Value
plan_task none goal = goal
plan_task (some null) goal = goal
plan_task (some v) goal = some v

-- A task is a string with more than white space.
task_text : Option Value → Option String
task_text (some (str s)) = if is_empty (trim (codes s)) then none else some s
task_text _ = none

task_of_plan : Option TraceEvent → Option String
unfolding plan_task task_text
task_of_plan none = none
task_of_plan (some e) = task_text (plan_task (detail e "task") (detail e "goal"))

task_of_tool : Option TraceEvent → Option String
task_of_tool none = none
task_of_tool (some e) = e.tool_ref

-- The plan's task, if there is one, goes before the tool's.
prefer : Option String → Option String → Option String
prefer none o = o
prefer (some s) o = some s

pub current_task_of : List TraceEvent → Option String
unfolding task_of_plan task_of_tool prefer
current_task_of ordered =
    prefer (task_of_plan (find (λ e. e.event_type == plan) (reverse ordered)))
      (task_of_tool (find (λ e. e.event_type == tool_call && truthy e.tool_ref) (reverse ordered)))

module _ (time_of : String → ℕ) where
  abbrev pub at : TraceEvent → ℕ
  at e = time_of e.timestamp

  -- `sort` by time; it is stable, so an event goes before the later ones of the same time.
  pub insert_event : TraceEvent → List TraceEvent → List TraceEvent
  insert_event e [] = e ∷ []
  insert_event e (f ∷ fs) = if leb (at e) (at f) then e ∷ f ∷ fs else f ∷ insert_event e fs

  pub sort_events : List TraceEvent → List TraceEvent
  unfolding insert_event
  sort_events [] = []
  sort_events (e ∷ es) = insert_event e (sort_events es)

  pub status_of : TraceEvent → ℕ → ℕ → ℕ → AgentStatus
  status_of last_event approvals_pending now_ms staleness_ms =
      if last_event.event_type == EventType.error
      then error
      else if ltb 0 approvals_pending
      then blocked
      else if last_event.event_type == session_end
      then completed
      else if ltb staleness_ms (now_ms - at last_event)
      then idle
      else running

  pub derive_ordered : List TraceEvent → ℕ → ℕ → DerivedStatus
  unfolding status_of
  derive_ordered [] now_ms staleness_ms = record {
    status = idle;
    current_task = none;
    last_event_at = none;
    error_count = 0;
    approvals_pending = 0;
    tool_calls = 0;
    run_duration_ms = 0;
  }
  derive_ordered (first_event ∷ rest) now_ms staleness_ms =
      let ordered = first_event ∷ rest in
      let last_event = last_of first_event rest in
      let approvals_pending =
        count_type approval_requested ordered - count_type approval_response ordered in
      record {
        status = status_of last_event approvals_pending now_ms staleness_ms;
        current_task = current_task_of ordered;
        last_event_at = some last_event.timestamp;
        error_count = count_type EventType.error ordered;
        approvals_pending = approvals_pending;
        tool_calls = count_type tool_call ordered;
        run_duration_ms = at last_event - at first_event;
      }

  -- No events sort to no events, which is the first case of `derive_ordered`.
  unfoldable pub derive_status : List TraceEvent → ℕ → ℕ → DerivedStatus
  unfolding sort_events derive_ordered current_task_of
  derive_status events now_ms staleness_ms = derive_ordered (sort_events events) now_ms staleness_ms
