-- ===== src/AutoManage/Bus.antt =====
-- autoManage/src/runtime/events.ts: the messages of the stream between the ingestion service and
-- the dashboard. The bus delivers a message to its subscribers as it is published, so a run of it
-- is the list of the messages in order.
use oss_agent_tools.Prelude.{ℕ, String, Option}
use oss_agent_tools.Trace.{EventType}
use oss_agent_tools.AutoManage.Text.{Text}
use oss_agent_tools.AutoManage.Status.{AgentStatus}
use oss_agent_tools.AutoManage.Store.{AgentSnapshot}

-- `DashboardEvent` of ui/state.ts as well.
pub record DashboardEvent : Type 0 where
  pub run_id : String
  pub event_type : EventType
  pub timestamp : String
  pub summary : String

pub data AlertLevel : Type 0 where
  warning error : AlertLevel

-- The parts that the alert's id joins.
pub record AlertId : Type 0 where
  pub agent : Text
  pub time : ℕ
  pub status : AgentStatus

pub record Alert : Type 0 where
  pub id : AlertId
  pub level : AlertLevel
  pub message : Text
  pub agent_id : Option Text
  pub created_at : ℕ

pub data StreamEvent : Type 0 where
  agent_updated : AgentSnapshot → StreamEvent
  new_event : Text → DashboardEvent → StreamEvent
  alert : Alert → StreamEvent
