-- ===== src/AutoManage/Dashboard.antt =====
-- autoManage/src/ui/state.ts: the state of the dashboard as it takes the messages of the stream.
pub mod Laws
use oss_agent_tools.Prelude.{
  ℕ, Bool, true, false, Option, none, some, List, [], ◌∷◌, ◌==◌, text_key, lookup, insert, or_else,
  take, if◌then◌else◌,
}
use oss_agent_tools.AutoManage.Text.{Text}
use oss_agent_tools.AutoManage.Store.{AgentSnapshot}
use oss_agent_tools.AutoManage.Bus.{
  DashboardEvent, Alert, StreamEvent, agent_updated, new_event, alert,
}

pub record DashboardState : Type 0 where
  pub agents : List AgentSnapshot
  pub events_by_agent : List (Text × List DashboardEvent)
  pub alerts : List Alert

abbrev pub create_dashboard_state : List AgentSnapshot → DashboardState
create_dashboard_state agents = record { agents = agents; events_by_agent = []; alerts = [] }

-- The agent at the first place with the id is replaced; none if there is none.
unfoldable pub replace_agent : AgentSnapshot → List AgentSnapshot → Option (List AgentSnapshot)
replace_agent incoming [] = none
replace_agent incoming (a ∷ as') =
    let rest = replace_agent incoming as' in
    if a.agent_id == incoming.agent_id
    then some (incoming ∷ as')
    else elim rest [ none ↦ none | some more ↦ some (a ∷ more) ]

-- A new agent is put in front.
unfoldable pub next_agents : AgentSnapshot → List AgentSnapshot → List AgentSnapshot
next_agents incoming agents = or_else (replace_agent incoming agents) (incoming ∷ agents)

unfoldable pub apply_stream_event : DashboardState → StreamEvent → DashboardState
apply_stream_event state (agent_updated incoming) = record state {
  agents = next_agents incoming state.agents;
}
apply_stream_event state (new_event agent_id event) =
    let existing = or_else (lookup agent_id state.events_by_agent) [] in
    record state {
      events_by_agent = insert agent_id (take 200 (event ∷ existing)) state.events_by_agent;
    }
apply_stream_event state (alert incoming) = record state {
  alerts = take 50 (incoming ∷ state.alerts);
}

-- The messages of a stream, one after the other.
unfoldable pub apply_stream : DashboardState → List StreamEvent → DashboardState
apply_stream state [] = state
apply_stream state (m ∷ ms) = apply_stream (apply_stream_event state m) ms
