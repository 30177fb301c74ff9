-- ===== src/AutoManage/Dashboard/Laws.antt =====
-- The dashboard shows the last snapshot of each agent, and keeps its lists within their limits.
use oss_agent_tools.Prelude.{
  ◌≤◌, ◌≡◌, refl, ap, subst, sym, ◌⊎◌, inl, inr, Bool, true, false, Option, none, some, List, [],
  ◌∷◌, map, find, ◌==◌, text_key, contains, Distinct, lookup, insert, lookup-insert, or_else, take,
  length, length-take-le, if◌then◌else◌, Bool-cases, arith,
}
use oss_agent_tools.AutoManage.Text.{Text}
use oss_agent_tools.AutoManage.Store.{AgentSnapshot}
use oss_agent_tools.AutoManage.Bus.{DashboardEvent, StreamEvent, agent_updated, new_event, alert}
use oss_agent_tools.AutoManage.Dashboard.{
  DashboardState, replace_agent, next_agents, apply_stream_event, apply_stream,
}

abbrev pub shows : Text → AgentSnapshot → Bool
shows id a = a.agent_id == id

abbrev pub shown_ids : List AgentSnapshot → List Text
shown_ids = map (λ a. a.agent_id)

-- What a replacement does to the agent that is found under an id, and to the ids.
abbrev Replaced : AgentSnapshot → Text → List AgentSnapshot → Option (List AgentSnapshot) → Type 0
Replaced s id agents none =
    (find (shows s.agent_id) agents ≡ none) × (contains s.agent_id (shown_ids agents) ≡ false)
Replaced s id agents (some more) =
    (find (shows id) more ≡ (if s.agent_id == id then some s else find (shows id) agents))
    × (shown_ids more ≡ shown_ids agents)

replace_agent-Replaced :
    (s : AgentSnapshot) (id : Text) (agents : List AgentSnapshot)
    → Replaced s id agents (replace_agent s agents)
unfolding replace_agent
replace_agent-Replaced s id [] = (refl, refl)
replace_agent-Replaced s id (a ∷ rest) =
    go (Bool-cases (a.agent_id == s.agent_id)) (replace_agent s rest)
      (replace_agent-Replaced s id rest)
  where
    go :
        ((a.agent_id == s.agent_id) ≡ true) ⊎ ((a.agent_id == s.agent_id) ≡ false)
        → (r : Option (List AgentSnapshot)) → Replaced s id rest r
        → Replaced s id (a ∷ rest) (
            if a.agent_id == s.agent_id
            then some (s ∷ rest)
            else elim r [ none ↦ none | some more ↦ some (a ∷ more) ])
    go (inl e) r ih =
        let same : a.agent_id ≡ s.agent_id = (text_key.same_iff _ _).0 e in
        rw e (
          ground (arith, same, text_key.same_iff a.agent_id id, text_key.same_iff s.agent_id id),
          ap (λ i. i ∷ shown_ids rest) (sym same),
        )
    go (inr e) none (missing, absent) = rw e (rw e missing, rw e absent)
    go (inr e) (some more) (found, same) = rw e (
      ground (
        arith,
        found,
        text_key.same_iff a.agent_id id,
        text_key.same_iff s.agent_id id,
        text_key.same_iff a.agent_id s.agent_id,
      ),
      ap (◌∷◌ a.agent_id) same,
    )

next_agents-find :
    (s : AgentSnapshot) (id : Text) (agents : List AgentSnapshot)
    → find (shows id) (next_agents s agents)
      ≡ (if s.agent_id == id then some s else find (shows id) agents)
unfolding next_agents
next_agents-find s id agents = go (replace_agent s agents) (replace_agent-Replaced s id agents)
  where
    go :
        (r : Option (List AgentSnapshot))
        → Replaced s id agents r
        → find (shows id) (or_else r (s ∷ agents))
          ≡ (if s.agent_id == id then some s else find (shows id) agents)
    go none h = refl
    go (some more) (found, same) = found

next_agents-Distinct :
    (s : AgentSnapshot) (agents : List AgentSnapshot)
    → Distinct (shown_ids agents)
    → Distinct (shown_ids (next_agents s agents))
unfolding next_agents
next_agents-Distinct s agents d =
    go (replace_agent s agents) (replace_agent-Replaced s s.agent_id agents)
  where
    go :
        (r : Option (List AgentSnapshot))
        → Replaced s s.agent_id agents r
        → Distinct (shown_ids (or_else r (s ∷ agents)))
    go none (_, absent) = (absent, d)
    go (some more) (_, same) = subst Distinct (sym same) d

abbrev pub events_of : DashboardState → Text → List DashboardEvent
events_of state id = or_else (lookup id state.events_by_agent) []

-- What each message changes of what is shown of an agent.
abbrev pub Shown : DashboardState → StreamEvent → DashboardState → Text → Type 0
Shown state (agent_updated s) after id =
    (find (shows id) after.agents
      ≡ (if s.agent_id == id then some s else find (shows id) state.agents))
    × (events_of after id ≡ events_of state id)
    × (after.alerts ≡ state.alerts)
Shown state (new_event agent_id event) after id =
    (after.agents ≡ state.agents)
    × (events_of after id
        ≡ (if agent_id == id then take 200 (event ∷ events_of state id) else events_of state id))
    × (after.alerts ≡ state.alerts)
Shown state (alert a) after id =
    (after.agents ≡ state.agents)
    × (events_of after id ≡ events_of state id)
    × (after.alerts ≡ take 50 (a ∷ state.alerts))

-- A message changes only what it is about: an update sets the snapshot of its agent, an event is put
-- before the newest 199 events of its agent, and an alert before the newest 49 alerts.
pub apply_stream_event-Shown :
    (state : DashboardState) (m : StreamEvent) (id : Text)
    → Shown state m (apply_stream_event state m) id
unfolding apply_stream_event
apply_stream_event-Shown state (agent_updated s) id =
    (next_agents-find s id state.agents, refl, refl)
apply_stream_event-Shown state (new_event agent_id event) id =
    (refl, at_event (Bool-cases (agent_id == id)), refl)
  where
    newer : List DashboardEvent
    newer = take 200 (event ∷ events_of state agent_id)

    at_event :
        ((agent_id == id) ≡ true) ⊎ ((agent_id == id) ≡ false)
        → or_else (lookup id (insert agent_id newer state.events_by_agent)) []
          ≡ (if agent_id == id then take 200 (event ∷ events_of state id) else events_of state id)
    at_event (inl e) =
        rw (lookup-insert agent_id id newer state.events_by_agent, e)
          (ap (λ i. take 200 (event ∷ events_of state i)) ((text_key.same_iff _ _).0 e))
    at_event (inr e) = rw (lookup-insert agent_id id newer state.events_by_agent, e)
apply_stream_event-Shown state (alert a) id = (refl, refl, refl)

-- One entry for an agent, and lists within their limits.
pub record IsWithin (state : DashboardState) : Type 0 where
  pub distinct : Distinct (shown_ids state.agents)
  pub events : (id : Text) → length (events_of state id) ≤ 200
  pub alerts : length state.alerts ≤ 50

apply_stream_event-IsWithin :
    (state : DashboardState) (m : StreamEvent)
    → IsWithin state
    → IsWithin (apply_stream_event state m)
unfolding apply_stream_event
apply_stream_event-IsWithin state (agent_updated s) w = record {
  distinct = next_agents-Distinct s state.agents w.distinct;
  events = w.events;
  alerts = w.alerts;
}
apply_stream_event-IsWithin state (new_event agent_id event) w = record {
  distinct = w.distinct;
  events = λ id.
      let (_, e, _) = apply_stream_event-Shown state (new_event agent_id event) id in
      subst (λ l. length l ≤ 200) (sym e) (bounded id);
  alerts = w.alerts;
}
  where
    bounded :
        (id : Text)
        → length
            (if agent_id == id then take 200 (event ∷ events_of state id) else events_of state id)
          ≤ 200
    bounded id = elim (Bool-cases (agent_id == id)) [
      | inl e ↦ rw e (length-take-le 200 (event ∷ events_of state id))
      | inr e ↦ rw e (w.events id)
    ]
apply_stream_event-IsWithin state (alert a) w = record {
  distinct = w.distinct;
  events = w.events;
  alerts = length-take-le 50 (a ∷ state.alerts);
}

-- A dashboard with distinct agents, at most 200 events of each agent and at most 50 alerts stays so,
-- whatever the stream carries.
pub apply_stream-IsWithin :
    (state : DashboardState) (ms : List StreamEvent)
    → IsWithin state
    → IsWithin (apply_stream state ms)
unfolding apply_stream
apply_stream-IsWithin state [] w = w
apply_stream-IsWithin state (m ∷ ms) w =
    apply_stream-IsWithin (apply_stream_event state m) ms (apply_stream_event-IsWithin state m w)
