-- ===== src/AutoManage/Store/Agents.antt =====
-- The table of agents: one row for each, whose snapshot is the last one written.
use oss_agent_tools.Prelude.{
  ℕ, ◌≡◌, refl, ap, sym, ◌∙◌, ◌≢◌, inl, inr, Bool, Option, none, some, List, [], ◌∷◌, map, find,
  ◌==◌, text_key, contains, Distinct, if◌then◌else◌, Bool-cases, arith,
}
use oss_agent_tools.AutoManage.Text.{Text}
use oss_agent_tools.AutoManage.Store.{
  AgentSnapshot, AgentRow, SqliteStore, upsert_row, upsert_agent,
}

abbrev pub has_id : Text → AgentRow → Bool
has_id id r = r.snapshot.agent_id == id

abbrev pub agent_ids : List AgentRow → List Text
agent_ids = map (λ r. r.snapshot.agent_id)

-- The creation time of a row, or the time of the call for a new one.
abbrev created : ℕ → Option AgentRow → ℕ
created now none = now
created now (some r) = r.created_at

upsert_row-find :
    (s : AgentSnapshot) (now : ℕ) (id : Text) (rows : List AgentRow)
    → find (has_id id) (upsert_row s now rows) ≡ (
        if s.agent_id == id
        then some (record {
          snapshot = s;
          created_at = created now (find (has_id id) rows);
          updated_at = now;
        })
        else find (has_id id) rows)
unfolding upsert_row
upsert_row-find s now id [] = refl
upsert_row-find s now id (r ∷ rs) = ground (
  arith,
  upsert_row-find s now id rs,
  text_key.same_iff r.snapshot.agent_id s.agent_id,
  text_key.same_iff r.snapshot.agent_id id,
  text_key.same_iff s.agent_id id,
)

contains-upsert :
    (s : AgentSnapshot) (now : ℕ) (id : Text) (rows : List AgentRow)
    → s.agent_id ≢ id
    → contains id (agent_ids (upsert_row s now rows)) ≡ contains id (agent_ids rows)
unfolding upsert_row
contains-upsert s now id [] h = ground (arith, text_key.same_iff s.agent_id id)
contains-upsert s now id (r ∷ rs) h = ground (
  arith,
  contains-upsert s now id rs h,
  text_key.same_iff r.snapshot.agent_id s.agent_id,
  text_key.same_iff r.snapshot.agent_id id,
  text_key.same_iff s.agent_id id,
)

upsert_row-Distinct :
    (s : AgentSnapshot) (now : ℕ) (rows : List AgentRow)
    → Distinct (agent_ids rows)
    → Distinct (agent_ids (upsert_row s now rows))
unfolding upsert_row
upsert_row-Distinct s now [] d = (refl, tt)
upsert_row-Distinct s now (r ∷ rs) (n, d) = elim (Bool-cases (r.snapshot.agent_id == s.agent_id)) [
  | inl e ↦ rw e (ap (λ i. contains i (agent_ids rs)) (sym ((text_key.same_iff _ _).0 e)) ∙ n, d)
  | inr e ↦ rw e (
    contains-upsert s now r.snapshot.agent_id rs
          (λ h. ground (arith, text_key.same_iff r.snapshot.agent_id s.agent_id))
        ∙ n,
    upsert_row-Distinct s now rs d,
  )
]

-- After an upsert the agent's row holds the new snapshot and time, and the creation time that it
-- had, or the time of the call if it is new; the rows of other agents are as they were.
pub upsert_agent-find :
    (store : SqliteStore) (s : AgentSnapshot) (now : ℕ) (id : Text)
    → find (has_id id) (upsert_agent store s now).agents ≡ (
        if s.agent_id == id
        then some (record {
          snapshot = s;
          created_at = created now (find (has_id id) store.agents);
          updated_at = now;
        })
        else find (has_id id) store.agents)
unfolding upsert_agent
upsert_agent-find store s now id = upsert_row-find s now id store.agents

-- An upsert keeps one row for each agent.
upsert_agent-Distinct :
    (store : SqliteStore) (s : AgentSnapshot) (now : ℕ)
    → Distinct (agent_ids store.agents)
    → Distinct (agent_ids (upsert_agent store s now).agents)
unfolding upsert_agent
upsert_agent-Distinct store s now d = upsert_row-Distinct s now store.agents d
