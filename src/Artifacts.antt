-- ===== src/Artifacts.antt =====
-- What the compilers of the guardrails and of the memory policy read of a session:
-- TasteKit/tastekit/packages/core/schemas/workspace.ts and interview/interviewer.ts. Of the answers
-- these are the sections that the two compilers use; `N` is the type of numbers.
pub mod Guardrails
pub mod Memory
pub mod Playbooks
use oss_agent_tools.Prelude.{
  String, Bool, true, false, not, ◌&&◌, Option, none, some, List, ◌==◌, string_key, or_else,
  if◌then◌else◌, lookup, lookup-All, All, Option-cases, inl, inr,
}
use oss_agent_tools.Numbers.{Arithmetic}
use oss_agent_tools.AutoManage.Text.{Text}

pub record Tradeoffs (N : Type 0) : Type 0 where
  pub accuracy_vs_speed : N
  pub cost_sensitivity : N
  pub autonomy_level : N
  pub source_dimensions : List String

pub record Taboos : Type 0 where
  pub never_do : List Text
  pub must_escalate : List Text
  pub source_dimensions : List String

pub record StructuredAnswers (N : Type 0) : Type 0 where
  pub tradeoffs : Tradeoffs N
  pub taboos : Taboos

-- `autonomy_level` is `answers.tradeoffs?.autonomy_level` of the flat answers.
pub record SessionState (N : Type 0) : Type 0 where
  pub domain_id : Option String
  pub autonomy_level : Option N
  pub structured_answers : Option (StructuredAnswers N)

-- `session.domain_id || 'general-agent'`.
abbrev pub domain_of : {N : Type 0} → SessionState N → String
domain_of s = let id = or_else s.domain_id "" in if id == "" then "general-agent" else id

-- A table's entry for the domain, or the general agent's. The table is an object, so an id is not
-- the name of a member of every object, as `constructor`.
abbrev pub preset_for : {P : Type 0} → List (String × P) → P → String → P
preset_for table general id = or_else (lookup id table) general

-- `autonomy_level || 0.5`, where zero counts as missing.
abbrev or_half : {N : Type 0} → Arithmetic N → Option N → N
or_half a none = a.thousandths 500
or_half a (some x) =
    if not (a.lt (a.thousandths 0) x) && not (a.lt x (a.thousandths 0))
    then a.thousandths 500
    else x

abbrev pub legacy_autonomy : {N : Type 0} → Arithmetic N → SessionState N → N
legacy_autonomy a s = or_half a s.autonomy_level

-- What holds of the table's entries and of the general agent's holds of the one for a domain.
pub preset_for-All :
    {P : Type 0} (Q : P → Type 0) (table : List (String × P)) (general : P) (id : String)
    → All (λ e. Q e.1) table
    → Q general
    → Q (preset_for table general id)
preset_for-All Q table general id h g = elim (Option-cases (lookup id table)) [
  | inl e ↦ rw e g
  | inr (p, e) ↦ rw e (lookup-All (λ i q. Q q) id p table h e)
]
