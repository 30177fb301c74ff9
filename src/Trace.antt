-- ===== src/Trace.antt =====
-- Trace events: TasteKit/tastekit/packages/core/schemas/trace.ts and the selections of
-- tracing/reader.ts beside it. A number is kept by its decimal text, as nothing computes with it.
use oss_agent_tools.Prelude.{
  ℕ, String, ◌≡◌, refl, ap, ◌∙◌, sym, ◌↔◌, Bool, true, false, not, Option, none, some, List, Key,
  ◌==◌, nat_key, nat_eq, nat_eq_iff, string_key, lookup, filter, if◌then◌else◌,
}

pub data EventType : Type 0 where
  plan think tool_call tool_result approval_requested approval_response artifact_written
        memory_write evaluation error observation tension session_start session_end :
      EventType

pub data Actor : Type 0 where
  agent user system : Actor

pub data ObservationCategory : Type 0 where
  methodology process friction surprise quality : ObservationCategory

pub data TensionStatus : Type 0 where
  pending resolved dissolved : TensionStatus

pub record Tension : Type 0 where
  pub description : String
  pub involves : List String
  pub status : TensionStatus

-- A value of the open record `data`; an array or an object is known by its identity.
pub data Value : Type 0 where
  null : Value
  bool : Bool → Value
  number : String → Value
  str : String → Value
  reference : ℕ → Value

pub record Cost : Type 0 where
  pub tokens : Option String
  pub time_ms : Option String

pub record TraceEvent : Type 0 where
  pub run_id : String
  pub timestamp : String
  pub actor : Actor
  pub skill_id : Option String
  pub playbook_id : Option String
  pub step_id : Option String
  pub event_type : EventType
  pub tool_ref : Option String
  pub input_hash : Option String
  pub output_hash : Option String
  pub risk_score : Option String
  pub principle_refs : Option (List String)
  pub cost : Option Cost
  pub details : Option (List (String × Value))
  pub error_message : Option String
  pub observation_category : Option ObservationCategory
  pub tension_details : Option Tension

-- The place of a type in the enumeration.
abbrev event_index : EventType → ℕ
event_index plan = 0
event_index think = 1
event_index tool_call = 2
event_index tool_result = 3
event_index approval_requested = 4
event_index approval_response = 5
event_index artifact_written = 6
event_index memory_write = 7
event_index evaluation = 8
event_index error = 9
event_index observation = 10
event_index tension = 11
event_index session_start = 12
event_index session_end = 13

abbrev event_at : ℕ → EventType
event_at n =
    if n == 0
    then plan
    else if n == 1
    then think
    else if n == 2
    then tool_call
    else if n == 3
    then tool_result
    else if n == 4
    then approval_requested
    else if n == 5
    then approval_response
    else if n == 6
    then artifact_written
    else if n == 7
    then memory_write
    else if n == 8
    then evaluation
    else if n == 9
    then error
    else if n == 10
    then observation
    else if n == 11
    then tension
    else if n == 12
    then session_start
    else session_end

event_at-index : (t : EventType) → event_at (event_index t) ≡ t
event_at-index plan = refl
event_at-index think = refl
event_at-index tool_call = refl
event_at-index tool_result = refl
event_at-index approval_requested = refl
event_at-index approval_response = refl
event_at-index artifact_written = refl
event_at-index memory_write = refl
event_at-index evaluation = refl
event_at-index error = refl
event_at-index observation = refl
event_at-index tension = refl
event_at-index session_start = refl
event_at-index session_end = refl

abbrev pub event_eq : EventType → EventType → Bool
event_eq a b = nat_eq (event_index a) (event_index b)

pub event_eq_iff : (a b : EventType) → (event_eq a b ≡ true) ↔ (a ≡ b)
event_eq_iff a b = (
  λ e. sym (event_at-index a) ∙ ap event_at ((nat_eq_iff _ _).0 e) ∙ event_at-index b,
  λ e. (nat_eq_iff _ _).1 (ap event_index e),
)

instance abbrev pub event_key : Key EventType
event_key = record { same = event_eq; same_iff = event_eq_iff }

abbrev pub is_actor : Actor → Actor → Bool
is_actor agent agent = true
is_actor user user = true
is_actor system system = true
is_actor _ _ = false

-- A string that is there and not empty.
abbrev pub truthy : Option String → Bool
truthy none = false
truthy (some s) = not (s == "")

-- `data?.[key]`; a missing key reads as undefined.
abbrev pub detail : TraceEvent → String → Option Value
detail e key = elim e.details [ none ↦ none | some fields ↦ lookup key fields ]

abbrev is_skill : String → Option String → Bool
is_skill id none = false
is_skill id (some s) = s == id

abbrev pub filter_by_event_type : List TraceEvent → EventType → List TraceEvent
filter_by_event_type events t = filter (λ e. e.event_type == t) events

unfoldable pub filter_by_skill : List TraceEvent → String → List TraceEvent
filter_by_skill events id = filter (λ e. is_skill id e.skill_id) events

unfoldable pub filter_by_actor : List TraceEvent → Actor → List TraceEvent
filter_by_actor events a = filter (λ e. is_actor e.actor a) events

abbrev pub get_errors : List TraceEvent → List TraceEvent
get_errors events = filter_by_event_type events error
