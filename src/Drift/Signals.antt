-- ===== src/Drift/Signals.antt =====
-- The signals that detector.ts reads from the events, one function for each of its methods.
-- `time_of` is `new Date(timestamp).getTime()` in milliseconds, none for an invalid date.
use oss_agent_tools.Prelude.{
  ℕ, ◌+◌, ◌-◌, ◌*◌, ◌/◌, String, Bool, false, not, ◌&&◌, ◌||◌, Option, none, some, List, [], ◌∷◌,
  ◌++◌, ◌==◌, string_key, contains, add, lookup, insert, map, filter, length, take, ltb, or_else,
  is_some, if◌then◌else◌,
}
use oss_agent_tools.Trace.{
  TraceEvent, EventType, Value, bool, str, agent, user, tool_call, approval_response,
  artifact_written, event_key, is_actor, truthy, detail, filter_by_event_type, get_errors,
}
use oss_agent_tools.Details.{one, many, count, text, texts, value_key, falsy_or, nullish_or}
use oss_agent_tools.AutoManage.Text.{Text}
use oss_agent_tools.Drift.{
  repeated_edit, principle_violation, user_correction, tool_change, staleness, coverage_gap,
  assertion_mismatch, DriftDetectionOptions, DriftSignal,
}

-- `data?.approved === false`.
abbrev pub is_rejection : TraceEvent → Bool
is_rejection e = elim (detail e "approved") [ none ↦ false | some v ↦ v == bool false ]

abbrev pub rejections : List TraceEvent → List TraceEvent
rejections events = filter is_rejection (filter_by_event_type events approval_response)

abbrev pub reason_of : TraceEvent → Value
reason_of e = falsy_or (detail e "reason") (str "unknown")

-- `reasonCounts` after the rejections.
abbrev pub count_reasons : List TraceEvent → List (Value × ℕ) → List (Value × ℕ)
count_reasons [] counts = counts
count_reasons (e ∷ es) counts =
    count_reasons es (insert (reason_of e) (or_else (lookup (reason_of e) counts) 0 + 1) counts)

abbrev pub reason_signal : Value × ℕ → DriftSignal
reason_signal (reason, n) = record {
  signal_type = repeated_edit;
  frequency = n;
  context = ("reason", one reason) ∷ [];
}

unfoldable pub detect_repeated_edits : List TraceEvent → List DriftSignal
detect_repeated_edits events =
    if ltb 0 (length (rejections events))
    then map reason_signal (count_reasons (rejections events) [])
    else []

-- `e.error ?? 'unknown'`.
abbrev pub error_text : TraceEvent → String
error_text e = or_else e.error_message "unknown"

unfoldable pub detect_principle_violations : List TraceEvent → List DriftSignal
detect_principle_violations events =
    let errors = get_errors events in
    if ltb 0 (length errors)
    then record {
      signal_type = principle_violation;
      frequency = length errors;
      context = ("errors", texts (map error_text (take 5 errors))) ∷ [];
    }
      ∷ []
    else []

-- Less than five minutes later, or earlier; an invalid date compares as false.
abbrev within_five_minutes : Option ℕ → Option ℕ → Bool
within_five_minutes (some a) (some b) = ltb (b - a) 300000
within_five_minutes _ _ = false

abbrev tools_called : List TraceEvent → List TraceEvent
tools_called events = filter (λ e. e.event_type == tool_call && truthy e.tool_ref) events

abbrev pub skill_of : TraceEvent → String
skill_of e = or_else e.skill_id "_global"

-- `toolsBySkill` after the calls.
abbrev pub group_tools : List TraceEvent → List (String × List String) → List (String × List String)
group_tools [] groups = groups
group_tools (e ∷ es) groups = group_tools es (
    insert (skill_of e) (add (or_else e.tool_ref "") (or_else (lookup (skill_of e) groups) []))
      groups)

abbrev pub tool_signals : List (String × List String) → List DriftSignal
tool_signals [] = []
tool_signals ((skill, tools) ∷ rest) =
    if ltb 1 (length tools)
    then record {
      signal_type = tool_change;
      frequency = length tools;
      context = ("skill_id", text skill) ∷ ("tools_used", texts tools) ∷ [];
    }
      ∷ tool_signals rest
    else tool_signals rest

abbrev pub tools_by_skill : List TraceEvent → List (String × List String)
tools_by_skill events = group_tools (tools_called events) []

unfoldable pub detect_tool_changes : List TraceEvent → List DriftSignal
detect_tool_changes events = tool_signals (tools_by_skill events)

-- The references that the events name, each once.
abbrev pub used_refs : (TraceEvent → Option String) → List TraceEvent → List String → List String
used_refs ref [] used = used
used_refs ref (e ∷ es) used =
    used_refs ref es (if truthy (ref e) then add (or_else (ref e) "") used else used)

abbrev pub unknown_refs : (TraceEvent → Option String) → List TraceEvent → List String → List String
unknown_refs ref events known = filter (λ r. not (contains r known)) (used_refs ref events [])

unfoldable pub detect_coverage_gaps : List TraceEvent → List String → List String → List DriftSignal
detect_coverage_gaps events known_skill_ids known_tool_refs =
    let unknown_skills = unknown_refs (λ e. e.skill_id) events known_skill_ids in
    let unknown_tools = unknown_refs (λ e. e.tool_ref) events known_tool_refs in
    if ltb 0 (length unknown_skills + length unknown_tools)
    then record {
      signal_type = coverage_gap;
      frequency = length unknown_skills + length unknown_tools;
      context =
          ("unknown_skills", texts unknown_skills) ∷ ("unknown_tools", texts unknown_tools) ∷ [];
    }
      ∷ []
    else []

abbrev refs_of : TraceEvent → List String
refs_of e = or_else e.principle_refs []

abbrev add_all : List String → List String → List String
add_all [] set = set
add_all (p ∷ ps) set = add_all ps (add p set)

abbrev affected : List TraceEvent → List String → List String
affected [] set = set
affected (e ∷ es) set = affected es (add_all (refs_of e) set)

unfoldable pub detect_assertion_mismatches : List TraceEvent → List DriftSignal
detect_assertion_mismatches events =
    let principle_events = filter (λ e. ltb 0 (length (refs_of e))) events in
    let errors_with_principles = filter (λ e. e.event_type == EventType.error) principle_events in
    if ltb 0 (length errors_with_principles)
    then record {
      signal_type = assertion_mismatch;
      frequency = length errors_with_principles;
      context =
          ("affected_principles", texts (affected errors_with_principles []))
          ∷ ("sample_errors", texts (map error_text (take 3 errors_with_principles)))
          ∷ [];
    }
      ∷ []
    else []

abbrev day_ms : ℕ
day_ms = 86400000

-- What a parsed constitution says of its age: `generated_at` and its time; none where the text is
-- no JSON, or the date is invalid, so that the comparison is false.
abbrev staleness_from : Option (String × ℕ) → Option ℕ → List DriftSignal
staleness_from none latest = []
staleness_from (some generated) none = []
staleness_from (some (generated_at, generated)) (some latest) =
    if ltb (30 * day_ms) (latest - generated)
    then record {
      signal_type = staleness;
      frequency = (latest - generated) / day_ms;
      context =
          ("generated_at", text generated_at)
          ∷ ("days_since", count ((latest - generated) / day_ms))
          ∷ [];
    }
      ∷ []
    else []

abbrev last_event : TraceEvent → List TraceEvent → TraceEvent
last_event e [] = e
last_event e (f ∷ fs) = last_event f fs

module _ (time_of : String → Option ℕ) where
  abbrev pub is_correction : TraceEvent → TraceEvent → Bool
  is_correction prev curr =
      prev.event_type == artifact_written
      && is_actor prev.actor agent
      && curr.event_type == artifact_written
      && is_actor curr.actor user
      && within_five_minutes (time_of prev.timestamp) (time_of curr.timestamp)

  -- `corrections` and `correctedArtifacts` after the events that follow `prev`.
  abbrev pub corrections : TraceEvent → List TraceEvent → ℕ × List Value → ℕ × List Value
  corrections prev [] found = found
  corrections prev (curr ∷ rest) (n, artifacts) = corrections curr rest (
      if is_correction prev curr
      then (n + 1, add (nullish_or (detail prev "path") (str "unknown")) artifacts)
      else (n, artifacts))

  abbrev pub corrections_in : List TraceEvent → ℕ × List Value
  corrections_in [] = (0, [])
  corrections_in (e ∷ es) = corrections e es (0, [])

  unfoldable pub detect_user_corrections : List TraceEvent → List DriftSignal
  detect_user_corrections events =
      let (n, artifacts) = corrections_in events in
      if ltb 0 n
      then record {
        signal_type = user_correction;
        frequency = n;
        context = ("corrected_artifacts", many artifacts) ∷ [];
      }
        ∷ []
      else []

  abbrev latest_trace : List TraceEvent → ℕ → Option ℕ
  latest_trace [] now = some now
  latest_trace (e ∷ es) now = time_of (last_event e es).timestamp

  module _ (files : String → Option Text) (generated : Text → Option (String × ℕ)) (now : ℕ) where
    abbrev parsed : Option Text → Option (String × ℕ)
    parsed none = none
    parsed (some []) = none
    parsed (some (c ∷ s)) = generated (c ∷ s)

    unfoldable pub detect_staleness : List TraceEvent → String → List DriftSignal
    detect_staleness events path = staleness_from (parsed (files path)) (latest_trace events now)

    unfoldable pub detect_signals : List TraceEvent → DriftDetectionOptions → List DriftSignal
    unfolding detect_staleness
    detect_signals events options =
        detect_repeated_edits events
        ++ detect_principle_violations events
        ++ detect_user_corrections events
        ++ detect_tool_changes events
        ++ (if truthy options.constitution_path
            then detect_staleness events (or_else options.constitution_path "")
            else [])
        ++ (if is_some options.known_skill_ids || is_some options.known_tool_refs
            then detect_coverage_gaps events (or_else options.known_skill_ids [])
                (or_else options.known_tool_refs [])
            else [])
        ++ detect_assertion_mismatches events
