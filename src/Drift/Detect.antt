-- ===== src/Drift/Detect.antt =====
-- `detectFromTraces` of detector.ts, with `readTrace` of
-- TasteKit/tastekit/packages/core/tracing/reader.ts. `parse` is `JSON.parse` of one line.
use oss_agent_tools.Prelude.{
  ℕ, ◌+◌, String, Bool, false, not, Option, none, some, List, [], ◌∷◌, ◌++◌, filter, leb, or_else,
  ◌>>=◌, if◌then◌else◌,
}
use oss_agent_tools.Trace.{TraceEvent, truthy, filter_by_skill}
use oss_agent_tools.AutoManage.Text.{Text, trim, split_lines, is_empty}
use oss_agent_tools.Drift.{DriftDetectionOptions, DriftSignal, DriftProposal}
use oss_agent_tools.Drift.Signals.{detect_signals}
use oss_agent_tools.Drift.Proposals.{Stamp, create_proposal_from_signal}

-- An invalid date is not after any.
abbrev not_before : ℕ → Option ℕ → Bool
not_before since none = false
not_before since (some t) = leb since t

-- The events of all lines; a line that does not parse throws.
abbrev parse_all : (Text → Option TraceEvent) → List Text → Option (List TraceEvent)
parse_all parse [] = some []
parse_all parse (line ∷ lines) = do e ← parse line; es ← parse_all parse lines; some (e ∷ es)

module _ (files : String → Option Text) (parse : Text → Option TraceEvent) where
  unfoldable pub read_trace : String → Option (List TraceEvent)
  read_trace path = do
    content ← files path
    parse_all parse (filter (λ line. not (is_empty line)) (split_lines (trim content)))

  unfoldable pub read_traces : List String → Option (List TraceEvent)
  unfolding read_trace
  read_traces [] = some []
  read_traces (path ∷ paths) = do
    events ← read_trace path
    more ← read_traces paths
    some (events ++ more)

module _ (show_object : ℕ → String) (stamps : ℕ → Stamp) where
  -- The proposals of the signals that were seen three times or more; the n-th takes the n-th stamp.
  unfoldable pub proposals_from : ℕ → List DriftSignal → List DriftProposal
  proposals_from n [] = []
  proposals_from n (signal ∷ signals) =
      let skipped = proposals_from n signals in
      let later = proposals_from (n + 1) signals in
      if leb 3 signal.frequency
      then create_proposal_from_signal show_object (stamps n) signal ∷ later
      else skipped

abbrev pub since_filtered : (String → Option ℕ) → Option ℕ → List TraceEvent → List TraceEvent
since_filtered time_of none events = events
since_filtered time_of (some since) events =
    filter (λ e. not_before since (time_of e.timestamp)) events

abbrev pub skill_filtered : Option String → List TraceEvent → List TraceEvent
skill_filtered skill events =
    if truthy skill then filter_by_skill events (or_else skill "") else events

module _ (time_of : String → Option ℕ) (files : String → Option Text)
    (generated : Text → Option (String × ℕ)) (now : ℕ) (show_object : ℕ → String)
    (stamps : ℕ → Stamp) where
  unfoldable pub detect_from_events : List TraceEvent → DriftDetectionOptions → List DriftProposal
  unfolding detect_signals proposals_from
  detect_from_events events options = proposals_from show_object stamps 0 (
      detect_signals time_of files generated now
        (skill_filtered options.skill_id (since_filtered time_of options.since events)) options)

  unfoldable pub detect_from_traces :
      (Text → Option TraceEvent) → List String → DriftDetectionOptions → Option (List DriftProposal)
  unfolding detect_from_events read_traces
  detect_from_traces parse paths options = do
    events ← read_traces files parse paths
    some (detect_from_events events options)
