-- ===== src/AutoManage/Ingest/Effects.antt =====
-- What one call of `ingestLines` puts on the stream and adds to the counters.
use oss_agent_tools.Prelude.{ℕ, ◌+◌, ◌≡◌, refl, ap, sym, ◌∙◌, String, List, [], ◌∷◌, ◌++◌, arith}
use oss_agent_tools.Trace.{TraceEvent}
use oss_agent_tools.AutoManage.Text.{Text}
use oss_agent_tools.AutoManage.Parser.{Codec, ParserStats, parse_trace_lines, merge_parser_stats}
use oss_agent_tools.AutoManage.Parser.Laws.{parse_trace_lines-total, parse_trace_lines-append}
use oss_agent_tools.AutoManage.Ingest.{
  IngestionService, Paths, ingest_lines, ingest_events, when_events,
}

-- Every line that a service has counted has been put into one of four classes.
abbrev IsBalanced : ParserStats → Type 0
IsBalanced s =
    s.total_lines
    ≡ s.parsed_events + s.malformed_lines + s.invalid_events + s.unknown_schema_version

merge-IsBalanced :
    (s t : ParserStats) → IsBalanced s → IsBalanced t → IsBalanced (merge_parser_stats s t)
unfolding merge_parser_stats
merge-IsBalanced s t h k = omega arith

merge_assoc :
    (s t u : ParserStats)
    → merge_parser_stats (merge_parser_stats s t) u ≡ merge_parser_stats s (merge_parser_stats t u)
unfolding merge_parser_stats
merge_assoc s t u = ground arith

module _ {Json : Type 0} (codec : Codec Json) (paths : Paths) (time_of : String → ℕ) where
  stats-when_events :
      (es : List TraceEvent) (s t : IngestionService)
      → s.cumulative_parser_stats ≡ t.cumulative_parser_stats
      → (when_events codec paths time_of es s t).cumulative_parser_stats ≡ s.cumulative_parser_stats
  stats-when_events [] s t h = refl
  stats-when_events (e ∷ es) s t h = sym h

  stats-ingest_lines :
      (s : IngestionService) (file_path : Text) (lines : List Text) (now : ℕ)
      → (ingest_lines codec paths time_of s file_path lines now).cumulative_parser_stats
        ≡ merge_parser_stats s.cumulative_parser_stats (parse_trace_lines codec lines).stats
  unfolding ingest_lines ingest_events
  stats-ingest_lines s file_path lines now =
      stats-when_events (parse_trace_lines codec lines).events _ _ refl

  -- The counters do not depend on how the lines are cut into calls: after two calls they are those
  -- of one call with all the lines.
  pub stats-ingest_twice :
      (s : IngestionService) (file_path : Text) (xs ys : List Text) (now later : ℕ)
      → (ingest_lines codec paths time_of
          (ingest_lines codec paths time_of s file_path xs now)
          file_path
          ys
          later).cumulative_parser_stats
        ≡ (ingest_lines codec paths time_of s file_path (xs ++ ys) now).cumulative_parser_stats
  stats-ingest_twice s file_path xs ys now later =
      stats-ingest_lines _ file_path ys later
      ∙ ap (λ t. merge_parser_stats t (parse_trace_lines codec ys).stats)
          (stats-ingest_lines s file_path xs now)
      ∙ merge_assoc _ _ _
      ∙ sym (
          stats-ingest_lines s file_path (xs ++ ys) now
          ∙ ap (λ r. merge_parser_stats s.cumulative_parser_stats r.stats)
              (parse_trace_lines-append codec xs ys))

  -- Every call keeps the counters balanced.
  ingest_lines-IsBalanced :
      (s : IngestionService) (file_path : Text) (lines : List Text) (now : ℕ)
      → IsBalanced s.cumulative_parser_stats
      → IsBalanced (ingest_lines codec paths time_of s file_path lines now).cumulative_parser_stats
  ingest_lines-IsBalanced s file_path lines now h = rw (stats-ingest_lines s file_path lines now) (
      merge-IsBalanced s.cumulative_parser_stats (parse_trace_lines codec lines).stats h
        (parse_trace_lines-total codec lines))
