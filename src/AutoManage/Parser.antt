-- ===== src/AutoManage/Parser.antt =====
-- autoManage/src/ingest/parser.ts, with contracts/trace.ts and the types of ingest/types.ts that it
-- fills. JSON's parser, the schema check of the zod library and the printer are the record `Codec`.
pub mod Laws
pub mod Counts
use oss_agent_tools.Prelude.{
  ℕ, ◌+◌, String, Bool, true, false, not, ◌&&◌, Option, none, some, List, [], ◌∷◌, ◌++◌, ◌==◌,
  string_key, length, if◌then◌else◌,
}
use oss_agent_tools.Trace.{TraceEvent}
use oss_agent_tools.AutoManage.Text.{Text, trim, is_empty}

-- `parse` is `JSON.parse`, `safe_parse` is `TraceEventSchema.safeParse`, `stringify` prints an event.
pub record Codec (Json : Type 0) : Type 0 where
  pub parse : Text → Option Json
  pub is_object : Json → Bool
  pub schema_version : Json → Option String
  pub safe_parse : Json → Option TraceEvent
  pub stringify : TraceEvent → Text

pub record ParserStats : Type 0 where
  pub total_lines : ℕ
  pub parsed_events : ℕ
  pub malformed_lines : ℕ
  pub invalid_events : ℕ
  pub unknown_schema_version : ℕ

pub record TraceBatchParseResult : Type 0 where
  pub events : List TraceEvent
  pub stats : ParserStats

abbrev pub no_stats : ParserStats
no_stats = record {
  total_lines = 0;
  parsed_events = 0;
  malformed_lines = 0;
  invalid_events = 0;
  unknown_schema_version = 0;
}

abbrev pub trace_event_schema_version : String
trace_event_schema_version = "trace_event.v1"

-- What becomes of a line.
pub data Verdict : Type 0 where
  blank malformed unknown invalid : Verdict
  parsed : TraceEvent → Verdict

-- The variables of the loop.
pub record Batch : Type 0 where
  pub events : List TraceEvent
  pub malformed_lines : ℕ
  pub invalid_events : ℕ
  pub unknown_schema_version : ℕ
  pub total_lines : ℕ

abbrev pub has_expected_trace_schema_version : Option String → Bool
has_expected_trace_schema_version none = false
has_expected_trace_schema_version (some v) = v == trace_event_schema_version

unfoldable pub tally : Batch → Verdict → Batch
tally b blank = b
tally b malformed = record b {
  total_lines = b.total_lines + 1;
  malformed_lines = b.malformed_lines + 1;
}
tally b unknown = record b {
  total_lines = b.total_lines + 1;
  unknown_schema_version = b.unknown_schema_version + 1;
}
tally b invalid = record b {
  total_lines = b.total_lines + 1;
  invalid_events = b.invalid_events + 1;
}
tally b (parsed e) = record b { total_lines = b.total_lines + 1; events = b.events ++ e ∷ [] }

abbrev pub checked : Option TraceEvent → Verdict
checked none = invalid
checked (some e) = parsed e

module _ {Json : Type 0} (codec : Codec Json) where
  abbrev pub parse_trace_event : Json → Option TraceEvent
  parse_trace_event payload = codec.safe_parse payload

  abbrev pub decoded : Option Json → Verdict
  decoded none = malformed
  decoded (some j) =
      if codec.is_object j && has_expected_trace_schema_version (codec.schema_version j)
      then checked (codec.safe_parse j)
      else unknown

  -- The body of the loop, up to its counters.
  unfoldable pub classify : Text → Verdict
  classify raw_line =
      let line = trim raw_line in if is_empty line then blank else decoded (codec.parse line)

  unfoldable pub parse_from : Batch → List Text → Batch
  parse_from b [] = b
  parse_from b (line ∷ lines) = parse_from (tally b (classify line)) lines

  unfoldable pub parse_trace_lines : List Text → TraceBatchParseResult
  unfolding parse_from tally classify
  parse_trace_lines lines =
      let b =
        parse_from
          (record {
            events = [];
            malformed_lines = 0;
            invalid_events = 0;
            unknown_schema_version = 0;
            total_lines = 0;
          })
          lines in
      record {
        events = b.events;
        stats = record {
          total_lines = b.total_lines;
          parsed_events = length b.events;
          malformed_lines = b.malformed_lines;
          invalid_events = b.invalid_events;
          unknown_schema_version = b.unknown_schema_version;
        };
      }

-- `mergeParserStats` of ingest/service.ts.
unfoldable pub merge_parser_stats : ParserStats → ParserStats → ParserStats
merge_parser_stats target update = record {
  total_lines = target.total_lines + update.total_lines;
  parsed_events = target.parsed_events + update.parsed_events;
  malformed_lines = target.malformed_lines + update.malformed_lines;
  invalid_events = target.invalid_events + update.invalid_events;
  unknown_schema_version = target.unknown_schema_version + update.unknown_schema_version;
}
