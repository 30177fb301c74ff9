-- ===== src/AutoManage/Parser/Counts.antt =====
-- The counters of a batch of lines in terms of what JSON's parser and the schema say of each line.
use oss_agent_tools.Prelude.{
  ◌+◌, String, ◌≡◌, refl, Bool, true, false, not, ◌&&◌, Option, none, some, List, [], ◌∷◌, ◌++◌,
  ◌==◌, string_key, filter, length, map, is_some, if◌then◌else◌, arith,
}
use oss_agent_tools.Trace.{TraceEvent}
use oss_agent_tools.AutoManage.Text.{Text, trim, is_empty}
use oss_agent_tools.AutoManage.Parser.{Codec, classify, parse_trace_lines}
use oss_agent_tools.AutoManage.Parser.Laws.{
  counted, is_malformed, is_unknown, is_invalid, accepted, number_of, parse-closed, counted-split,
}

-- The lines with something on them, without the blanks at their ends.
abbrev pub filled : List Text → List Text
filled lines = filter (λ l. not (is_empty l)) (map trim lines)

abbrev is_version : Option String → Bool
is_version none = false
is_version (some v) = v == "trace_event.v1"

module _ {Json : Type 0} (codec : Codec Json) where
  abbrev pub has_version : Json → Bool
  has_version j = codec.is_object j && is_version (codec.schema_version j)

  -- The line is JSON whose value passes the test.
  abbrev pub is_json : (Json → Bool) → Text → Bool
  is_json p l = elim (codec.parse l) [ none ↦ false | some j ↦ p j ]

  abbrev pub event_of : Json → List TraceEvent
  event_of j =
      if has_version j then elim (codec.safe_parse j) [ none ↦ [] | some e ↦ e ∷ [] ] else []

  abbrev pub events_of : List Text → List TraceEvent
  events_of [] = []
  events_of (l ∷ ls) = elim (codec.parse l) [ none ↦ [] | some j ↦ event_of j ] ++ events_of ls

  record Counted (ls : List Text) : Type 0 where
    total : number_of codec counted ls ≡ length (filled ls)
    malformed_too :
        number_of codec is_malformed ls
        ≡ length (filter (λ l. not (is_json (λ j. true) l)) (filled ls))
    unknown_too :
        number_of codec is_unknown ls
        ≡ length (filter (is_json (λ j. not (has_version j))) (filled ls))
    invalid_too :
        number_of codec is_invalid ls
        ≡ length (
            filter (is_json (λ j. has_version j && not (is_some (codec.safe_parse j)))) (filled ls))
    events : accepted codec ls ≡ events_of (filled ls)

  lines-Counted : (ls : List Text) → Counted ls
  unfolding classify
  lines-Counted [] = record {
    total = refl;
    malformed_too = refl;
    unknown_too = refl;
    invalid_too = refl;
    events = refl;
  }
  lines-Counted (l ∷ ls) =
      let ih = lines-Counted ls in
      record {
        total = ground (arith, ih.total);
        malformed_too = ground (arith, ih.malformed_too);
        unknown_too = ground (arith, ih.unknown_too);
        invalid_too = ground (arith, ih.invalid_too);
        events = ground (arith, ih.events);
      }

  -- Every line that is not blank is counted once, by what it is: not JSON (malformed), JSON that is
  -- no object or has another schema version than `trace_event.v1` (unknown), of this version but
  -- refused by the schema (invalid), or an event; the events are those of the last kind, in order.
  pub parse_trace_lines-counts :
      (ls : List Text)
      → let r = parse_trace_lines codec ls in
        let lines = filled ls in
        (r.stats.total_lines ≡ length lines)
        × (r.stats.malformed_lines ≡ length (filter (λ l. not (is_json (λ j. true) l)) lines))
        × (r.stats.unknown_schema_version
            ≡ length (filter (is_json (λ j. not (has_version j))) lines))
        × (r.stats.invalid_events
            ≡ length
                (filter (is_json (λ j. has_version j && not (is_some (codec.safe_parse j)))) lines))
        × (r.events ≡ events_of lines)
        × (r.stats.parsed_events ≡ length r.events)
        × (r.stats.total_lines
            ≡ r.stats.parsed_events + r.stats.malformed_lines + r.stats.invalid_events
              + r.stats.unknown_schema_version)
  parse_trace_lines-counts ls =
      let c = lines-Counted ls in
      rw (parse-closed codec ls) (
        c.total,
        c.malformed_too,
        c.unknown_too,
        c.invalid_too,
        c.events,
        refl,
        counted-split codec ls,
      )
