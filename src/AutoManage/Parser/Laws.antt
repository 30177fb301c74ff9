-- ===== src/AutoManage/Parser/Laws.antt =====
-- The events of a batch of lines, and its counters.
use oss_agent_tools.Prelude.{
  ℕ, ◌+◌, ◌≡◌, refl, ap, sym, ◌∙◌, List, [], ◌∷◌, ◌++◌, append_assoc, append-nil, length,
  length-append, arith,
}
use oss_agent_tools.Trace.{TraceEvent}
use oss_agent_tools.AutoManage.Text.{Text}
use oss_agent_tools.AutoManage.Parser.{
  Codec, Verdict, blank, malformed, unknown, invalid, parsed, Batch, tally, classify, parse_from,
  parse_trace_lines, merge_parser_stats,
}

abbrev pub counted : Verdict → ℕ
counted blank = 0
counted _ = 1

abbrev pub is_malformed : Verdict → ℕ
is_malformed malformed = 1
is_malformed _ = 0

abbrev pub is_unknown : Verdict → ℕ
is_unknown unknown = 1
is_unknown _ = 0

abbrev pub is_invalid : Verdict → ℕ
is_invalid invalid = 1
is_invalid _ = 0

abbrev event_in : Verdict → List TraceEvent
event_in (parsed e) = e ∷ []
event_in _ = []

-- The lines taken one by one, with no state.
module _ {Json : Type 0} (codec : Codec Json) where
  abbrev pub accepted : List Text → List TraceEvent
  accepted [] = []
  accepted (l ∷ ls) = event_in (classify codec l) ++ accepted ls

  abbrev pub number_of : (Verdict → ℕ) → List Text → ℕ
  number_of f [] = 0
  number_of f (l ∷ ls) = f (classify codec l) + number_of f ls

  -- What a loop from `b` adds to `b`.
  pub record Added (b c : Batch) (ls : List Text) : Type 0 where
    pub events : c.events ≡ b.events ++ accepted ls
    pub total : c.total_lines ≡ b.total_lines + number_of counted ls
    pub malformed_too : c.malformed_lines ≡ b.malformed_lines + number_of is_malformed ls
    pub invalid_too : c.invalid_events ≡ b.invalid_events + number_of is_invalid ls
    pub unknown_too : c.unknown_schema_version ≡ b.unknown_schema_version + number_of is_unknown ls

  tally-events : (b : Batch) (v : Verdict) → (tally b v).events ≡ b.events ++ event_in v
  unfolding tally
  tally-events b (parsed e) = refl
  tally-events b _ = sym (append-nil b.events)

  tally-counts :
      (b : Batch) (v : Verdict)
      → ((tally b v).total_lines ≡ b.total_lines + counted v)
        × ((tally b v).malformed_lines ≡ b.malformed_lines + is_malformed v)
        × ((tally b v).invalid_events ≡ b.invalid_events + is_invalid v)
        × ((tally b v).unknown_schema_version ≡ b.unknown_schema_version + is_unknown v)
  unfolding tally
  tally-counts b blank = omega arith
  tally-counts b _ = omega arith

  parse_from-Added : (b : Batch) (ls : List Text) → Added b (parse_from codec b ls) ls
  unfolding parse_from
  parse_from-Added b [] = record {
    events = sym (append-nil b.events);
    total = omega arith;
    malformed_too = omega arith;
    invalid_too = omega arith;
    unknown_too = omega arith;
  }
  parse_from-Added b (l ∷ ls) =
      let v = classify codec l in
      let ih = parse_from-Added (tally b v) ls in
      let counts = tally-counts b v in
      record {
        events =
            ih.events
            ∙ ap (λ es. es ++ accepted ls) (tally-events b v)
            ∙ append_assoc b.events (event_in v) (accepted ls);
        total = omega arith;
        malformed_too = omega arith;
        invalid_too = omega arith;
        unknown_too = omega arith;
      }

  -- The result in closed form.
  pub parse-closed :
      (ls : List Text)
      → parse_trace_lines codec ls ≡ record {
        events = accepted ls;
        stats = record {
          total_lines = number_of counted ls;
          parsed_events = length (accepted ls);
          malformed_lines = number_of is_malformed ls;
          invalid_events = number_of is_invalid ls;
          unknown_schema_version = number_of is_unknown ls;
        };
      }
  unfolding parse_trace_lines
  parse-closed ls =
      let a =
        parse_from-Added
          (record {
            events = [];
            malformed_lines = 0;
            invalid_events = 0;
            unknown_schema_version = 0;
            total_lines = 0;
          })
          ls in
      ground (arith, a)

  pub counted-split :
      (ls : List Text)
      → number_of counted ls
        ≡ length (accepted ls)
          + number_of is_malformed ls
          + number_of is_invalid ls
          + number_of is_unknown ls
  counted-split [] = omega arith
  counted-split (l ∷ ls) = one (classify codec l) (counted-split ls)
    where
      one :
          (v : Verdict)
          → number_of counted ls
            ≡ length (accepted ls)
              + number_of is_malformed ls
              + number_of is_invalid ls
              + number_of is_unknown ls
          → counted v + number_of counted ls
            ≡ length (event_in v ++ accepted ls)
              + (is_malformed v + number_of is_malformed ls)
              + (is_invalid v + number_of is_invalid ls)
              + (is_unknown v + number_of is_unknown ls)
      one blank e = omega arith
      one _ e = omega arith

  pub parse_trace_lines-total :
      (ls : List Text)
      → let r = parse_trace_lines codec ls in
        r.stats.total_lines
        ≡ r.stats.parsed_events + r.stats.malformed_lines + r.stats.invalid_events
          + r.stats.unknown_schema_version
  parse_trace_lines-total ls = rw (parse-closed ls) (counted-split ls)

  accepted-append : (xs ys : List Text) → accepted (xs ++ ys) ≡ accepted xs ++ accepted ys
  accepted-append [] ys = refl
  accepted-append (x ∷ xs) ys =
      ap (◌++◌ (event_in (classify codec x))) (accepted-append xs ys)
      ∙ sym (append_assoc (event_in (classify codec x)) (accepted xs) (accepted ys))

  number_of-append :
      (f : Verdict → ℕ) (xs ys : List Text)
      → number_of f (xs ++ ys) ≡ number_of f xs + number_of f ys
  number_of-append f [] ys = omega arith
  number_of-append f (x ∷ xs) ys = omega (arith, number_of-append f xs ys)

  -- Lines parsed in two batches give the events of one batch in the same order, and counters that
  -- add up to those of one batch.
  pub parse_trace_lines-append :
      (xs ys : List Text)
      → let r = parse_trace_lines codec xs in
        let s = parse_trace_lines codec ys in
        parse_trace_lines codec (xs ++ ys)
        ≡ record { events = r.events ++ s.events; stats = merge_parser_stats r.stats s.stats }
  unfolding merge_parser_stats
  parse_trace_lines-append xs ys =
      rw (parse-closed xs, parse-closed ys, parse-closed (xs ++ ys))
        (ground (
          arith,
          accepted-append xs ys,
          length-append (accepted xs) (accepted ys),
          number_of-append counted xs ys,
          number_of-append is_malformed xs ys,
          number_of-append is_invalid xs ys,
          number_of-append is_unknown xs ys,
        ))
