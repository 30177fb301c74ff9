-- ===== src/Interview/Response.antt =====
-- `parseResponse` of interviewer.ts: the coverage block of a reply. `decode` is `JSON.parse` with
-- the fields that are read from its value; it fails where the text is no JSON or its value is null.
pub mod Block
use oss_agent_tools.Prelude.{
  ℕ, String, Bool, true, false, ◌&&◌, Option, none, some, List, [], ◌∷◌, ◌++◌, nat_eq, map,
  if◌then◌else◌,
}
use oss_agent_tools.AutoManage.Text.{Text, trim, starts_with}
use oss_agent_tools.AutoManage.Status.{codes}
use oss_agent_tools.Interview.Coverage.{CoverageUpdate}

-- One entry of `dimension_updates`, as the model wrote it.
pub record ReportedUpdate (N : Type 0) : Type 0 where
  pub status : Option String
  pub summary : Option String
  pub facts : Option (List String)
  pub confidence_delta : Option N
  pub signal_source : Option String
  pub anti_signals : Option (List String)

-- The entry of a dimension may be null, of which no field can be read.
pub record Report (N : Type 0) : Type 0 where
  pub dimension_updates : List (String × Option (ReportedUpdate N))
  pub should_complete : Bool

pub record ParsedResponse (N : Type 0) : Type 0 where
  pub message : Text
  pub coverage_updates : List (String × CoverageUpdate N)
  pub should_complete : Bool

abbrev pub block_start : Text
block_start = codes "<!--COVERAGE"

abbrev pub block_end : Text
block_end = codes "COVERAGE-->"

-- What follows the first so many characters.
abbrev pub skip : Text → Text → Text
skip [] s = s
skip (p ∷ ps) [] = []
skip (p ∷ ps) (c ∷ s) = skip ps s

-- The text is cut at the first occurrence of the pattern, which falls away.
unfoldable pub find_split : Text → Text → Option (Text × Text)
find_split p [] = if starts_with p [] then some ([], []) else none
find_split p (c ∷ s) =
    let later = find_split p s in
    if starts_with p (c ∷ s)
    then some ([], skip p (c ∷ s))
    else elim later [ none ↦ none | some cut ↦ some (c ∷ cut.0, cut.1) ]

-- The text around the first block, and the block's body without the blanks at its ends. Without
-- an end after the first start there is none after a later one.
abbrev cut_block : Text → Option (Text × Text) → Option (Text × Text)
cut_block before none = none
cut_block before (some (body, after)) = some (before ++ after, trim body)

abbrev cut_start : Option (Text × Text) → Option (Text × Text)
cut_start none = none
cut_start (some (before, rest)) = cut_block before (find_split block_end rest)

unfoldable pub find_block : Text → Option (Text × Text)
unfolding find_split
find_block raw = cut_start (find_split block_start raw)

module _ {N : Type 0} (decode : Text → Option (Report N)) where
  abbrev to_update : ℕ → ReportedUpdate N → CoverageUpdate N
  to_update turn u = record {
    status = u.status;
    summary = u.summary;
    extracted_facts = u.facts;
    relevant_turns = turn ∷ [];
    confidence_delta = u.confidence_delta;
    signal_source = u.signal_source;
    anti_signals = u.anti_signals;
  }

  -- The updates up to the first null, and whether there was none: at a null the loop throws.
  abbrev pub read_updates :
      ℕ → List (String × Option (ReportedUpdate N)) → List (String × CoverageUpdate N) × Bool
  read_updates turn [] = ([], true)
  read_updates turn ((id, none) ∷ rest) = ([], false)
  read_updates turn ((id, some u) ∷ rest) =
      let (updates, is_whole) = read_updates turn rest in
      ((id, to_update turn u) ∷ updates, is_whole)

  -- A report that cannot be read counts as none.
  abbrev pub with_report : ℕ → Text → Option (Report N) → ParsedResponse N
  with_report turn message none = record {
    message = message;
    coverage_updates = [];
    should_complete = false;
  }
  with_report turn message (some r) =
      let (updates, is_whole) = read_updates turn r.dimension_updates in
      record {
        message = message;
        coverage_updates = updates;
        should_complete = is_whole && r.should_complete;
      }

  abbrev pub parse_cut : ℕ → Text → Option (Text × Text) → ParsedResponse N
  parse_cut turn raw none = with_report turn (trim raw) none
  parse_cut turn raw (some (around, body)) = with_report turn (trim around) (decode body)

  unfoldable pub parse_response : ℕ → Text → ParsedResponse N
  unfolding find_block
  parse_response turn raw = parse_cut turn raw (find_block raw)
