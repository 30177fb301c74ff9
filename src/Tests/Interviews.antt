-- ===== src/Tests/Interviews.antt =====
-- An interview in thousandths, with a model that reports a covered dimension and then stops.
use oss_agent_tools.Prelude.{
  ℕ, ◌+◌, String, ◌≡◌, true, refl, false, Option, none, some, List, [], ◌∷◌, ◌++◌, ltb, arith, All,
  nat_key, length, map, if◌then◌else◌, text_key, ◌==◌,
}
use oss_agent_tools.Numbers.{Arithmetic, IsOrdered}
use oss_agent_tools.AutoManage.Text.{Text, trim}
use oss_agent_tools.AutoManage.Status.{codes}
use oss_agent_tools.Interview.{
  quick, guided, principles, RubricDimension, CoverageStatus, in_progress, covered,
}
use oss_agent_tools.Interview.Coverage.{
  CoverageUpdate, apply_coverage_updates, apply_updates, change_first, apply_cascades, cascade_all,
}
use oss_agent_tools.Interview.Coverage.Justified.{
  IsJustified, dimension_ids, apply_coverage_updates-Keeps,
}
use oss_agent_tools.Interview.Response.{
  Report, block_start, block_end, with_report, parse_response, find_block, find_split,
}
use oss_agent_tools.Interview.Response.Block.{parse_response-block}
use oss_agent_tools.Interview.Rubric.{domain_rubrics}
use oss_agent_tools.Interview.Rubric.Content.{rubric}
use oss_agent_tools.Interview.Rubric.Registered.{IsWellFormed, get_domain_rubric-IsWellFormed}
use oss_agent_tools.Interview.Session.{LlmMessage, Interviewer, Setting, create_interviewer, run}
use oss_agent_tools.Interview.Session.Invariant.{EndsKept}
use oss_agent_tools.Interview.Session.Sound.{IsSound, run-EndsKept}
use oss_agent_tools.Interview.Session.Ends.{EndsProperly, run-EndsProperly}
use oss_agent_tools.Interview.Session.Repeated.{IsBlocked}
use oss_agent_tools.Interview.Session.General.{first_interview, untouched, general_agent-IsBlocked}

abbrev pub whole : Arithmetic ℕ
whole = record { lt = ltb; plus = ◌+◌; thousandths = λ n. n }

whole-IsOrdered : IsOrdered whole
whole-IsOrdered = record {
  ge_trans = λ x y z h k. ground (arith, h, k);
  plus_grows = λ x d h. ground arith;
}

abbrev purpose : RubricDimension ℕ
purpose = record {
  id = "purpose";
  name = "Purpose";
  description = "What the agent is for.";
  maps_to = principles ∷ [];
  depth_tiers = quick ∷ [];
  exploration_hints = [];
  coverage_criteria = [];
  sub_areas = none;
  cascade_to = some (record { dimension_id = "tone"; weight = 300; condition = none } ∷ []);
}

abbrev tone_of : RubricDimension ℕ
tone_of = record purpose { id = "tone"; cascade_to = none }

abbrev both : List (RubricDimension ℕ)
both = purpose ∷ tone_of ∷ []

abbrev explicit_update : CoverageUpdate ℕ
explicit_update = record {
  status = some "covered";
  summary = some "A reviewer";
  extracted_facts = none;
  relevant_turns = 2 ∷ [];
  confidence_delta = some 1600;
  signal_source = some "explicit";
  anti_signals = none;
}

abbrev covered_report : Report ℕ
covered_report = record {
  dimension_updates =
      (
        "purpose",
        some (record {
          status = some "covered";
          summary = some "A reviewer";
          facts = none;
          confidence_delta = some 1600;
          signal_source = some "explicit";
          anti_signals = none;
        }),
      )
      ∷ [];
  should_complete = false;
}

abbrev decode_test : Text → Option (Report ℕ)
decode_test body = if body == codes "{p}" then some covered_report else none

-- The model's opening carries no block, its later replies report the purpose.
abbrev reply_test : List LlmMessage → Option Text
reply_test messages =
    if length messages == 2
    then some (codes "Hello")
    else some (codes "Noted. " ++ (block_start ++ (codes "{p}" ++ (block_end ++ []))))

abbrev setting : List (RubricDimension ℕ) → Setting ℕ ℕ
setting dimensions = record {
  arithmetic = whole;
  lower = λ t. t;
  decode = decode_test;
  now = λ n. "2026-01-01T00:00:00Z";
  dimensions = dimensions;
  reply = reply_test;
  system_prompt = λ s. codes "Interview the user.";
  extract = λ s. some s.turn_count;
}

abbrev new_interview : Interviewer ℕ ℕ
unfolding create_interviewer
new_interview = create_interviewer whole both none

abbrev inputs : List Text
inputs = codes "a reviewer" ∷ codes "/skip" ∷ []

-- The first update covers the purpose, and its cascade begins the tone.
covers_purpose :
    map {B = String × CoverageStatus}
      (λ c. (c.dimension_id, c.status))
      (apply_coverage_updates whole 2 both
        (("purpose", explicit_update) ∷ [])
        new_interview.state.dimension_coverage)
    ≡ ("purpose", covered) ∷ ("tone", in_progress) ∷ []
unfolding apply_coverage_updates apply_updates change_first apply_cascades cascade_all
    create_interviewer
covers_purpose = refl

parses_block :
    (parse_response decode_test 2 (codes "Noted. <!--COVERAGE {p} COVERAGE-->")).message
    ≡ codes "Noted."
unfolding parse_response find_block find_split trim
parses_block = refl

apply_coverage_updates-Keeps_example :
    All (IsJustified whole) (
      apply_coverage_updates whole 2 both
        (("purpose", explicit_update) ∷ [])
        new_interview.state.dimension_coverage)
    × (dimension_ids (
          apply_coverage_updates whole 2 both
            (("purpose", explicit_update) ∷ [])
            new_interview.state.dimension_coverage)
        ≡ "purpose" ∷ "tone" ∷ [])
unfolding create_interviewer
apply_coverage_updates-Keeps_example =
    apply_coverage_updates-Keeps whole whole-IsOrdered 2 both (("purpose", explicit_update) ∷ [])
      new_interview.state.dimension_coverage (λ h. h, (λ h. h, tt))

null_test :
    with_report decode_test 2 (codes "Next?") (
      some (record {
        dimension_updates = covered_report.dimension_updates ++ ("tone", none) ∷ [];
        should_complete = true;
      }))
    ≡ record {
      message = codes "Next?";
      coverage_updates = ("purpose", explicit_update) ∷ [];
      should_complete = false;
    }
null_test = refl

parse_response-block_example :
    parse_response decode_test 2
      (codes "Noted. " ++ (block_start ++ (codes " {p} " ++ (block_end ++ codes " Next?"))))
    ≡ with_report decode_test 2 (codes "Noted.  Next?") (some covered_report)
unfolding find_split trim
parse_response-block_example =
    parse_response-block decode_test 2 (codes "Noted. ") (codes " {p} ") (codes " Next?") refl refl

run-EndsKept_example :
    EndsKept (IsSound whole ("purpose" ∷ "tone" ∷ [])) (run (setting both) inputs new_interview)
unfolding create_interviewer
run-EndsKept_example =
    run-EndsKept (setting both) whole-IsOrdered ("purpose" ∷ "tone" ∷ []) inputs new_interview
      ((refl, (λ h. h, (λ h. h, tt)), refl), tt)

run-EndsProperly_example :
    EndsProperly
      (setting both)
      (codes "a reviewer" ∷ codes "/skip" ∷ [])
      (run (setting both) (codes "a reviewer" ∷ codes "/skip" ∷ []) new_interview)
run-EndsProperly_example =
    run-EndsProperly (setting both) (codes "a reviewer") (codes "/skip" ∷ []) new_interview

general_agent-IsBlocked_example :
    EndsKept
      (IsBlocked (setting []) (untouched whole))
      (run (setting []) inputs (first_interview (setting []) guided))
general_agent-IsBlocked_example = general_agent-IsBlocked (setting []) refl guided inputs

get_domain_rubric-IsWellFormed_example : IsWellFormed whole (rubric whole)
unfolding domain_rubrics
get_domain_rubric-IsWellFormed_example =
    get_domain_rubric-IsWellFormed whole "content-agent" (rubric whole) refl refl
