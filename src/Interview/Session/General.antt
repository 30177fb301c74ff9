-- ===== src/Interview/Session/General.antt =====
-- The interview of the general agent, whose rubric shares the dimension `autonomy_boundaries` with
-- the universal ones.
use oss_agent_tools.Prelude.{◌≡◌, refl, inl, inr, true, none, some, List, [], arith}
use oss_agent_tools.Numbers.{Arithmetic}
use oss_agent_tools.AutoManage.Text.{Text}
use oss_agent_tools.Interview.{
  Depth, quick, guided, operator, RubricDimension, not_started, DimensionCoverage,
}
use oss_agent_tools.Interview.Rubric.{get_dimensions_for_depth}
use oss_agent_tools.Interview.Rubric.Universal.{universal_dimensions}
use oss_agent_tools.Interview.Rubric.General.{rubric}
use oss_agent_tools.Interview.Session.{Interviewer, Setting, create_interviewer, run}
use oss_agent_tools.Interview.Session.Invariant.{EndsKept}
use oss_agent_tools.Interview.Session.Repeated.{IsRepeated, IsBlocked, block, run-IsBlocked}

module _ {N : Type 0} (a : Arithmetic N) where
  abbrev pub general_dimensions : Depth → List (RubricDimension N)
  unfolding get_dimensions_for_depth rubric
  general_dimensions d = get_dimensions_for_depth a (rubric a) d (universal_dimensions a)

  -- The entry of a dimension at the start.
  abbrev pub untouched : DimensionCoverage N
  untouched = record {
    dimension_id = "autonomy_boundaries";
    status = not_started;
    confidence = some (a.thousandths 0);
    confidence_threshold = some (a.thousandths 1500);
    signals = some [];
    anti_signals = some [];
    summary = none;
    extracted_facts = none;
    relevant_turns = [];
  }

module _ {N S : Type 0} (o : Setting N S) where
  abbrev pub first_interview : Depth → Interviewer N S
  unfolding create_interviewer
  first_interview d = create_interviewer o.arithmetic (general_dimensions o.arithmetic d) none

  untouched-IsRepeated :
      (d : Depth) → IsRepeated (untouched o.arithmetic) (first_interview d).state.dimension_coverage
  unfolding get_dimensions_for_depth rubric create_interviewer
  untouched-IsRepeated quick = inr (inr (inr (inl (refl, inr (inr (inl refl))))))
  untouched-IsRepeated guided = inr (inr (inr (inl (refl, inr (inr (inr (inr (inl refl))))))))
  untouched-IsRepeated operator =
      inr (inr (inr (inl (refl, inr (inr (inr (inr (inr (inl refl)))))))))

  -- A new interview with the general agent's dimensions, at any depth, never has them all covered
  -- or skipped, whatever the user writes and the model reports, if the threshold of a dimension is
  -- above its first confidence.
  pub general_agent-IsBlocked :
      (above : o.arithmetic.lt (o.arithmetic.thousandths 0) (o.arithmetic.thousandths 1500) ≡ true)
      (d : Depth) (inputs : List Text)
      → EndsKept (IsBlocked o (untouched o.arithmetic)) (run o inputs (first_interview d))
  unfolding create_interviewer
  general_agent-IsBlocked above d inputs =
      run-IsBlocked o (untouched o.arithmetic) (ground arith) inputs (first_interview d) (
        block o (untouched o.arithmetic) (ground arith) (first_interview d).state
            (untouched-IsRepeated d),
        tt,
      )
