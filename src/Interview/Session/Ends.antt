-- ===== src/Interview/Session/Ends.antt =====
-- How a run of the interview ends, and what is then in its state.
use oss_agent_tools.Prelude.{
  ◌≡◌, refl, ◌⊎◌, inl, inr, Bool, true, false, All, Any, ◌||◌, Option, none, some, List, [], ◌∷◌,
  ◌++◌, ◌==◌, text_key, length, nat_eq, if_cases, arith,
}
use oss_agent_tools.AutoManage.Text.{Text, trim}
use oss_agent_tools.AutoManage.Status.{codes}
use oss_agent_tools.Interview.{InterviewState}
use oss_agent_tools.Interview.Coverage.{all_dimensions_covered}
use oss_agent_tools.Interview.Response.{ParsedResponse, parse_response}
use oss_agent_tools.Interview.Session.{
  Interviewer, Setting, Ended, answered, stopped, failed, waiting, take_input, take_reply,
  finish_round, hold_reply, conclude_with, interview, prepare, take_opening, opened, replied, run,
  hear,
}

module _ {N S : Type 0} (o : Setting N S) where
  -- The last saved state is the present one.
  abbrev IsSaved : Interviewer N S → Type 0
  IsSaved i = (before : List (InterviewState N S)) × (i.saved ≡ before ++ i.state ∷ [])

  -- Either the interview is complete, or some dimension is open.
  abbrev IsOpen : Interviewer N S → Type 0
  IsOpen i =
      i.state.is_complete ≡ false
      → all_dimensions_covered o.arithmetic i.state.dimension_coverage ≡ false

  abbrev pub asks_to_save : Text → Bool
  asks_to_save input = trim (o.lower input) == codes "/save"

  -- How a run that was given these inputs may end.
  abbrev pub EndsProperly : List Text → Ended N S → Type 0
  EndsProperly inputs (answered answers i) =
      (i.state.is_complete ≡ true)
      × (i.state.structured_answers ≡ some answers)
      × IsSaved i
      × ((before : InterviewState N S) × (o.extract before ≡ some answers)
          × (i.state ≡ record before { structured_answers = some answers }))
  EndsProperly inputs (stopped i) =
      (i.state.is_complete ≡ false) × IsSaved i × Any (λ t. asks_to_save t ≡ true) inputs
  EndsProperly inputs (failed i) =
      (o.reply i.conversation_history ≡ none)
      ⊎ ((i.state.is_complete ≡ true) × (o.extract i.state ≡ none))
  EndsProperly inputs (waiting i) =
      (i.state.is_complete ≡ false)
      × (all_dimensions_covered o.arithmetic i.state.dimension_coverage ≡ false)
      × All (λ t. asks_to_save t ≡ false) inputs

  EndsProperly-after :
      (input : Text) (inputs : List Text) (e : Ended N S)
      → asks_to_save input ≡ false
      → EndsProperly inputs e
      → EndsProperly (input ∷ inputs) e
  EndsProperly-after input inputs (answered answers i) g h = h
  EndsProperly-after input inputs (stopped i) g (e, saved, asked) = (e, saved, inr asked)
  EndsProperly-after input inputs (failed i) g h = h
  EndsProperly-after input inputs (waiting i) g (e, uncovered, others) = (e, uncovered, (g, others))

  conclude-EndsProperly :
      (inputs : List Text) (answers : Option S) (i : Interviewer N S)
      → i.state.is_complete ≡ true
      → o.extract i.state ≡ answers
      → EndsProperly inputs (conclude_with o answers i)
  conclude-EndsProperly inputs none i e x = inr (e, x)
  conclude-EndsProperly inputs (some answers) i e x = (e, refl, (i.saved, refl), (i.state, x, refl))

  finish_round-IsOpen : (r : ParsedResponse N) (i : Interviewer N S) → IsOpen (finish_round o r i)
  finish_round-IsOpen r i =
      if_cases IsOpen
        (r.should_complete || all_dimensions_covered o.arithmetic i.state.dimension_coverage) _ _
        (λ e f. absurd (ground (arith, f))) (λ e f. ground (arith, e))

  take_reply-IsOpen : (raw : Text) (i : Interviewer N S) → IsOpen (take_reply o raw i)
  unfolding take_reply
  take_reply-IsOpen raw i =
      finish_round-IsOpen (parse_response o.decode i.state.turn_count raw) (hold_reply o raw i)

  replied-EndsProperly :
      (inputs : List Text) (next : Text → Ended N S) (i : Interviewer N S) (raw : Option Text)
      → o.reply i.conversation_history ≡ raw
      → ((t : Text) → EndsProperly inputs (next t))
      → EndsProperly inputs (replied next i raw)
  replied-EndsProperly inputs next i none e h = inl e
  replied-EndsProperly inputs next i (some t) e h = h t

  -- One round needs no assumption on the state it begins with.
  round-EndsProperly :
      (input : Text) (inputs : List Text) (i : Interviewer N S)
      → ((raw : Text)
          → EndsProperly inputs (interview o inputs (take_reply o raw (take_input o input i))))
      → EndsProperly (input ∷ inputs) (interview o (input ∷ inputs) i)
  unfolding interview
  round-EndsProperly input inputs i later =
      if_cases (EndsProperly (input ∷ inputs)) i.state.is_complete _ _
        (λ e. conclude-EndsProperly (input ∷ inputs) (o.extract i.state) i e refl)
        (λ e.
          if_cases (EndsProperly (input ∷ inputs)) (asks_to_save input) _ _
            (λ g. (e, (i.saved, refl), inl g))
            (λ g.
              EndsProperly-after input inputs _ g
                (replied-EndsProperly inputs _ (take_input o input i) _ refl later)))

  interview-EndsProperly :
      (inputs : List Text) (i : Interviewer N S)
      → IsOpen i
      → EndsProperly inputs (interview o inputs i)
  unfolding interview
  interview-EndsProperly [] i k =
      if_cases (EndsProperly []) i.state.is_complete _ _
        (λ e. conclude-EndsProperly [] (o.extract i.state) i e refl) (λ e. (e, k e, tt))
  interview-EndsProperly (input ∷ inputs) i k =
      round-EndsProperly input inputs i
        (λ raw. interview-EndsProperly inputs _ (take_reply-IsOpen raw (take_input o input i)))

  interview-EndsProperly_cons :
      (input : Text) (inputs : List Text) (i : Interviewer N S)
      → EndsProperly (input ∷ inputs) (interview o (input ∷ inputs) i)
  interview-EndsProperly_cons input inputs i =
      round-EndsProperly input inputs i
        (λ raw. interview-EndsProperly inputs _ (take_reply-IsOpen raw (take_input o input i)))

  opened-EndsProperly :
      (input : Text) (inputs : List Text) (i : Interviewer N S) (raw : Option Text)
      → o.reply i.conversation_history ≡ raw
      → EndsProperly (input ∷ inputs) (opened o (input ∷ inputs) i raw)
  opened-EndsProperly input inputs i none e = inl e
  opened-EndsProperly input inputs i (some raw) e =
      interview-EndsProperly_cons input inputs (take_opening o raw i)

  -- A run with some input ends in one of four ways: with the answers that were extracted from the
  -- complete state and then put into it, saved last; stopped in an incomplete state, saved last,
  -- and then one of the inputs was `/save` once lowered and trimmed; failed, and then the model
  -- gives no reply to the conversation, or no answers can be extracted from the complete state; or
  -- waiting, and then some dimension is neither covered nor skipped and no input was `/save`.
  pub run-EndsProperly :
      (input : Text) (inputs : List Text) (i : Interviewer N S)
      → EndsProperly (input ∷ inputs) (run o (input ∷ inputs) i)
  unfolding run
  run-EndsProperly input inputs i =
      if_cases (EndsProperly (input ∷ inputs)) (nat_eq (length i.state.transcript) 0) _ _
        (λ e.
          opened-EndsProperly input inputs
            (hear (codes "Please begin the interview.") (prepare o i)) _ refl)
        (λ e. interview-EndsProperly_cons input inputs (prepare o i))
