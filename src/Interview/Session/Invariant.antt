-- ===== src/Interview/Session/Invariant.antt =====
-- An invariant of the interview's state holds of every state that a run saves or ends with.
use oss_agent_tools.Prelude.{
  true, Option, none, some, List, [], ◌∷◌, ◌==◌, text_key, length, nat_eq, All, All-append, ◌||◌,
  if_cases, Bool-cases, inl, inr,
}
use oss_agent_tools.AutoManage.Text.{Text, trim}
use oss_agent_tools.AutoManage.Status.{codes}
use oss_agent_tools.Interview.{user, InterviewState}
use oss_agent_tools.Interview.Coverage.{all_dimensions_covered}
use oss_agent_tools.Interview.Response.{ParsedResponse, parse_response}
use oss_agent_tools.Interview.Session.{
  Interviewer, Ended, answered, stopped, failed, waiting, add_turn, take_input, take_response,
  take_reply, finish_round, conclude_with, interview, prepare, take_opening, opened, run, save,
  hear, replied, Setting,
}

module _ {N S : Type 0} (P : InterviewState N S → Type 0) where
  -- The present state has it, and every saved one.
  abbrev pub IsKept : Interviewer N S → Type 0
  IsKept i = P i.state × All P i.saved

  abbrev pub EndsKept : Ended N S → Type 0
  EndsKept (answered answers i) = IsKept i
  EndsKept (stopped i) = IsKept i
  EndsKept (failed i) = IsKept i
  EndsKept (waiting i) = IsKept i

  save-IsKept : (i : Interviewer N S) → IsKept i → IsKept (save i)
  save-IsKept i (s, k) = (s, All-append P i.saved (i.state ∷ []) k (s, tt))

-- The changes of the state keep the invariant.
pub record IsInvariant {N S : Type 0} (o : Setting N S) (P : InterviewState N S → Type 0)
    : Type 0 where
  pub keeps_input : (text : Text) (s : InterviewState N S) → P s → P (add_turn o user text s)
  pub keeps_response :
      (r : ParsedResponse N) (s : InterviewState N S) → P s → P (take_response o r s)
  pub keeps_complete : (s : InterviewState N S) → P s → P (record s { is_complete = true })
  pub keeps_answers :
      (answers : S) (s : InterviewState N S)
      → P s
      → P (record s { structured_answers = some answers })

module _ {N S : Type 0} (o : Setting N S) (P : InterviewState N S → Type 0)
    (keeps : IsInvariant o P) where
  take_input-IsKept :
      (input : Text) (i : Interviewer N S) → IsKept P i → IsKept P (take_input o input i)
  unfolding take_input
  take_input-IsKept input i (s, k) = elim (Bool-cases (trim (o.lower input) == codes "/skip")) [
    | inl e ↦ rw e (keeps.keeps_input _ i.state s, k)
    | inr e ↦ rw e (keeps.keeps_input _ i.state s, k)
  ]

  finish_round-IsKept :
      (r : ParsedResponse N) (i : Interviewer N S) → IsKept P i → IsKept P (finish_round o r i)
  finish_round-IsKept r i (s, k) =
      if_cases (IsKept P)
        (r.should_complete || all_dimensions_covered o.arithmetic i.state.dimension_coverage) _ _
        (λ e. (keeps.keeps_complete i.state s, k)) (λ e. (s, k))

  take_reply-IsKept :
      (raw : Text) (i : Interviewer N S) → IsKept P i → IsKept P (take_reply o raw i)
  unfolding take_reply
  take_reply-IsKept raw i (s, k) =
      let s' = keeps.keeps_response (parse_response o.decode i.state.turn_count raw) i.state s in
      finish_round-IsKept (parse_response o.decode i.state.turn_count raw) _
        (s', All-append P i.saved _ k (s', tt))

  conclude-EndsKept :
      (answers : Option S) (i : Interviewer N S)
      → IsKept P i
      → EndsKept P (conclude_with o answers i)
  conclude-EndsKept none i k = k
  conclude-EndsKept (some answers) i (s, k) =
      let s' = keeps.keeps_answers answers i.state s in (s', All-append P i.saved _ k (s', tt))

  replied-EndsKept :
      (next : Text → Ended N S) (i : Interviewer N S) (raw : Option Text)
      → IsKept P i
      → ((t : Text) → EndsKept P (next t))
      → EndsKept P (replied next i raw)
  replied-EndsKept next i none k h = k
  replied-EndsKept next i (some t) k h = h t

  interview-EndsKept :
      (inputs : List Text) (i : Interviewer N S) → IsKept P i → EndsKept P (interview o inputs i)
  unfolding interview
  interview-EndsKept [] i k =
      if_cases (EndsKept P) i.state.is_complete _ _ (λ e. conclude-EndsKept (o.extract i.state) i k)
        (λ e. k)
  interview-EndsKept (input ∷ inputs) i k =
      if_cases (EndsKept P) i.state.is_complete _ _ (λ e. conclude-EndsKept (o.extract i.state) i k)
        (λ e.
          if_cases (EndsKept P) (trim (o.lower input) == codes "/save") _ _ (λ g. save-IsKept P i k)
            (λ g. replied-EndsKept _ (take_input o input i) _ (take_input-IsKept input i k) (λ raw.
              interview-EndsKept inputs _
                (take_reply-IsKept raw (take_input o input i) (take_input-IsKept input i k)))))

  take_opening-IsKept :
      (raw : Text) (i : Interviewer N S) → IsKept P i → IsKept P (take_opening o raw i)
  unfolding take_opening
  take_opening-IsKept raw i (s, k) =
      let s' = keeps.keeps_response (parse_response o.decode i.state.turn_count raw) i.state s in
      (s', All-append P i.saved _ k (s', tt))

  opened-EndsKept :
      (inputs : List Text) (i : Interviewer N S) (raw : Option Text)
      → IsKept P i
      → EndsKept P (opened o inputs i raw)
  opened-EndsKept inputs i none k = k
  opened-EndsKept inputs i (some raw) k =
      interview-EndsKept inputs (take_opening o raw i) (take_opening-IsKept raw i k)

  pub run-Keeps :
      (inputs : List Text) (i : Interviewer N S) → IsKept P i → EndsKept P (run o inputs i)
  unfolding run
  run-Keeps inputs i k =
      if_cases (EndsKept P) (nat_eq (length i.state.transcript) 0) _ _
        (λ e. opened-EndsKept inputs (hear (codes "Please begin the interview.") (prepare o i)) _ k)
        (λ e. interview-EndsKept inputs (prepare o i) k)
