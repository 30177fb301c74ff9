-- ===== src/Interview/Session.antt =====
-- `Interviewer` of interviewer.ts: its state, and the loop of `run`. The model's reply is a
-- function of the conversation, none where the call throws; the user's inputs come as a list. The
-- system prompt and the extraction of the answers, another call of the model, are arguments.
pub mod Invariant
pub mod Repeated
pub mod General
pub mod Sound
pub mod Ends
use oss_agent_tools.Prelude.{
  ℕ, ◌+◌, String, Bool, true, false, not, ◌||◌, Option, none, some, List, [], ◌∷◌, ◌++◌, ◌==◌, map,
  filter, length, nat_eq, text_key, or_else, if◌then◌else◌,
}
use oss_agent_tools.Numbers.{Arithmetic}
use oss_agent_tools.AutoManage.Text.{Text, trim}
use oss_agent_tools.AutoManage.Status.{codes}
use oss_agent_tools.Interview.{
  RubricDimension, Role, interviewer, user, InterviewTurn, not_started, DimensionCoverage,
  InterviewState,
}
use oss_agent_tools.Interview.Coverage.{apply_coverage_updates, all_dimensions_covered}
use oss_agent_tools.Interview.Response.{Report, ParsedResponse, parse_response}

pub data MessageRole : Type 0 where
  system user_message assistant : MessageRole

pub record LlmMessage : Type 0 where
  pub role : MessageRole
  pub content : Text

-- The state, with what the callbacks were given: the saved states and the messages shown.
pub record Interviewer (N S : Type 0) : Type 0 where
  pub state : InterviewState N S
  pub conversation_history : List LlmMessage
  pub saved : List (InterviewState N S)
  pub shown : List Text

-- How a run ends: with answers, by `/save`, by a call of the model that throws, or waiting for
-- the user.
pub data Ended (N S : Type 0) : Type 0 where
  answered : S → Interviewer N S → Ended N S
  stopped : Interviewer N S → Ended N S
  failed : Interviewer N S → Ended N S
  waiting : Interviewer N S → Ended N S

abbrev is_not_system : MessageRole → Bool
is_not_system system = false
is_not_system user_message = true
is_not_system assistant = true

abbrev history_role : Role → MessageRole
history_role interviewer = assistant
history_role user = user_message

abbrev message : MessageRole → Text → LlmMessage
message role content = record { role = role; content = content }

abbrev pub rebuild_history : {N S : Type 0} → InterviewState N S → List LlmMessage
rebuild_history s = map (λ t. message (history_role t.role) t.content) s.transcript

abbrev pub initial_coverage :
    {N S : Type 0} → Arithmetic N → List (RubricDimension N) → InterviewState N S
initial_coverage a dimensions = record {
  transcript = [];
  dimension_coverage =
      map
        (λ d. record {
          dimension_id = d.id;
          status = not_started;
          confidence = some (a.thousandths 0);
          confidence_threshold = some (a.thousandths 1500);
          signals = some [];
          anti_signals = some [];
          summary = none;
          extracted_facts = none;
          relevant_turns = [];
        })
        dimensions;
  is_complete = false;
  turn_count = 0;
  structured_answers = none;
}

-- The constructor.
unfoldable pub create_interviewer :
    {N S : Type 0}
    → Arithmetic N
    → List (RubricDimension N)
    → Option (InterviewState N S)
    → Interviewer N S
create_interviewer a dimensions none = record {
  state = initial_coverage a dimensions;
  conversation_history = [];
  saved = [];
  shown = [];
}
create_interviewer a dimensions (some resumed) = record {
  state = resumed;
  conversation_history = rebuild_history resumed;
  saved = [];
  shown = [];
}

-- What an interview is given: the arithmetic, `toLowerCase`, the reading of a report, the clock by
-- turn, the dimensions, the model and the texts for it, and the extraction of the answers.
pub record Setting (N S : Type 0) : Type 0 where
  pub arithmetic : Arithmetic N
  pub lower : Text → Text
  pub decode : Text → Option (Report N)
  pub now : ℕ → String
  pub dimensions : List (RubricDimension N)
  pub reply : List LlmMessage → Option Text
  pub system_prompt : InterviewState N S → Text
  pub extract : InterviewState N S → Option S

abbrev pub save : {N S : Type 0} → Interviewer N S → Interviewer N S
save i = record i { saved = i.saved ++ i.state ∷ [] }

abbrev pub show : {N S : Type 0} → Text → Interviewer N S → Interviewer N S
show text i = record i { shown = i.shown ++ text ∷ [] }

abbrev pub hear : {N S : Type 0} → Text → Interviewer N S → Interviewer N S
hear text i = record i {
  conversation_history = i.conversation_history ++ message user_message text ∷ [];
}

-- What `run` returns, where it returns.
abbrev pub returned : {N S : Type 0} → S → Ended N S → Option S
returned empty (answered s i) = some s
returned empty (stopped i) = some (or_else i.state.structured_answers empty)
returned empty (failed i) = none
returned empty (waiting i) = none

abbrev pub replied : {N S : Type 0} → (Text → Ended N S) → Interviewer N S → Option Text → Ended N S
replied next i none = failed i
replied next i (some raw) = next raw

module _ {N S : Type 0} (o : Setting N S) where
  abbrev pub add_turn : Role → Text → InterviewState N S → InterviewState N S
  add_turn role content s = record s {
    turn_count = s.turn_count + 1;
    transcript =
        s.transcript
        ++ record {
          turn_number = s.turn_count + 1;
          role = role;
          content = content;
          timestamp = o.now (s.turn_count + 1);
        }
          ∷ [];
  }

  abbrev pub update_coverage : ParsedResponse N → InterviewState N S → InterviewState N S
  update_coverage r s = record s {
    dimension_coverage =
        apply_coverage_updates o.arithmetic s.turn_count o.dimensions r.coverage_updates
          s.dimension_coverage;
  }

  -- `/skip`, or what the user wrote: its turn, and the message to the model.
  unfoldable pub take_input : Text → Interviewer N S → Interviewer N S
  take_input input i =
      if trim (o.lower input) == codes "/skip"
      then hear (codes "[User requested to skip this topic and move on]")
          (record i { state = add_turn user (codes "[User requested to skip this topic]") i.state })
      else hear input (record i { state = add_turn user input i.state })

  -- The state after a reply: its turn, and then its coverage.
  unfoldable pub take_response : ParsedResponse N → InterviewState N S → InterviewState N S
  take_response r s = update_coverage r (add_turn interviewer r.message s)

  abbrev pub finish_round : ParsedResponse N → Interviewer N S → Interviewer N S
  finish_round r i =
      if r.should_complete || all_dimensions_covered o.arithmetic i.state.dimension_coverage
      then record i { state = record (i.state) { is_complete = true } }
      else i

  -- The turn of a reply, saved and shown.
  abbrev pub hold_reply : Text → Interviewer N S → Interviewer N S
  hold_reply raw i =
      let r = parse_response o.decode i.state.turn_count raw in
      save (
        show r.message (record i {
          state = take_response r i.state;
          conversation_history = i.conversation_history ++ message assistant raw ∷ [];
        }))

  -- The part of a round after the model's reply.
  unfoldable pub take_reply : Text → Interviewer N S → Interviewer N S
  take_reply raw i =
      finish_round (parse_response o.decode i.state.turn_count raw) (hold_reply raw i)

  -- The extraction at the end; where its call throws, the run does.
  abbrev pub conclude_with : Option S → Interviewer N S → Ended N S
  conclude_with none i = failed i
  conclude_with (some answers) i =
      answered answers
        (save (record i { state = record (i.state) { structured_answers = some answers } }))

  abbrev pub conclude : Interviewer N S → Ended N S
  conclude i = conclude_with (o.extract i.state) i

  unfoldable pub interview : List Text → Interviewer N S → Ended N S
  unfolding take_input take_reply
  interview [] i = if i.state.is_complete then conclude i else waiting i
  interview (input ∷ inputs) i =
      let i' = take_input input i in
      let next = λ (raw : Text). interview inputs (take_reply raw i') in
      if i.state.is_complete
      then conclude i
      else if trim (o.lower input) == codes "/save"
      then stopped (show (codes "Session saved. Run with --resume to continue later.") (save i))
      else replied next i' (o.reply i'.conversation_history)

  -- The conversation begins with the system's prompt.
  abbrev pub prepare : Interviewer N S → Interviewer N S
  prepare i = record i {
    conversation_history =
        message system (o.system_prompt i.state)
        ∷ filter (λ m. is_not_system m.role) i.conversation_history;
  }

  -- The model's opening; it does not enter the history, and does not end the interview.
  unfoldable pub take_opening : Text → Interviewer N S → Interviewer N S
  unfolding take_response
  take_opening raw i =
      let r = parse_response o.decode i.state.turn_count raw in
      save (show r.message (record i { state = take_response r i.state }))

  abbrev pub opened : List Text → Interviewer N S → Option Text → Ended N S
  opened inputs i none = failed i
  opened inputs i (some raw) = interview inputs (take_opening raw i)

  unfoldable pub run : List Text → Interviewer N S → Ended N S
  unfolding interview take_opening
  run inputs i =
      let ready = prepare i in
      let kicked = hear (codes "Please begin the interview.") ready in
      if nat_eq (length i.state.transcript) 0
      then opened inputs kicked (o.reply kicked.conversation_history)
      else interview inputs ready
