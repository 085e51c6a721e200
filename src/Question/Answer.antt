-- ===== src/Question/Answer.antt =====
-- packages/core/src/escalation/record-open-question-answer.ts and apply-operator-message.ts: what a
-- message of the operator answers.
pub mod Laws
use Prim.Native.String.{String}
use text.Mathlib.Text.{◌==◌ as str_eq}
use agents_ensemble.Base.{
  ℕ, Bool, true, false, Option, none, some, List, [], ◌∷◌, filter, get_or_else, if◌then◌else◌,
}
use agents_ensemble.Question.Assent.{
  YesNoAssent, ChoiceOption, only_id, parse_yes_no_assent, parse_choice_selection,
}
use agents_ensemble.Question.Registry.{
  OpenQuestion, OpenQuestionAnsweredBy, by_operator, HumanInquiryResponseType, text_answer, yes_no,
  choice, OpenQuestionRegistry, AnswerOpenQuestionInput, get_question, open_entry, is_text,
  answer_question, list_open,
}

pub record RecordOpenQuestionAnswerInput : Type 0 where
  pub id : String
  pub answer : String
  pub answered_at : Option ℕ
  pub selected_choice : Option String
  pub answered_by : OpenQuestionAnsweredBy
  pub source_message : Option String
  pub rationale : Option String

pub record ApplyOperatorMessageOptions : Type 0 where
  pub target_question_id : Option String
  pub answered_at : Option ℕ

pub record ApplyOperatorMessageResult : Type 0 where
  pub answered : List OpenQuestion
  pub general_guidance : Option String

abbrev single_or : List ChoiceOption → Option String → Option String
single_or (option ∷ []) rest = some option.id
single_or _ rest = rest

abbrev trimmed_option : (String → String) → Option String → Option String
trimmed_option trim none = none
trimmed_option trim (some s) = some (trim s)

module _ (nfkc trim lower strip : String → String) where
  unfoldable pub resolve_selected_choice :
      Option String → String → List ChoiceOption → Option String
  resolve_selected_choice selected answer choices =
      single_or (filter (λ option. is_text (trimmed_option trim selected) option.id) choices)
        (parse_choice_selection nfkc trim lower strip answer choices)

  assent_read : HumanInquiryResponseType → String → Option YesNoAssent
  assent_read yes_no answer = some (parse_yes_no_assent nfkc trim lower strip answer)
  assent_read _ answer = none

  choice_read :
      HumanInquiryResponseType → Option String → String → List ChoiceOption → Option String
  unfolding resolve_selected_choice
  choice_read choice selected answer choices = resolve_selected_choice selected answer choices
  choice_read _ selected answer choices = none

  record_open_entry :
      ℕ
      → RecordOpenQuestionAnswerInput
      → OpenQuestionRegistry
      → Option OpenQuestion
      → OpenQuestionRegistry × Option OpenQuestion
  unfolding assent_read choice_read
  record_open_entry now input registry none = (registry, none)
  record_open_entry now input registry (some entry) =
      answer_question now input.id
        (record {
          answer = input.answer;
          answered_at = input.answered_at;
          assent = assent_read entry.response_type input.answer;
          selected_choice =
              choice_read entry.response_type input.selected_choice input.answer
                (get_or_else entry.choices []);
          answered_by = input.answered_by;
          source_message = input.source_message;
          rationale = input.rationale;
        })
        registry

  unfoldable pub record_open_question_answer :
      ℕ
      → RecordOpenQuestionAnswerInput
      → OpenQuestionRegistry
      → OpenQuestionRegistry × Option OpenQuestion
  unfolding record_open_entry
  record_open_question_answer now input registry =
      record_open_entry now input registry (open_entry (get_question input.id registry))

  -- `answered ? { answered: [answered] } : { answered: [], generalGuidance: trimmed }`
  applied :
      String
      → OpenQuestionRegistry × Option OpenQuestion
      → OpenQuestionRegistry × ApplyOperatorMessageResult
  applied trimmed (registry, none) =
      (registry, record { answered = []; general_guidance = some trimmed })
  applied trimmed (registry, some entry) =
      (registry, record { answered = entry ∷ []; general_guidance = none })

  apply_to :
      ℕ
      → String
      → Option ℕ
      → String
      → OpenQuestionRegistry
      → OpenQuestionRegistry × ApplyOperatorMessageResult
  unfolding applied record_open_question_answer
  apply_to now trimmed answered_at id registry = applied trimmed (
      record_open_question_answer now
        (record {
          id = id;
          answer = trimmed;
          answered_at = answered_at;
          selected_choice = none;
          answered_by = by_operator;
          source_message = some trimmed;
          rationale = none;
        })
        registry)

  -- The questions that are open: one is answered, else the message is general.
  apply_open :
      ℕ
      → String
      → Option ℕ
      → List OpenQuestion
      → OpenQuestionRegistry
      → OpenQuestionRegistry × ApplyOperatorMessageResult
  unfolding apply_to
  apply_open now trimmed answered_at (entry ∷ []) registry =
      apply_to now trimmed answered_at entry.id registry
  apply_open now trimmed answered_at _ registry =
      (registry, record { answered = []; general_guidance = some trimmed })

  -- `options?.targetQuestionId` counts where it is not empty.
  apply_target :
      ℕ
      → String
      → Option ℕ
      → Option String
      → OpenQuestionRegistry
      → OpenQuestionRegistry × ApplyOperatorMessageResult
  unfolding apply_to apply_open
  apply_target now trimmed answered_at none registry =
      apply_open now trimmed answered_at (list_open registry) registry
  apply_target now trimmed answered_at (some id) registry =
      if str_eq id ""
      then apply_open now trimmed answered_at (list_open registry) registry
      else apply_to now trimmed answered_at id registry

  unfoldable pub apply_operator_message :
      ℕ
      → String
      → ApplyOperatorMessageOptions
      → OpenQuestionRegistry
      → OpenQuestionRegistry × ApplyOperatorMessageResult
  unfolding apply_target
  apply_operator_message now message options registry =
      let trimmed = trim message in
      if str_eq trimmed ""
      then (registry, record { answered = []; general_guidance = none })
      else apply_target now trimmed options.answered_at options.target_question_id registry
