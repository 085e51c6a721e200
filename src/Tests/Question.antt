-- ===== src/Tests/Question.antt =====
-- An open question and its answers; `plain` stands for the normalisation of a text that needs none,
-- and `unary` for the writing of a number.
use Prim.Native.String.{String, len}
use Prim.Native.String as Text
use text.Mathlib.TextLemmas.{length-append}
use agents_ensemble.Base.{
  length, ℕ, zero, suc, ◌≡◌, refl, sym, ap, ◌∙◌, Bool, true, false, Option, none, some, List, [],
  ◌∷◌, arith,
}
use agents_ensemble.Question.Assent.{
  ChoiceOption, no, normalize_answer, parse_yes_no_assent, parse_choice_selection,
}
use agents_ensemble.Question.Assent.Laws.{IsOffered, parse_choice_selection-IsOffered}
use agents_ensemble.Question.Registry.Counts.{answer_question-moves_one}
use agents_ensemble.Question.Registry.{
  answered_question, new_question, open_count, list_answered, EnqueueOpenQuestionInput,
  AnswerOpenQuestionInput, OpenQuestionRegistry, yes_no, by_operator, enqueue_question,
  answer_question, registry_snapshot, restore,
}
use agents_ensemble.Question.Registry.Laws.{
  IsWellFormed, restore-registry_snapshot, answer_question_once,
}
use agents_ensemble.Question.Answer.{ApplyOperatorMessageOptions, apply_operator_message}
use agents_ensemble.Question.Answer.Laws.{IsKept, apply_operator_message-IsKept}
use agents_ensemble.Question.MaxTurns.{ensure_max_turns_open_question}
use agents_ensemble.Question.MaxTurns.Laws.{ensure_max_turns_open_question_once}

abbrev plain : String → String
plain s = s

unfoldable unary : ℕ → String
unary zero = ""
unary (suc n) = Text.◌++◌ "|" (unary n)

count-unary : (n : ℕ) → Text.count (unary n) ≡ n
unfolding unary
count-unary zero = refl
count-unary (suc n) =
    let one : Text.count "|" ≡ 1 = refl in
    omega (arith, length-append "|" (unary n), count-unary n, one)

unary_injective : (m n : ℕ) → unary m ≡ unary n → m ≡ n
unary_injective m n e = sym (count-unary m) ∙ ap (λ s. Text.count s) e ∙ count-unary n

abbrev colors : List ChoiceOption
colors = record { id = "red"; label = "Red" } ∷ record { id = "blue"; label = "Blue" } ∷ []

second_by_number : parse_choice_selection plain plain plain plain "2" colors ≡ some "blue"
unfolding parse_choice_selection agents_ensemble.Question.Assent.digits_value
second_by_number = refl

parse_choice_selection-IsOffered_example : IsOffered "blue" colors
parse_choice_selection-IsOffered_example =
    parse_choice_selection-IsOffered plain plain plain plain "2" colors "blue" second_by_number

abbrev asked : EnqueueOpenQuestionInput
asked = record {
  question = "merge?";
  response_type = yes_no;
  choices = none;
  context = none;
  related_permission_id = none;
  source = none;
}

abbrev empty_registry : OpenQuestionRegistry
empty_registry = record { sequence = 0; entries = [] }

empty_registry-IsWellFormed : IsWellFormed unary empty_registry
empty_registry-IsWellFormed = record { keyed = tt; unique = tt; counted = tt }

abbrev one_question : OpenQuestionRegistry
one_question = (enqueue_question unary 5 asked empty_registry).0

abbrev agreed : AnswerOpenQuestionInput
agreed = record {
  answer = "yes";
  answered_at = none;
  assent = none;
  selected_choice = none;
  answered_by = by_operator;
  source_message = none;
  rationale = none;
}

answer_question_once_example :
    answer_question 8 "inq-|" agreed (answer_question 6 "inq-|" agreed one_question).0
    ≡ ((answer_question 6 "inq-|" agreed one_question).0, none)
answer_question_once_example = answer_question_once 6 8 "inq-|" agreed agreed one_question

restore-registry_snapshot_example :
    restore (registry_snapshot one_question) empty_registry ≡ one_question
unfolding enqueue_question agents_ensemble.Base.StringMap.insert
restore-registry_snapshot_example =
    restore-registry_snapshot one_question empty_registry (refl, tt) (tt, tt)

abbrev no_target : ApplyOperatorMessageOptions
no_target = record { target_question_id = none; answered_at = none }

apply_operator_message-IsKept_example :
    IsKept "yes" one_question
      (apply_operator_message plain plain plain plain 9 "yes" no_target one_question)
apply_operator_message-IsKept_example =
    apply_operator_message-IsKept plain plain plain plain 9 "yes" no_target one_question refl

ensure_max_turns_open_question_once_example :
    let first = ensure_max_turns_open_question unary 1 "limit" empty_registry in
    ensure_max_turns_open_question unary 2 "limit" first.0 ≡ (first.0, first.1, false)
ensure_max_turns_open_question_once_example =
    ensure_max_turns_open_question_once unary unary_injective 1 2 "limit" "limit" empty_registry
      empty_registry-IsWellFormed

first_answer :
    (answer_question 6 "inq-|" agreed one_question).1
    ≡ some (answered_question 6 agreed (new_question "inq-|" 5 asked))
unfolding answer_question agents_ensemble.Base.StringMap.lookup enqueue_question
    agents_ensemble.Base.StringMap.insert unary
first_answer = refl

answer_question-moves_one_example :
    let after = (answer_question 6 "inq-|" agreed one_question).0 in
    (suc (open_count after) ≡ open_count one_question)
    × (length (list_answered after) ≡ suc (length (list_answered one_question)))
answer_question-moves_one_example =
    answer_question-moves_one 6 "inq-|" agreed one_question
      (answered_question 6 agreed (new_question "inq-|" 5 asked)) first_answer
