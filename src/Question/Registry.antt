-- ===== src/Question/Registry.antt =====
-- packages/core/src/escalation/open-question.ts. `now` is `Date.now()`, and `decimal` the text of a
-- number in the template of an id.
pub mod Laws
pub mod Counts
use Prim.Native.String.{String}
use Prim.Native.String as Text
use text.Mathlib.Text.{◌==◌ as str_eq}
use agents_ensemble.Base.{
  ℕ, zero, suc, Bool, true, false, not, Option, none, some, List, [], ◌∷◌, filter, length,
  get_or_else, if◌then◌else◌,
}
use agents_ensemble.Base.StringMap.{lookup, insert, values}
use agents_ensemble.Question.Assent.{YesNoAssent, yes, no, unclear, ChoiceOption}

pub data OpenQuestionStatus : Type 0 where
  opened answered : OpenQuestionStatus

pub data OpenQuestionAnsweredBy : Type 0 where
  by_operator by_conductor : OpenQuestionAnsweredBy

pub data OpenQuestionSource : Type 0 where
  conductor max_turns : OpenQuestionSource

-- human-inquiry.ts
pub data HumanInquiryResponseType : Type 0 where
  text_answer yes_no choice : HumanInquiryResponseType

pub record OpenQuestion : Type 0 where
  pub id : String
  pub question : String
  pub response_type : HumanInquiryResponseType
  pub choices : Option (List ChoiceOption)
  pub context : Option String
  pub source : OpenQuestionSource
  pub status : OpenQuestionStatus
  pub asked_at : ℕ
  pub answer : Option String
  pub assent : Option YesNoAssent
  pub selected_choice : Option String
  pub approved : Option Bool
  pub answered_at : Option ℕ
  pub answered_by : Option OpenQuestionAnsweredBy
  pub source_message : Option String
  pub rationale : Option String
  pub related_permission_id : Option String

pub record EnqueueOpenQuestionInput : Type 0 where
  pub question : String
  pub response_type : HumanInquiryResponseType
  pub choices : Option (List ChoiceOption)
  pub context : Option String
  pub related_permission_id : Option String
  pub source : Option OpenQuestionSource

-- Without `approved`, which the code does not read.
pub record AnswerOpenQuestionInput : Type 0 where
  pub answer : String
  pub answered_at : Option ℕ
  pub assent : Option YesNoAssent
  pub selected_choice : Option String
  pub answered_by : OpenQuestionAnsweredBy
  pub source_message : Option String
  pub rationale : Option String

pub record OpenQuestionRegistry : Type 0 where
  pub sequence : ℕ
  pub entries : List (String × OpenQuestion)

pub record OpenQuestionRegistrySnapshot : Type 0 where
  pub sequence : ℕ
  pub open_questions : List OpenQuestion

unfoldable pub inquiry_id : (ℕ → String) → ℕ → String
inquiry_id decimal n = Text.◌++◌ "inq-" (decimal n)

unfoldable pub new_question : String → ℕ → EnqueueOpenQuestionInput → OpenQuestion
new_question id now input = record {
  id = id;
  question = input.question;
  response_type = input.response_type;
  choices = input.choices;
  context = input.context;
  source = get_or_else input.source conductor;
  status = opened;
  asked_at = now;
  answer = none;
  assent = none;
  selected_choice = none;
  approved = none;
  answered_at = none;
  answered_by = none;
  source_message = none;
  rationale = none;
  related_permission_id = input.related_permission_id;
}

unfoldable pub enqueue_question :
    (ℕ → String)
    → ℕ
    → EnqueueOpenQuestionInput
    → OpenQuestionRegistry
    → OpenQuestionRegistry × OpenQuestion
unfolding inquiry_id new_question
enqueue_question decimal now input registry =
    let id = inquiry_id decimal (suc registry.sequence) in
    let entry = new_question id now input in
    (record { sequence = suc registry.sequence; entries = insert id entry registry.entries }, entry)

unfoldable pub get_question : String → OpenQuestionRegistry → Option OpenQuestion
get_question id registry = lookup id registry.entries

-- `choice.id === …` against a value that may be missing.
abbrev pub is_text : Option String → String → Bool
is_text none s = false
is_text (some t) s = str_eq s t

abbrev pub single_id : List ChoiceOption → Option String
single_id (option ∷ []) = some option.id
single_id _ = none

unfoldable pub selected_of :
    HumanInquiryResponseType → Option (List ChoiceOption) → Option String → Option String
selected_of choice (some choices) selected =
    single_id (filter (λ option. is_text selected option.id) choices)
selected_of _ _ selected = none

abbrev pub assent_kept : HumanInquiryResponseType → Option YesNoAssent → Option YesNoAssent
assent_kept yes_no assent = assent
assent_kept _ assent = none

-- A related permission is given by a text that is not empty.
approved_of_permission : Bool → Option YesNoAssent → Option Bool
approved_of_permission true none = none
approved_of_permission true (some unclear) = none
approved_of_permission true (some yes) = some true
approved_of_permission true (some no) = some false
approved_of_permission false assent = none

abbrev pub is_given : Option String → Bool
is_given none = false
is_given (some t) = if str_eq t "" then false else true

unfoldable pub approved_of :
    HumanInquiryResponseType → Option String → Option YesNoAssent → Option Bool
unfolding approved_of_permission
approved_of yes_no permission assent = approved_of_permission (is_given permission) assent
approved_of _ permission assent = none

unfoldable pub answered_question : ℕ → AnswerOpenQuestionInput → OpenQuestion → OpenQuestion
unfolding selected_of approved_of
answered_question now input entry = record entry {
  status = answered;
  answer = some input.answer;
  assent = assent_kept entry.response_type input.assent;
  selected_choice = selected_of entry.response_type entry.choices input.selected_choice;
  approved = approved_of entry.response_type entry.related_permission_id input.assent;
  answered_at = some (get_or_else input.answered_at now);
  answered_by = some input.answered_by;
  source_message = input.source_message;
  rationale = input.rationale;
}

abbrev pub is_open : OpenQuestionStatus → Bool
is_open opened = true
is_open answered = false

-- `if (!entry || entry.status !== 'open') return undefined`
abbrev pub open_entry : Option OpenQuestion → Option OpenQuestion
open_entry none = none
open_entry (some entry) = if is_open entry.status then some entry else none

unfoldable pub answer_entry :
    ℕ
    → String
    → AnswerOpenQuestionInput
    → OpenQuestionRegistry
    → Option OpenQuestion
    → OpenQuestionRegistry × Option OpenQuestion
unfolding answered_question
answer_entry now id input registry none = (registry, none)
answer_entry now id input registry (some entry) =
    let updated = answered_question now input entry in
    (record registry { entries = insert id updated registry.entries }, some updated)

unfoldable pub answer_question :
    ℕ
    → String
    → AnswerOpenQuestionInput
    → OpenQuestionRegistry
    → OpenQuestionRegistry × Option OpenQuestion
unfolding answer_entry
answer_question now id input registry =
    answer_entry now id input registry (open_entry (lookup id registry.entries))

unfoldable pub list_questions : OpenQuestionRegistry → List OpenQuestion
list_questions registry = values registry.entries

unfoldable pub list_open : OpenQuestionRegistry → List OpenQuestion
unfolding list_questions
list_open registry = filter (λ entry. is_open entry.status) (list_questions registry)

unfoldable pub list_answered : OpenQuestionRegistry → List OpenQuestion
unfolding list_questions
list_answered registry = filter (λ entry. not (is_open entry.status)) (list_questions registry)

unfoldable pub open_count : OpenQuestionRegistry → ℕ
unfolding list_open
open_count registry = length (list_open registry)

unfoldable pub registry_snapshot : OpenQuestionRegistry → OpenQuestionRegistrySnapshot
unfolding list_questions
registry_snapshot registry = record {
  sequence = registry.sequence;
  open_questions = list_questions registry;
}

-- `this.entries.set(entry.id, entry)` for each entry.
unfoldable pub set_each :
    List OpenQuestion → List (String × OpenQuestion) → List (String × OpenQuestion)
set_each [] entries = entries
set_each (entry ∷ rest) entries = set_each rest (insert entry.id entry entries)

unfoldable pub restore : OpenQuestionRegistrySnapshot → OpenQuestionRegistry → OpenQuestionRegistry
unfolding set_each
restore snapshot registry = record {
  sequence = snapshot.sequence;
  entries = set_each snapshot.open_questions [];
}
