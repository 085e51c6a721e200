-- ===== src/Question/Answer/Laws.antt =====
-- What becomes of a message of the operator.
use Prim.Native.String.{String}
use text.Mathlib.Text.{◌==◌ as str_eq}
use agents_ensemble.Base.{
  ℕ, ◌≡◌, ◌≢◌, refl, inl, inr, true, false, arith, Bool-cases, Option, none, some, Option-cases,
  List, [], ◌∷◌,
}
use agents_ensemble.Base.StringMap.{lookup, lookup-insert_same, lookup-insert_other}
use agents_ensemble.Question.Registry.{
  OpenQuestionStatus, opened, is_open, OpenQuestion, OpenQuestionRegistry, answered, by_operator,
  open_entry, answered_question, answer_entry, answer_question, get_question, list_open,
}
use agents_ensemble.Question.Answer.{
  ApplyOperatorMessageOptions, ApplyOperatorMessageResult, record_open_entry,
  record_open_question_answer, applied, apply_to, apply_open, apply_target, apply_operator_message,
}

-- What a message has become: general guidance, with its text and an untouched registry, or the answer
-- of the operator to one question that was open, with its text, which the registry now holds as
-- answered; every other question is as it was.
pub data IsKept (text : String) (before : OpenQuestionRegistry)
    : OpenQuestionRegistry × ApplyOperatorMessageResult → Type 0 where
  as_guidance : IsKept text before (before, record { answered = []; general_guidance = some text })
  as_answer :
      (after : OpenQuestionRegistry) (id : String) (asked question : OpenQuestion)
      → get_question id before ≡ some asked
      → asked.status ≡ opened
      → ((other : String) → other ≢ id → get_question other after ≡ get_question other before)
      → question.id ≡ asked.id
      → question.question ≡ asked.question
      → get_question id after ≡ some question
      → question.status ≡ answered
      → question.answer ≡ some text
      → question.answered_by ≡ some by_operator
      → question.source_message ≡ some text
      → IsKept text before (after, record { answered = question ∷ []; general_guidance = none })

opened_of : (status : OpenQuestionStatus) → is_open status ≡ true → status ≡ opened
opened_of opened e = refl
opened_of answered e = ground arith

of_open_entry :
    (found : Option OpenQuestion) (entry : OpenQuestion)
    → open_entry found ≡ some entry
    → (found ≡ some entry) × (entry.status ≡ opened)
of_open_entry none entry e = ground arith
of_open_entry (some q) entry e = elim (Bool-cases (is_open q.status)) [
  | inl f ↦
      let same : some q ≡ some entry = rw f at e in
      let is_opened : q.status ≡ opened = opened_of q.status f in (same, cc)
  | inr f ↦ ground (arith, e)
]

module _ (nfkc trim lower strip : String → String) where
  apply_to-IsKept :
      (now : ℕ) (text : String) (answered_at : Option ℕ) (id : String)
      (registry : OpenQuestionRegistry)
      → IsKept text registry (apply_to nfkc trim lower strip now text answered_at id registry)
  unfolding apply_to applied record_open_question_answer record_open_entry answer_question
      answered_question answer_entry get_question
  apply_to-IsKept now text answered_at id registry =
      elim (Option-cases (open_entry (lookup id registry.entries))) [
        | inl e ↦ rw e as_guidance
        | inr (entry, e) ↦
            let (found, is_opened) = of_open_entry (lookup id registry.entries) entry e in
            rw e (
              rw e (
                as_answer _ id entry _ found is_opened
                  (λ other f. lookup-insert_other id other _ registry.entries f) refl refl
                  (lookup-insert_same id _ registry.entries) refl refl refl refl))
      ]

  apply_open-IsKept :
      (now : ℕ) (text : String) (answered_at : Option ℕ) (open_questions : List OpenQuestion)
      (registry : OpenQuestionRegistry)
      → IsKept text registry
          (apply_open nfkc trim lower strip now text answered_at open_questions registry)
  unfolding apply_open
  apply_open-IsKept now text answered_at [] registry = as_guidance
  apply_open-IsKept now text answered_at (entry ∷ []) registry =
      apply_to-IsKept now text answered_at entry.id registry
  apply_open-IsKept now text answered_at (_ ∷ _ ∷ _) registry = as_guidance

  apply_target-IsKept :
      (now : ℕ) (text : String) (answered_at : Option ℕ) (target : Option String)
      (registry : OpenQuestionRegistry)
      → IsKept text registry
          (apply_target nfkc trim lower strip now text answered_at target registry)
  unfolding apply_target
  apply_target-IsKept now text answered_at none registry =
      apply_open-IsKept now text answered_at (list_open registry) registry
  apply_target-IsKept now text answered_at (some id) registry = elim (Bool-cases (str_eq id "")) [
    | inl e ↦ rw e (apply_open-IsKept now text answered_at (list_open registry) registry)
    | inr e ↦ rw e (apply_to-IsKept now text answered_at id registry)
  ]

  -- No message of the operator that has a text is lost: it answers one question that was open, with
  -- the text as it was written but for the spaces around it, and leaves every other question as it
  -- was, or it is handed on as general guidance, and then
  -- no question is touched.
  pub apply_operator_message-IsKept :
      (now : ℕ) (message : String) (options : ApplyOperatorMessageOptions)
      (registry : OpenQuestionRegistry)
      → str_eq (trim message) "" ≡ false
      → IsKept
          (trim message)
          registry
          (apply_operator_message nfkc trim lower strip now message options registry)
  unfolding apply_operator_message
  apply_operator_message-IsKept now message options registry e = rw e (
      apply_target-IsKept now (trim message) options.answered_at options.target_question_id
        registry)
